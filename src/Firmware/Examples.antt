-- ===== src/Firmware/Examples.antt =====
-- The theorems of the whole firmware on a few turns from a reset on.
use latentred.Prelude.{
  zero, suc, replicate, All, ℕ, ◌≡◌, refl, true, false, Bool, List, [], ◌∷◌, none, some, arith,
}
use latentred.Prelude.CString.{bytes, zeroed}
use latentred.Platform.{Mdio, flag_mutex, flag_mutex-IsMutex}
use latentred.PhyPoll.Waiting.{Moment}
use latentred.Cli.Grammar.{cmd_show, cmd_hardware, cmd_commit}
use latentred.Cli.Dispatch.{command}
use latentred.Mgmt.{Mgmt, Inputs}
use latentred.Net.{Ports}
use latentred.Boot.Bsp.{bsp_init}
use latentred.Switch.Started.{started}
use latentred.Firmware.{
  opened, typed, Typed, Turn, poll, fpga, aging_1hz, aging_10hz, console, then_run, run_turns,
  powered,
}
use latentred.Switch.Runs.{IsServed}
use latentred.Switch.Rounds.{RoundEnds}
use latentred.Firmware.Polling.{ready_polls, switch_of, bsp_init-RoundEnds}
use latentred.Cli.System.{System}
use latentred.Cli.Shared.{views}
use latentred.Switch.Names.{Shows, name_steps}
use latentred.Firmware.Names.{bsp_init-Shows}
use latentred.Samples.Quiet.{all_quiet}
use latentred.Firmware.Restart.{RestartShows, bsp_init-RestartShows}
use latentred.Samples.Keys.{keys, keys-LeavesNames, idle, users, old_context}
use latentred.Firmware.Parts.{events_of}
use latentred.Firmware.Powered.{IsRunning, bsp_init-IsRunning}
use latentred.Samples.{
  lan, constants, world, world-IsStore, world-LeavesStrings, world-KeepsNames, session, Flash,
}
use latentred.Samples.Lines.{two_sessions, two_sessions-AllOk, no_lines, no_lines-OnlyPrints}
use latentred.Samples.Lines as Lines
use latentred.Samples.Boards.{devices, print_text, cold}

abbrev ports : Ports
ports = record { iperf3_port = 5201; ntp_port = 123 }

abbrev answer : Mdio
answer = record { status = 0; value = 4 }

abbrev ready : Moment
ready = record { due = false; io = answer }

abbrev show_hardware : Typed
show_hardware = record {
  moments = ready ∷ ready ∷ ready ∷ [];
  tokens = command (
      record { command_id = cmd_show; text = bytes "show" }
      ∷ record { command_id = cmd_hardware; text = bytes "hardware" }
      ∷ []);
  session = session;
}

abbrev commit : Typed
commit = record {
  moments = ready ∷ ready ∷ ready ∷ [];
  tokens = command (record { command_id = cmd_commit; text = bytes "commit" } ∷ []);
  session = session;
}

abbrev reads : Bool → Inputs
reads up = record { irq = true; frame = some 7; pin_up = up; pin_down = up; pin_last = up }

-- The first frame brings a line to a shell, the second one does not come by SSH.
abbrev turns : List Turn
turns =
    poll true answer
    ∷ fpga (reads true) (
        some (record {
          socket = record { local_port = 22; id = 1 };
          payload = 1 ∷ [];
          requests = opened session ∷ typed show_hardware ∷ [];
        }))
    ∷ aging_1hz
    ∷ console (some commit)
    ∷ aging_10hz
    ∷ fpga (reads false) (
        some (record {
          socket = record { local_port = 5201; id = 2 };
          payload = 1 ∷ [];
          requests = opened session ∷ typed show_hardware ∷ [];
        }))
    ∷ console none
    ∷ []

abbrev no_link : Mgmt
no_link = record { link = false; speed = 0 }

bsp_init-IsRunning_example :
    IsRunning constants flag_mutex false print_text world devices ports no_link turns (
      then_run constants flag_mutex world devices.hardware ports
        (run_turns constants flag_mutex world devices.hardware ports turns)
        (powered two_sessions no_link (bsp_init devices constants false print_text cold).1))
unfolding bsp_init
bsp_init-IsRunning_example =
    bsp_init-IsRunning constants flag_mutex false print_text world devices ports cold two_sessions
      no_link turns flag_mutex-IsMutex refl (omega arith) two_sessions-AllOk
      (tt, (tt, (omega arith, (omega arith, tt)))) ((refl, refl), ((refl, refl), tt)) refl

-- Other tasks run first, and then 96 turns poll.
abbrev polls : List Turn
polls = fpga (reads true) none ∷ console (some commit) ∷ replicate 96 (poll false answer)

polls-IsServed : (n : ℕ) → All IsServed (events_of (replicate n (poll false answer)))
polls-IsServed zero = tt
polls-IsServed (suc n) = (tt, polls-IsServed n)

polls_ready : (n : ℕ) → ready_polls (replicate n (poll false answer)) ≡ n
polls_ready zero = refl
polls_ready (suc n) = omega (arith, polls_ready n)

bsp_init-RoundEnds_example :
    RoundEnds constants flag_mutex world devices.hardware (events_of polls) (
      switch_of (powered two_sessions no_link (bsp_init devices constants false print_text cold).1))
unfolding bsp_init
bsp_init-RoundEnds_example =
    bsp_init-RoundEnds constants flag_mutex false print_text world devices cold two_sessions no_link
      polls flag_mutex-IsMutex refl two_sessions-AllOk (omega arith, polls-IsServed 96) refl
      (omega (arith, polls_ready 96))

bsp_init-Shows_example :
    Shows constants flag_mutex world devices.hardware
      (name_steps (events_of turns) (views world two_sessions))
      (switch_of (
        then_run constants flag_mutex world devices.hardware ports
          (run_turns constants flag_mutex world devices.hardware ports turns)
          (powered two_sessions no_link (bsp_init devices constants false print_text cold).1)))
unfolding bsp_init
bsp_init-Shows_example =
    bsp_init-Shows constants flag_mutex false print_text world devices ports world-IsStore
      world-LeavesStrings world-KeepsNames cold two_sessions no_link turns flag_mutex-IsMutex refl
      two_sessions-AllOk (tt, (tt, (omega arith, (omega arith, tt))))
      (all_quiet constants flag_mutex devices.hardware (events_of turns) (
        started constants false print_text two_sessions
          (bsp_init devices constants false print_text cold).1.devices))
      refl

-- all that a reset leaves is the flash store
abbrev after_reset : Flash → System Flash
after_reset s = record {
  world = s;
  hostname = zeroed 33;
  ssh_username = zeroed 32;
  ip = lan;
  out = [];
  reset_requested = false;
}

bsp_init-RestartShows_example :
    RestartShows constants flag_mutex false print_text world devices ports keys Lines.ports no_lines
      idle users after_reset 1 old_context
      (name_steps (events_of turns) (views world two_sessions))
      (switch_of (
        then_run constants flag_mutex world devices.hardware ports
          (run_turns constants flag_mutex world devices.hardware ports turns)
          (powered two_sessions no_link (bsp_init devices constants false print_text cold).1)))
unfolding bsp_init
bsp_init-RestartShows_example =
    bsp_init-RestartShows constants flag_mutex false print_text world devices ports keys Lines.ports
      no_lines idle users after_reset keys-LeavesNames world-IsStore world-LeavesStrings
      world-KeepsNames (λ s key own. refl) cold two_sessions no_link turns 1 old_context
      flag_mutex-IsMutex refl two_sessions-AllOk (tt, (tt, (omega arith, (omega arith, tt))))
      (all_quiet constants flag_mutex devices.hardware (events_of turns) (
        started constants false print_text two_sessions
          (bsp_init devices constants false print_text cold).1.devices))
      refl
