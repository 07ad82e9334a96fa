-- ===== src/Switch/Examples.antt =====
-- The theorems of the whole switch on a concrete one.
use latentred.Prelude.{
  ℕ, ◌+◌, ◌<◌, ◌≡◌, refl, Bool, true, false, List, [], ◌∷◌, ◌++◌, some, arith, if◌then◌else◌,
  get_elem?, length,
}
use latentred.Prelude.CString.{bytes, c_str, list_eq, strncpy}
use latentred.Platform.{Mdio, flag_mutex, flag_mutex-IsMutex}
use latentred.Port.{LineCard, poll_idle, poll_status}
use latentred.PhyPoll.Round.{polled}
use latentred.PhyPoll.Waiting.{Moment}
use latentred.Sensors.{Hardware}
use latentred.Cli.Grammar.{CommandId, Token, cmd_show, cmd_hardware, cmd_commit}
use latentred.Cli.Show.{row_of, all_rows, on_show_interface_status}
use latentred.Cli.Dispatch.{command}
use latentred.Cli.Status.{rows}
use latentred.Switch.{Switch, Event, pass, line, shell, port_of, happen_all}
use latentred.Switch.Runs.{SwitchOk}
use latentred.Switch.Names.{name_steps, Shows, happen_all-Shows}
use latentred.Cli.Shared.{views}
use latentred.Switch.Rounds.{RoundEnds, happen-RoundEnds}
use latentred.Switch.Started.{started, IsShowable, happen_all-started}
use latentred.Switch.Shown.{polled_switch, shown_round}
use latentred.Samples.Quiet.{all_quiet}
use latentred.Samples.Boards.{print_text}
use latentred.Samples.Lines.{two_sessions, two_sessions-AllOk, hostname_line, commit_line}
use latentred.Cli.Spec.{apply}
use latentred.Cli.System.{Session}
use latentred.Cli.Sessions.{in_session}
use latentred.Samples.{
  constants, port, Flash, world, world-IsStore, world-LeavesStrings, world-KeepsNames, session,
}

abbrev bus : Hardware ℕ
bus = record {
  blocking_write8 = λ addr value b. (true, b + 1);
  blocking_write = λ addr payload b. (true, b + 1);
  blocking_read16 = λ addr b. (some 2640, b + 1);
  get_temperature = λ phy b. (45, b);
}

abbrev card : ℕ → Bool → LineCard Bool
card phy polling = record {
  ports = λ i. port;
  mutex = polling;
  has_mdio = true;
  task = record {
    card_index = 0;
    current_phy = phy;
    poll_state = if polling then poll_status else poll_idle;
    link_state_changed = false;
  };
}

-- A switch whose polling task is reading the status of a PHY, or rests at the first one.
abbrev switch : ℕ → Bool → Switch Flash ℕ Bool
switch phy polling = record {
  sessions = two_sessions;
  card = card phy polling;
  other_ports = λ i. port;
  bus = 0;
}

abbrev busy_switch : Switch Flash ℕ Bool
busy_switch = switch 5 true

busy_switch-SwitchOk : SwitchOk constants flag_mutex busy_switch
busy_switch-SwitchOk = record {
  card_ok = record {
    in_range = omega arith;
    polling = λ active. (omega arith, refl, refl);
    resting = λ idle. cc;
  };
  names_ok = two_sessions-AllOk;
}

abbrev answer : ℕ → Mdio
answer v = record { status = 0; value = v }

abbrev ready : Moment
ready = record { due = false; io = answer 4 }

abbrev word : CommandId → List ℕ → Token
word id text = record { command_id = id; text = text }

-- `show hardware` in the middle of a poll, then a pass of the polling task and `commit`
abbrev events : List Event
events =
    line (ready ∷ ready ∷ ready ∷ [])
      (command (word cmd_show (bytes "show") ∷ word cmd_hardware (bytes "hardware") ∷ [])) session
    ∷ pass true (answer 0)
    ∷ line (ready ∷ ready ∷ ready ∷ []) (command (word cmd_commit (bytes "commit") ∷ [])) session
    ∷ []

abbrev registers : ℕ → ℕ
registers word = 0x34

shown_round_example :
    let x = switch 0 false in
    let y = polled_switch constants flag_mutex registers x in
    let printed = all_rows (port_of y) 0 2 in
    (rows (on_show_interface_status (port_of y) (in_session 1 y.sessions)).out ≡ rows [] ++ printed)
    × (length printed ≡ 48)
    × ((i : ℕ)
        → i < 24
        → (get_elem? printed i ≡ some (row_of (polled constants flag_mutex registers i port)))
          × (get_elem? printed (24 + i) ≡ some (row_of port)))
shown_round_example =
    shown_round constants flag_mutex registers flag_mutex-IsMutex (switch 0 false) 1
      (record { index = refl; idle = refl; free = refl })

-- The last PHY is being polled: `show hardware` waits for it, and three passes come after.
abbrev last_events : List Event
last_events =
    line (ready ∷ ready ∷ ready ∷ [])
      (command (word cmd_show (bytes "show") ∷ word cmd_hardware (bytes "hardware") ∷ [])) session
    ∷ pass true (answer 0)
    ∷ pass false (answer 4)
    ∷ pass false (answer 4)
    ∷ []

last_switch-SwitchOk : SwitchOk constants flag_mutex (switch 23 true)
last_switch-SwitchOk = record {
  card_ok = record {
    in_range = omega arith;
    polling = λ active. (omega arith, refl, refl);
    resting = λ idle. cc;
  };
  names_ok = busy_switch-SwitchOk.names_ok;
}

happen-RoundEnds_example :
    RoundEnds constants flag_mutex world bus last_events (some (switch 23 true))
happen-RoundEnds_example =
    happen-RoundEnds constants flag_mutex world bus flag_mutex-IsMutex last_events (switch 23 true)
      (omega arith, (tt, (tt, (tt, tt)))) last_switch-SwitchOk (omega arith)

happen_all-started_example : IsShowable constants flag_mutex world bus (
    happen_all constants flag_mutex world bus events
      (started constants false print_text two_sessions 0))
happen_all-started_example =
    happen_all-started constants flag_mutex world bus flag_mutex-IsMutex false print_text events
      two_sessions 0 refl (omega arith) busy_switch-SwitchOk.names_ok
      (omega arith, (tt, (omega arith, tt)))

-- `hostname core` and `commit` on the serial port, then a shell over SSH and passes between them.
abbrev over_ssh : Session
over_ssh = record { root_mode = true; over_ssh = true; id = 1; username = bytes "admin" }

abbrev name_events : List Event
name_events =
    line (ready ∷ ready ∷ ready ∷ []) (command hostname_line) session
    ∷ pass true (answer 4)
    ∷ line (ready ∷ ready ∷ ready ∷ []) (command commit_line) session
    ∷ pass false (answer 0)
    ∷ shell over_ssh
    ∷ []

happen_all-Shows_example :
    Shows constants flag_mutex world bus
      (name_steps name_events (views world busy_switch.sessions))
      (happen_all constants flag_mutex world bus name_events busy_switch)
happen_all-Shows_example =
    happen_all-Shows constants flag_mutex world bus flag_mutex-IsMutex world-IsStore
      world-LeavesStrings world-KeepsNames name_events busy_switch
      (omega arith, (tt, (omega arith, (tt, (tt, tt))))) busy_switch-SwitchOk
      (all_quiet constants flag_mutex bus name_events busy_switch)

-- The shell over SSH has the name that was committed on the serial port.
core_everywhere : (name_steps name_events (views world busy_switch.sessions)).hosts 2 ≡ bytes "core"
unfolding name_steps apply c_str list_eq strncpy
core_everywhere = refl
