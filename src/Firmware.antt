-- ===== src/Firmware.antt =====
-- The tasks that App_Init and PortState register, on one state: the polling task, the task of the
-- management link, the two aging tasks and the console. The main loop that runs them is in a library;
-- here a turn of any task may follow any other.
pub mod Parts
pub mod Powered
pub mod Polling
pub mod Names
pub mod Restart
mod Examples
use latentred.Prelude.{
  ℕ, Bool, true, false, ◌&&◌, List, [], ◌∷◌, ◌++◌, Option, none, some, if◌then◌else◌,
}
use latentred.Platform.{Constants, CooperativeMutex, Mdio}
use latentred.Port.{PortState}
use latentred.PhyPoll.Waiting.{Moment}
use latentred.Sensors.{Hardware}
use latentred.Cli.Grammar.{Token}
use latentred.Cli.System.{World, Session}
use latentred.Cli.Sessions.{Sessions}
use latentred.Mgmt.{Mgmt, Inputs}
use latentred.Mgmt as Mgmt
use latentred.Net.{Ports, Socket, Call, ssh_rx, on_rx_data, on_aging_tick, on_aging_tick_10x}
use latentred.Boot.{Board}
use latentred.Switch.{Switch, Event, pass, line, shell, happen_all}

-- A command line that a session's tokenizer completes, with what the polling task meets if the command
-- has to wait for the mutex.
pub record Typed : Type 0 where
  pub moments : List Moment
  pub tokens : ℕ → Token
  pub session : Session

-- What an SSH session makes of its data: a shell that it opens, or a line for one.
pub data Request : Type 0 where
  opened : Session → Request
  typed : Typed → Request

-- What a frame brings to a TCP socket: its payload, and what an SSH session makes of it.
pub record Segment : Type 0 where
  pub socket : Socket
  pub payload : List ℕ
  pub requests : List Request

-- A turn of one of the tasks, with what it reads.
pub data Turn : Type 0 where
  poll : (due : Bool) (io : Mdio) → Turn
  fpga : Inputs → Option Segment → Turn
  aging_1hz aging_10hz : Turn
  console : Option Typed → Turn

-- The parts, with the events of the management link and what the network stack has handed on.
pub record Firmware (W B M : Type 0) : Type 0 where
  pub switch : Switch W B M
  pub mgmt : Mgmt
  pub events : List Mgmt.Event
  pub calls : List Call

abbrev pub as_line : Typed → Event
as_line t = line t.moments t.tokens t.session

abbrev pub as_events : List Request → List Event
as_events [] = []
as_events (opened c ∷ rs) = shell c ∷ as_events rs
as_events (typed t ∷ rs) = as_line t ∷ as_events rs

-- what happens while the SSH server takes its data
abbrev pub shell_events : List Request → List Call → List Event
shell_events rs [] = []
shell_events rs (ssh_rx socket payload ∷ calls) = as_events rs ++ shell_events rs calls
shell_events rs (call ∷ calls) = shell_events rs calls

-- `if(m_irq)`, and a frame that is not null
abbrev pub is_received : Bool → Option ℕ → Bool
is_received true (some frame) = true
is_received _ _ = false

-- the calls for what the stack makes of a frame
abbrev pub handed_on : Ports → Bool → Option Segment → List Call
handed_on p true (some g) = on_rx_data p g.socket g.payload
handed_on p _ _ = []

abbrev pub requests_of : Option Segment → List Request
requests_of none = []
requests_of (some g) = g.requests

abbrev pub line_of : Option Typed → List Event
line_of none = []
line_of (some t) = as_line t ∷ []

module _ {W B M : Type 0} (k : Constants) (mutex : CooperativeMutex M) (w : World W)
    (hw : Hardware B) (p : Ports) where
  -- the frame first, with what it brings, then the link
  abbrev pub after_frame : Inputs → List Call → Firmware W B M → Switch W B M → Firmware W B M
  after_frame i calls f x =
      let (mgmt, events) = Mgmt.iteration k i f.mgmt in
      record { switch = x; mgmt = mgmt; events = f.events ++ events; calls = f.calls ++ calls }

  abbrev pub on_switch :
      (Switch W B M → Firmware W B M) → Option (Switch W B M) → Option (Firmware W B M)
  on_switch g none = none
  on_switch g (some x) = some (g x)

  unfoldable pub turn : Turn → Firmware W B M → Option (Firmware W B M)
  turn (poll due io) f =
      on_switch (λ x. record f { switch = x }) (happen_all k mutex w hw (pass due io ∷ []) f.switch)
  turn (fpga i g) f =
      let calls = handed_on p (is_received i.irq i.frame) g in
      on_switch (after_frame i calls f)
        (happen_all k mutex w hw (shell_events (requests_of g) calls) f.switch)
  turn aging_1hz f = some (record f { calls = f.calls ++ on_aging_tick })
  turn aging_10hz f = some (record f { calls = f.calls ++ on_aging_tick_10x })
  turn (console t) f =
      on_switch (λ x. record f { switch = x }) (happen_all k mutex w hw (line_of t) f.switch)

  abbrev pub then_run :
      (Firmware W B M → Option (Firmware W B M)) → Option (Firmware W B M) → Option (Firmware W B M)
  then_run g none = none
  then_run g (some f) = g f

  -- the turns one after the other; `none` once a line waits for ever
  unfoldable pub run_turns : List Turn → Firmware W B M → Option (Firmware W B M)
  unfolding turn
  run_turns [] f = some f
  run_turns (t ∷ ts) f = then_run (run_turns ts) (turn t f)

module _ {W B M : Type 0} where
  abbrev with_ports : Sessions W → Mgmt → B → Option (PortState M) → Option (Firmware W B M)
  with_ports s m devices none = none
  with_ports s m devices (some state) = some (record {
    switch = record {
      sessions = s;
      card = state.cards 0;
      other_ports = (state.cards 1).ports;
      bus = devices;
    };
    mgmt = m;
    events = [];
    calls = [];
  })

  -- the parts as the startup leaves them, if it has constructed the ports
  unfoldable pub powered : Sessions W → Mgmt → Board B M → Option (Firmware W B M)
  powered s m b = with_ports s m b.devices b.port_state
