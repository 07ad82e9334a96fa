-- ===== src/Switch.antt =====
-- The polling task, the command line and the sensors together: "show hardware" of
-- firmware/lcbringup/main/LatentRedCLISessionContext.cpp runs PrintLineCardInfo on line card 0, and
-- "show interface status" reads the ports that LatentRedPhyPollTask.cpp writes.
pub mod Runs
pub mod Started
pub mod Rounds
pub mod Shown
pub mod Names
mod Examples
use latentred.Prelude.{
  ℕ, ◌≤◌, Bool, true, false, ◌&&◌, List, [], ◌∷◌, ◌++◌, Option, none, some, map, ◌==◌,
  if◌then◌else◌,
}
use latentred.Platform.{Constants, CooperativeMutex, Mdio}
use latentred.Port.{InterfaceState, LineCard}
use latentred.PhyPoll.{iteration}
use latentred.PhyPoll.Sharing.{IsExclusive}
use latentred.PhyPoll.Waiting.{Moment, ready_moments}
use latentred.Sensors.{Hardware, Line, print_line_card_info}
use latentred.Cli.Grammar.{CommandId, Token, cmd_show, cmd_hardware}
use latentred.Cli.System.{sensor_line, World, System, Session}
use latentred.Cli.Sessions.{Sessions, context_of, execute_in, open_shell}
use latentred.Cli.Buffers.{NamesOk}

-- The state of the parts: what the commands of the sessions work on, line card 0, the ports of line
-- card 1, and the devices on the I2C bus with the PHYs.
pub record Switch (W B M : Type 0) : Type 0 where
  pub sessions : Sessions W
  pub card : LineCard M
  pub other_ports : ℕ → InterfaceState
  pub bus : B

-- "show hardware", by its first two tokens
abbrev pub is_hardware : CommandId → CommandId → Bool
is_hardware cmd_show cmd_hardware = true
is_hardware _ _ = false

-- What happens, in any order: a pass of the polling task; a line of a session, with what its passes of
-- the polling task meet if it has to wait for the mutex; or the opening of a session's shell.
pub data Event : Type 0 where
  pass : (due : Bool) (io : Mdio) → Event
  line : (moments : List Moment) (tokens : ℕ → Token) (session : Session) → Event
  shell : (session : Session) → Event

abbrev pub show_lines : {W : Type 0} → List Line → System W → System W
show_lines ls s = record s { out = s.out ++ map sensor_line ls }

module _ {W B M : Type 0} where
  -- g_portState->m_lineCards[c].m_state[i]
  abbrev pub port_of : Switch W B M → ℕ → ℕ → InterfaceState
  port_of x c = if c == 0 then x.card.ports else x.other_ports

module _ {W B M : Type 0} (k : Constants) (mutex : CooperativeMutex M) (w : World W)
    (hw : Hardware B) where
  abbrev pub with_lines :
      (ℕ → Token)
      → Session
      → Switch W B M
      → Option (List Line × LineCard M × B)
      → Option (Switch W B M)
  with_lines m c x none = none
  with_lines m c x (some (lines, card, bus)) = some (record x {
    sessions = execute_in w (port_of x) (show_lines lines) (context_of c) m c x.sessions;
    card = card;
    bus = bus;
  })

  -- OnExecute on the switch; `none` if "show hardware" still waits when the moments end
  unfoldable pub execute_line :
      List Moment → (ℕ → Token) → Session → Switch W B M → Option (Switch W B M)
  execute_line ms m c x =
      let shown = with_lines m c x (print_line_card_info hw k mutex 0 ms x.card x.bus) in
      if c.root_mode && is_hardware (m 0).command_id (m 1).command_id
      then shown
      else some (record x {
        sessions = execute_in w (port_of x) (show_lines []) (context_of c) m c x.sessions;
      })

  -- of a pass, its effects on the card; its writes and log lines are in PhyPoll
  unfoldable pub happen : Event → Switch W B M → Option (Switch W B M)
  unfolding execute_line
  happen (pass due io) x = some (record x { card = (iteration k mutex due io x.card).0 })
  happen (line ms m c) x = execute_line ms m c x
  happen (shell c) x =
      some (record x { sessions = open_shell w (port_of x) (show_lines []) c x.sessions })

  abbrev pub and_then :
      (Switch W B M → Option (Switch W B M)) → Option (Switch W B M) → Option (Switch W B M)
  and_then f none = none
  and_then f (some x) = f x

  unfoldable pub happen_all : List Event → Switch W B M → Option (Switch W B M)
  unfolding happen
  happen_all [] x = some x
  happen_all (e ∷ es) x = and_then (happen_all es) (happen e x)
