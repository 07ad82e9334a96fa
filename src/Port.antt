-- ===== src/Port.antt =====
-- firmware/lcbringup/main/PortState.h, PortState.cpp and the data of LatentRedPhyPollTask.h: the state
-- of one interface, of one line card with its polling task, and of the whole switch.
pub mod Names
mod Examples
use latentred.Prelude.{
  ℕ, zero, suc, ◌+◌, ◌/◌, ◌%◌, Bool, true, false, List, [], ◌∷◌, ◌++◌, ltb, ◌==◌, if◌then◌else◌,
}
use latentred.Prelude.CString.{bytes, zeroed}
use latentred.Platform.{Constants}
use latentred.Tasks.{phy_poll, TaskTables}

-- class InterfaceState
pub record InterfaceState : Type 0 where
  pub link_up : Bool
  pub full_duplex : Bool
  pub speed : ℕ  -- linkspeed_t
  pub autoneg : Bool
  pub ifname : List ℕ  -- char[16]
  pub friendly_name : List ℕ  -- char[32]

unfoldable pub new_interface : Constants → InterfaceState
new_interface k = record {
  link_up = false;
  full_duplex = true;
  speed = k.link_speed_10m;
  autoneg = true;
  ifname = zeroed 16;
  friendly_name = zeroed 32;
}

-- the enum of `m_pollState`
pub data PollState : Type 0 where
  poll_idle poll_status poll_ctrl poll_ext_stat : PollState

-- The members of LatentRedPhyPollTask; its reference to the line card is the record around it.
pub record PollTask : Type 0 where
  pub card_index : ℕ  -- uint8_t
  pub current_phy : ℕ  -- uint16_t
  pub poll_state : PollState
  pub link_state_changed : Bool

unfoldable pub new_poll_task : ℕ → PollTask
new_poll_task index = record {
  card_index = index;
  current_phy = 0;
  poll_state = poll_idle;
  link_state_changed = false;
}

-- class LineCardState; the ports are an array of 24, indexed by a number, and `M` is the mutex.
pub record LineCard (M : Type 0) : Type 0 where
  pub ports : ℕ → InterfaceState
  pub mutex : M
  pub has_mdio : Bool
  pub task : PollTask

abbrev pub port_count : ℕ
port_count = 24

-- `%d` of a number that is not negative, by its decimal digits; the first argument bounds them.
decimal_from : ℕ → ℕ → List ℕ
decimal_from zero n = []
decimal_from (suc fuel) n =
    let high = decimal_from fuel (n / 10) in
    if ltb n 10 then (b'0' + n) ∷ [] else high ++ (b'0' + n % 10) ∷ []

unfoldable pub decimal : ℕ → List ℕ
unfolding decimal_from
decimal n = decimal_from (suc n) n

-- the text that `sbuf.Printf("g%d/%d", index, i)` formats
unfoldable pub port_name : ℕ → ℕ → List ℕ
unfolding decimal
port_name index i = bytes "g" ++ (decimal index ++ (bytes "/" ++ decimal i))

-- class PortState: two line cards, the management port and two uplinks
pub record PortState (M : Type 0) : Type 0 where
  pub cards : ℕ → LineCard M
  pub mgmt : InterfaceState
  pub uplinks : ℕ → InterfaceState

module _ {M : Type 0} (k : Constants) (free : M) (printf : List ℕ → List ℕ → List ℕ) where
  -- The constructor. `printf` is StringBuffer's: it writes a text into a cleared array. `free` is
  -- the mutex as its constructor leaves it.
  unfoldable pub new_line_card : Bool → ℕ → TaskTables → LineCard M × TaskTables
  unfolding new_interface new_poll_task
  new_line_card has_mdio index t = (
    record {
      ports = λ i. record (new_interface k) {
        ifname = printf (new_interface k).ifname (port_name index i);
      };
      mutex = free;
      has_mdio = has_mdio;
      task = new_poll_task index;
    },
    if has_mdio
        then record t {
          tasks = t.tasks ++ phy_poll index ∷ [];
          timer_tasks = t.timer_tasks ++ phy_poll index ∷ [];
        }
        else t,
  )

  -- the constructor of PortState: the second line card has no transceiver
  unfoldable pub new_port_state : TaskTables → PortState M × TaskTables
  unfolding new_line_card
  new_port_state t =
      let (card0, t0) = new_line_card true 0 t in
      let (card1, t1) = new_line_card false 1 t0 in
      (
        record {
          cards = λ i. if i == 0 then card0 else card1;
          mgmt = new_interface k;
          uplinks = λ i. new_interface k;
        },
        t1,
      )
