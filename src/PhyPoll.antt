-- ===== src/PhyPoll.antt =====
-- firmware/lcbringup/main/LatentRedPhyPollTask.cpp: the task that polls the 24 PHYs of a line card
-- over MDIO, a register access for each pass of the main loop.
pub mod Sharing
pub mod Exclusion
pub mod Frame
pub mod Round
pub mod Led
pub mod Waiting
pub mod Ending
pub mod Speeds
pub mod Unhindered
pub mod Delay
pub mod Again
pub mod Chips
mod Examples
use Prim.Native.Nat.{bit_or, bit_xor}
use latentred.Prelude.{
  ℕ, ◌+◌, ◌*◌, ◌/◌, ◌%◌, Bool, false, not, ◌&&◌, List, [], ◌∷◌, ltb, leb, ◌==◌, update,
  if◌then◌else◌,
}
use latentred.Platform.{Constants, CooperativeMutex, Mdio}
use latentred.Port.{
  InterfaceState, PollState, poll_idle, poll_status, poll_ctrl, poll_ext_stat, LineCard, port_count,
}

-- What a pass writes: the `cmd_addr` register, a PHY register through MDIODevice, or a log line.
pub data Effect : Type 0 where
  cmd_addr : ℕ → Effect
  write_register : (phy reg value : ℕ) → Effect
  log_link_up : (ifname : List ℕ) (speed : ℕ) → Effect
  log_link_down : (ifname : List ℕ) → Effect

abbrev pub differs : Bool → Bool → Bool
differs a b = if a then not b else b

-- `(reg << 8) | phy`; the PHY is below 24 where it is sent, so the or is a sum.
unfoldable pub command : ℕ → ℕ → ℕ
command reg phy = reg * 256 + phy

-- `(basicStatus & 4) == 4`
unfoldable pub link_of : ℕ → Bool
link_of status = status / 4 % 2 == 1

-- `(extstat & 0x20) == 0x20`
unfoldable pub duplex_of : ℕ → Bool
duplex_of ext = ext / 0x20 % 2 == 1

-- `(extstat >> 3) & 3`
unfoldable pub speed_of : ℕ → ℕ
speed_of ext = ext / 8 % 4

-- Beside the log line, LED1 of the swapped port is on for 10 and 100 Mbit/s and off for gigabit.
unfoldable pub led_mode : Constants → ℕ → Bool → ℕ
led_mode k speed link_up =
    if ltb speed k.link_speed_1000m && link_up then bit_or 0x80e0 0x10 else 0x80e0

unfoldable pub led_phy : ℕ → ℕ
led_phy phy = bit_xor phy 1

unfoldable pub report_change : Constants → ℕ → InterfaceState → ℕ → List Effect
unfolding led_mode led_phy
report_change k phy port speed =
    (if port.link_up then log_link_up port.ifname speed else log_link_down port.ifname)
    ∷ write_register (led_phy phy) k.reg_vsc8512_led_mode (led_mode k speed port.link_up)
    ∷ []

module _ {M : Type 0} (k : Constants) (x : CooperativeMutex M) where
  -- one case of the switch in `PollPHYs` each
  abbrev start_poll : LineCard M → LineCard M × List Effect
  start_poll c =
      let (taken, m) = x.try_lock c.mutex in
      if taken
      then (
        record c { mutex = m; task = record task { poll_state = poll_status } },
        cmd_addr (command k.reg_basic_status task.current_phy) ∷ [],
      )
      else (record c { mutex = m }, [])
    where
      open c use {task}

  abbrev read_status : Mdio → LineCard M → LineCard M × List Effect
  read_status io c =
      if io.status == 0
      then (
        record c {
          ports = update ports phy (record port { link_up = link_of io.value });
          task = record task {
            link_state_changed = differs port.link_up (link_of io.value);
            poll_state = poll_ctrl;
          };
        },
        cmd_addr (command k.reg_basic_control phy) ∷ [],
      )
      else (c, [])
    where
      open c use {task, ports}

      phy : ℕ
      phy = task.current_phy

      port : InterfaceState
      port = ports phy

  abbrev read_control : Mdio → LineCard M → LineCard M × List Effect
  read_control io c =
      if io.status == 0
      then (
        record c { task = record task { poll_state = poll_ext_stat } },
        cmd_addr (command k.reg_vsc8512_aux_ctrl_stat task.current_phy) ∷ [],
      )
      else (c, [])
    where
      open c use {task}

  abbrev read_extended : Mdio → LineCard M → LineCard M × List Effect
  read_extended io c =
      if io.status == 0
      then (
        record c {
          ports = update ports phy port;
          mutex = x.unlock c.mutex;
          task = record task { current_phy = (phy + 1) % 0x10000; poll_state = poll_idle };
        },
        if task.link_state_changed then report_change k phy port (speed_of io.value) else [],
      )
      else (c, [])
    where
      open c use {task, ports}

      phy : ℕ
      phy = task.current_phy

      port : InterfaceState
      port = record (ports phy) { full_duplex = duplex_of io.value; speed = speed_of io.value }

  abbrev dispatch : PollState → Mdio → LineCard M → LineCard M × List Effect
  dispatch poll_idle io c = start_poll c
  dispatch poll_status io c = read_status io c
  dispatch poll_ctrl io c = read_control io c
  dispatch poll_ext_stat io c = read_extended io c

  unfoldable pub poll_phys : Mdio → LineCard M → LineCard M × List Effect
  poll_phys io c =
      if leb port_count c.task.current_phy then (c, []) else dispatch c.task.poll_state io c

module _ {M : Type 0} where
  -- A new round starts only if the last one has ended.
  unfoldable pub on_timer : LineCard M → LineCard M
  on_timer c =
      if leb port_count c.task.current_phy
      then record c {
        task = record (c.task) {
          current_phy = 0;
          poll_state = poll_idle;
          link_state_changed = false;
        };
      }
      else c

  -- `Iteration`: the base class calls `OnTimer` when the timer is due, then the PHYs are polled.
  unfoldable pub iteration :
      Constants → CooperativeMutex M → Bool → Mdio → LineCard M → LineCard M × List Effect
  unfolding on_timer poll_phys
  iteration k x due io c = poll_phys k x io (if due then on_timer c else c)
