-- ===== src/Firmware/Powered.antt =====
-- The firmware from the reset on: BSP_Init, then the tasks in any order.
use latentred.Prelude.{ℕ, ◌<◌, ◌≡◌, true, false, List, [], Option, none, some, arith, All}
use latentred.Platform.{Constants, CooperativeMutex, IsMutex}
use latentred.Port.{new_port_state}
use latentred.Cli.System.{World}
use latentred.Cli.Show.{all_rows}
use latentred.Cli.Sessions.{Sessions, AllOk}
use latentred.Mgmt.{Mgmt}
use latentred.Mgmt.Link.{IsStable, ups, downs, rises, falls, last_level, run_stable}
use latentred.Net.{Ports}
use latentred.Boot.{Devices, Board}
use latentred.Boot.Bsp.{bsp_init}
use latentred.Switch.{Switch, port_of, happen_all}
use latentred.Switch.Runs.{IsServed, SwitchOk}
use latentred.Switch.Started.{HasName, started, IsShowable, happen_all-started}
use latentred.Firmware.{Turn, Firmware, on_switch, then_run, run_turns, powered}
use latentred.Firmware.Parts.{events_of, reads_of, assemble, run_turns-assemble}

module _ {W B M : Type 0} (k : Constants) (free : M) (printf : List ℕ → List ℕ → List ℕ)
    (d : Devices B) where
  -- the parts as the startup constructs them, with the devices as it leaves them
  abbrev pub fresh : Sessions W → Mgmt → B → Firmware W B M
  fresh s m devices = record {
    switch = started k free printf s devices;
    mgmt = m;
    events = [];
    calls = [];
  }

  pub bsp_init-powered :
      (b : Board B M) (s : Sessions W) (m : Mgmt)
      → (bsp_init d k free printf b).0 ≡ true
      → powered s m (bsp_init d k free printf b).1
        ≡ some (fresh s m (bsp_init d k free printf b).1.devices)
  unfolding bsp_init powered new_port_state
  bsp_init-powered b s m up = ground arith

module _ {W B M : Type 0} (k : Constants) (mutex : CooperativeMutex M) (free : M)
    (printf : List ℕ → List ℕ → List ℕ) (w : World W) (d : Devices B) (p : Ports) where
  -- No line waits for ever. The mutex is taken exactly while a poll is in progress, the names are
  -- terminated inside their arrays, and each row of the table of ports names its speed; the link flag
  -- is the last level of the pin, with a call for each rise and one for each fall.
  abbrev pub IsRunning : Mgmt → List Turn → Option (Firmware W B M) → Type 0
  IsRunning m ts none = ⊥
  IsRunning m ts (some f) =
      SwitchOk k mutex f.switch
      × All HasName (all_rows (port_of f.switch) 0 2)
      × (f.mgmt.link ≡ last_level m.link (reads_of ts))
      × (ups f.events ≡ rises m.link (reads_of ts))
      × (downs f.events ≡ falls m.link (reads_of ts))

  assemble-IsRunning :
      (s : Sessions W) (m : Mgmt) (ts : List Turn) (devices : B) (o : Option (Switch W B M))
      → All IsStable (reads_of ts)
      → IsShowable k mutex w d.hardware o
      → IsRunning m ts (
          on_switch k mutex w d.hardware p
            (assemble k mutex w d.hardware p (fresh k free printf d s m devices) ts)
            o)
  assemble-IsRunning s m ts devices none stable ok = ok
  assemble-IsRunning s m ts devices (some x) stable (ok, named) =
      let (last, up, down) = run_stable k (reads_of ts) m stable in (ok, named, last, up, down)

  -- From a reset on, if BSP_Init returns, the tasks may run in whatever order, and the transceiver,
  -- the sensors, the network and the flash store may answer what they will: no line waits for ever,
  -- the mutex is taken exactly while a poll is in progress, the names stay terminated inside their
  -- arrays, each row of "show interface status" names one of the four speeds, the link flag of the
  -- management interface is the last level of the pin, and the stack got a link-up call for each
  -- rise of the pin and a link-down call for each fall. The mutex is constructed unlocked, the
  -- speed that a port starts with is one of the four, the names are terminated to begin with, each
  -- line finds the transceiver ready at least three times while it waits, and the pin keeps its
  -- level during each pass.
  pub bsp_init-IsRunning :
      (b : Board B M) (s : Sessions W) (m : Mgmt) (ts : List Turn)
      → IsMutex mutex
      → mutex.locked free ≡ false
      → k.link_speed_10m < 4
      → AllOk s
      → All IsServed (events_of ts)
      → All IsStable (reads_of ts)
      → (bsp_init d k free printf b).0 ≡ true
      → IsRunning m ts (
          then_run k mutex w d.hardware p
            (run_turns k mutex w d.hardware p ts)
            (powered s m (bsp_init d k free printf b).1))
  bsp_init-IsRunning b s m ts law unlocked small names served stable up =
      let devices = (bsp_init d k free printf b).1.devices in
      rw
        (
          bsp_init-powered k free printf d b s m up,
          run_turns-assemble k mutex w d.hardware p ts (fresh k free printf d s m devices),
        )
        (assemble-IsRunning s m ts devices
          (happen_all k mutex w d.hardware (events_of ts) (started k free printf s devices)) stable
          (happen_all-started k mutex w d.hardware law free printf (events_of ts) s devices unlocked
            small names served))
