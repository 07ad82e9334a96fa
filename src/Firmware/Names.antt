-- ===== src/Firmware/Names.antt =====
-- The names that the sessions show and save, from the reset on.
use latentred.Prelude.{ℕ, ◌≡◌, ◌∙◌, refl, ap, true, false, List, Option, none, some, All}
use latentred.Platform.{Constants, CooperativeMutex, IsMutex}
use latentred.Cli.System.{World}
use latentred.Cli.Store.{KeepsNames, IsStore, LeavesStrings}
use latentred.Cli.Sessions.{Sessions, AllOk}
use latentred.Cli.Shared.{views}
use latentred.Mgmt.{Mgmt}
use latentred.Net.{Ports}
use latentred.Boot.{Devices, Board}
use latentred.Boot.Bsp.{bsp_init}
use latentred.Switch.{Switch, happen_all}
use latentred.Switch.Runs.{IsServed}
use latentred.Switch.Started.{started, started-SwitchOk}
use latentred.Switch.Names.{Shows, AllQuiet, name_steps, happen_all-Shows}
use latentred.Firmware.{Turn, Firmware, on_switch, then_run, run_turns, powered}
use latentred.Firmware.Parts.{events_of, assemble, run_turns-assemble}
use latentred.Firmware.Polling.{switch_of}
use latentred.Firmware.Powered.{fresh, bsp_init-powered}

module _ {W B M : Type 0} (k : Constants) (mutex : CooperativeMutex M) (free : M)
    (printf : List ℕ → List ℕ → List ℕ) (w : World W) (d : Devices B) (p : Ports) where
  switch_of-on_switch :
      (f : Firmware W B M) (ts : List Turn) (o : Option (Switch W B M))
      → switch_of (on_switch k mutex w d.hardware p (assemble k mutex w d.hardware p f ts) o) ≡ o
  switch_of-on_switch f ts none = refl
  switch_of-on_switch f ts (some x) = refl

  -- the switch of the firmware after the turns
  running :
      (b : Board B M) (s : Sessions W) (m : Mgmt) (ts : List Turn)
      → (bsp_init d k free printf b).0 ≡ true
      → switch_of (
          then_run k mutex w d.hardware p
            (run_turns k mutex w d.hardware p ts)
            (powered s m (bsp_init d k free printf b).1))
        ≡ happen_all k mutex w d.hardware
            (events_of ts)
            (started k free printf s (bsp_init d k free printf b).1.devices)
  running b s m ts up =
      let start = fresh k free printf d s m (bsp_init d k free printf b).1.devices in
      rw (bsp_init-powered k free printf d b s m up) (
        ap switch_of (run_turns-assemble k mutex w d.hardware p ts start)
        ∙ switch_of-on_switch start ts
            (happen_all k mutex w d.hardware (events_of ts) start.switch))

  module _ (store : IsStore w) (apart : LeavesStrings w) (keeps : KeepsNames w) where
    -- From a reset on, if BSP_Init returns, the firmware refines the specification of the names:
    -- in whatever order the tasks run, no line waits for ever, and what each session then shows as
    -- the host name, what all show as the SSH user name, and what the next load would give, is what
    -- the lines of the console and the lines and opened shells that come by SSH mean, in the order of
    -- the turns. The mutex is constructed unlocked, the names are terminated inside their arrays
    -- to begin with, each line finds the transceiver ready at least three times while it waits, and
    -- no commit prints an error. The mutex, the flash store and the other services do what they
    -- document.
    pub bsp_init-Shows :
        (b : Board B M) (s : Sessions W) (m : Mgmt) (ts : List Turn)
        → IsMutex mutex
        → mutex.locked free ≡ false
        → AllOk s
        → All IsServed (events_of ts)
        → AllQuiet k mutex w d.hardware
            (events_of ts)
            (started k free printf s (bsp_init d k free printf b).1.devices)
        → (bsp_init d k free printf b).0 ≡ true
        → Shows k mutex w d.hardware (name_steps (events_of ts) (views w s)) (
            switch_of (
              then_run k mutex w d.hardware p
                (run_turns k mutex w d.hardware p ts)
                (powered s m (bsp_init d k free printf b).1)))
    bsp_init-Shows b s m ts law unlocked names served quiet up =
        let devices = (bsp_init d k free printf b).1.devices in
        rw (running b s m ts up) (
          happen_all-Shows k mutex w d.hardware law store apart keeps (events_of ts)
            (started k free printf s devices) served
            (started-SwitchOk k mutex w d.hardware law free printf s devices unlocked names) quiet)
