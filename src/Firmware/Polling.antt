-- ===== src/Firmware/Polling.antt =====
-- The polling of the ports among all other tasks.
use latentred.Prelude.{
  ℕ, ◌+◌, ◌≤◌, ◌≡◌, refl, true, false, List, [], ◌∷◌, ◌++◌, Option, none, some, arith, All, ◌==◌,
  if◌then◌else◌, Bool,
}
use latentred.Platform.{Constants, CooperativeMutex, IsMutex}
use latentred.Cli.System.{World}
use latentred.Cli.Sessions.{Sessions, AllOk}
use latentred.Port.{new_port_state}
use latentred.PhyPoll.Ending.{round_left}
use latentred.Mgmt.{Mgmt}
use latentred.Boot.{Devices, Board}
use latentred.Boot.Bsp.{bsp_init}
use latentred.Switch.{Switch, Event}
use latentred.Switch.Runs.{IsServed}
use latentred.Switch.Started.{started, started-SwitchOk}
use latentred.Switch.Rounds.{ready_passes, RoundEnds, happen-RoundEnds}
use latentred.Firmware.{
  Turn, poll, fpga, aging_1hz, aging_10hz, console, Firmware, Request, opened, typed, Typed,
  Segment, as_events, line_of, is_received, powered,
}
use latentred.Firmware.Powered.{bsp_init-powered}
use latentred.Firmware.Parts.{arrived, events_of}

-- the turns of the polling task in which the transceiver has its answer
abbrev pub ready_polls : List Turn → ℕ
ready_polls [] = 0
ready_polls (poll due io ∷ ts) = (if io.status == 0 then 1 else 0) + ready_polls ts
ready_polls (t ∷ ts) = ready_polls ts

ready_passes-append :
    (es fs : List Event) → ready_passes (es ++ fs) ≡ ready_passes es + ready_passes fs
ready_passes-append [] fs = omega arith
ready_passes-append (e ∷ es) fs = omega (arith, ready_passes-append es fs)

ready_passes-as_events : (rs : List Request) → ready_passes (as_events rs) ≡ 0
ready_passes-as_events [] = refl
ready_passes-as_events (opened c ∷ rs) = omega (arith, ready_passes-as_events rs)
ready_passes-as_events (typed t ∷ rs) = omega (arith, ready_passes-as_events rs)

ready_passes-arrived : (r : Bool) (g : Option Segment) → ready_passes (arrived r g) ≡ 0
ready_passes-arrived true (some g) = ground (arith, ready_passes-as_events g.requests)
ready_passes-arrived true none = refl
ready_passes-arrived false g = refl

ready_passes-line_of : (t : Option Typed) → ready_passes (line_of t) ≡ 0
ready_passes-line_of none = refl
ready_passes-line_of (some t) = omega arith

ready_passes-events_of : (ts : List Turn) → ready_passes (events_of ts) ≡ ready_polls ts
ready_passes-events_of [] = refl
ready_passes-events_of (poll due io ∷ ts) = omega (arith, ready_passes-events_of ts)
ready_passes-events_of (fpga i g ∷ ts) = omega (
  arith,
  ready_passes-append (arrived (is_received i.irq i.frame) g) (events_of ts),
  ready_passes-arrived (is_received i.irq i.frame) g,
  ready_passes-events_of ts,
)
ready_passes-events_of (aging_1hz ∷ ts) = ready_passes-events_of ts
ready_passes-events_of (aging_10hz ∷ ts) = ready_passes-events_of ts
ready_passes-events_of (console t ∷ ts) = omega (
  arith,
  ready_passes-append (line_of t) (events_of ts),
  ready_passes-line_of t,
  ready_passes-events_of ts,
)

abbrev pub switch_of : {W B M : Type 0} → Option (Firmware W B M) → Option (Switch W B M)
switch_of none = none
switch_of (some f) = some f.switch

module _ {W B M : Type 0} (k : Constants) (mutex : CooperativeMutex M) (free : M)
    (printf : List ℕ → List ℕ → List ℕ) (w : World W) (d : Devices B) where
  few :
      (s : Sessions W) (devices : B) (ts : List Turn)
      → 96 ≤ ready_polls ts
      → round_left (started k free printf s devices).card ≤ ready_passes (events_of ts)
  unfolding new_port_state
  few s devices ts enough = omega (arith, ready_passes-events_of ts)

  -- From a reset on, if BSP_Init returns, all 24 ports of line card 0 come to be polled, whatever
  -- the other tasks do between: as soon as 96 turns of the polling task have found the transceiver
  -- ready, the task has been past the last port, and no line before that has blocked. The mutex is
  -- constructed unlocked, the names are terminated inside their arrays to begin with, and each line
  -- finds the transceiver ready at least three times while it waits.
  pub bsp_init-RoundEnds :
      (b : Board B M) (s : Sessions W) (m : Mgmt) (ts : List Turn)
      → IsMutex mutex
      → mutex.locked free ≡ false
      → AllOk s
      → All IsServed (events_of ts)
      → (bsp_init d k free printf b).0 ≡ true
      → 96 ≤ ready_polls ts
      → RoundEnds k mutex w d.hardware
          (events_of ts)
          (switch_of (powered s m (bsp_init d k free printf b).1))
  bsp_init-RoundEnds b s m ts law unlocked names served up enough =
      let devices = (bsp_init d k free printf b).1.devices in
      rw (bsp_init-powered k free printf d b s m up) (
        happen-RoundEnds k mutex w d.hardware law (events_of ts) (started k free printf s devices)
          served (started-SwitchOk k mutex w d.hardware law free printf s devices unlocked names)
          (few s devices ts enough))
