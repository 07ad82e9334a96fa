-- ===== src/Super.antt =====
-- firmware/linecard/super/main: the supervisor of a line card, with its button, its LEDs and the hooks
-- that its power controller calls.
pub mod Controls
pub mod Isr
pub mod Traffic
mod Examples
pub mod Startup
pub mod Wiring
pub mod Machine
pub mod Powered
use latentred.Prelude.{ℕ, ◌+◌, Bool, true, false, not, ◌&&◌, List, [], ◌∷◌, ◌++◌, if◌then◌else◌}

-- PowerResetSupervisor of the supervisor library; `S` is its state.
pub record Controller (S : Type 0) : Type 0 where
  pub is_power_on : S → Bool
  pub is_resets_done : S → Bool
  pub power_on : S → S
  pub power_off : S → S

pub data PowerCall : Type 0 where
  called_on called_off : PowerCall

-- ButtonTask.h: what one pass reads, the pin at each of its two uses.
pub record ButtonReads : Type 0 where
  pub first : Bool
  pub last : Bool

module _ {S : Type 0} (ctl : Controller S) where
  -- ButtonTask::Iteration: the new `m_buttonDown`, the controller and the call that was made; the log
  -- line that comes before each call is left out
  unfoldable pub button_iteration : ButtonReads → Bool → S → Bool × S × List PowerCall
  button_iteration r down s =
      let (s', calls) : S × List PowerCall =
        if r.first && not down
        then (if ctl.is_power_on s
            then (ctl.power_off s, called_off ∷ [])
            else (ctl.power_on s, called_on ∷ []))
        else (s, []) in
      (r.last, s', calls)

  unfoldable pub button_run : List ButtonReads → Bool → S → Bool × S × List PowerCall
  button_run [] down s = (down, s, [])
  button_run (r ∷ rs) down s =
      let (down1, s1, now) = button_iteration r down s in
      let (down2, s2, later) = button_run rs down1 s1 in (down2, s2, now ++ later)

-- LEDTask.h: its own flag, and the LED that it drives
pub record Blinker : Type 0 where
  pub blinking : Bool
  pub sysok : Bool

unfoldable pub led_on_timer : Blinker → Blinker
led_on_timer b = if b.blinking then record b { sysok = not b.sysok } else b

-- what one pass reads: whether the timer is due, `IsPowerOn` and `IsResetsDone`
pub record LedReads : Type 0 where
  pub due : Bool
  pub power : Bool
  pub resets_done : Bool

unfoldable pub led_iteration : LedReads → Blinker → Blinker
unfolding led_on_timer
led_iteration r b =
    let b1 = if r.due then led_on_timer b else b in
    if r.power
    then (if r.resets_done
        then record { blinking = false; sysok = true }
        else record b1 { blinking = true })
    else record { blinking = false; sysok = false }

unfoldable pub led_run : List LedReads → Blinker → Blinker
led_run [] b = b
led_run (r ∷ rs) b = led_run rs (led_iteration r b)

-- supervisor.h: the LEDs of the panel, and whether the controller has stopped for good
pub record Panel : Type 0 where
  pub fault : Bool
  pub sysok : Bool
  pub pgood : Bool
  pub halted : Bool

-- the hooks that the controller calls
pub data Hook : Type 0 where
  power_on_hook power_off_hook fault_hook : Hook

-- `OnFault` ends in an endless loop, so nothing runs after it.
unfoldable pub on_hook : Hook → Panel → Panel
on_hook power_on_hook p = if p.halted then p else record p { pgood = true }
on_hook power_off_hook p = if p.halted then p else record p { pgood = false }
on_hook fault_hook p =
    if p.halted then p else record { fault = true; sysok = false; pgood = false; halted = true }

unfoldable pub on_hooks : List Hook → Panel → Panel
on_hooks [] p = p
on_hooks (h ∷ hs) p = on_hooks hs (on_hook h p)

-- hwinit.cpp, InitGPIOs: what it writes to the LEDs
unfoldable pub init_gpios : Panel → Panel
init_gpios p = record p { fault = false; sysok = false }
