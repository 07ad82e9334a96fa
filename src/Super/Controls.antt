-- ===== src/Super/Controls.antt =====
-- The button, the blinking LED and the panel.
use latentred.Prelude.{
  ℕ, zero, suc, ◌+◌, ◌≡◌, ◌⊎◌, ◌∙◌, ◌↔◌, refl, ap, Bool, true, false, not, ◌&&◌, List, [], ◌∷◌,
  ◌++◌, arith, All, length, length-append, if◌then◌else◌,
}
use latentred.Super.{
  Controller, called_on, called_off, ButtonReads, button_iteration, button_run, Blinker, LedReads,
  led_iteration, led_run, Panel, Hook, power_on_hook, power_off_hook, fault_hook, on_hook, on_hooks,
  init_gpios,
}

-- the presses among the levels that the button shows, from the level `down`
abbrev pub presses : Bool → List ButtonReads → ℕ
presses down [] = 0
presses down (r ∷ rs) = (if r.last && not down then 1 else 0) + presses r.last rs

abbrev pub IsSteady : ButtonReads → Type 0
IsSteady r = r.first ≡ r.last

module _ {S : Type 0} (ctl : Controller S) where
  button_iteration_steady :
      (r : ButtonReads) (down : Bool) (s : S)
      → IsSteady r
      → ((button_iteration ctl r down s).0 ≡ r.last)
        × (length (button_iteration ctl r down s).2 ≡ (if r.last && not down then 1 else 0))
  unfolding button_iteration
  button_iteration_steady r down s h = ground arith

  -- Over any passes in which the button keeps its level during each, power is switched exactly once
  -- for every press, however long the button is held.
  pub button_run-presses :
      (rs : List ButtonReads) (down : Bool) (s : S)
      → All IsSteady rs
      → length (button_run ctl rs down s).2 ≡ presses down rs
  unfolding button_run
  button_run-presses [] down s h = refl
  button_run-presses (r ∷ rs) down s h =
      let (down1, s1, now) = button_iteration ctl r down s in
      let step = button_iteration_steady r down s h.0 in
      length-append now (button_run ctl rs down1 s1).2
      ∙ ground (arith, step, button_run-presses rs down1 s1 h.1)

  -- A press switches off a controller that is on and switches on one that is off, and a pass without a
  -- press leaves it alone.
  pub button_iteration_toggles :
      (r : ButtonReads) (down : Bool) (s : S)
      → let (down', s', calls) = button_iteration ctl r down s in
        ((calls ≡ called_off ∷ [])
          ↔ ((r.first ≡ true) × (down ≡ false) × (ctl.is_power_on s ≡ true)))
        × ((calls ≡ called_on ∷ [])
            ↔ ((r.first ≡ true) × (down ≡ false) × (ctl.is_power_on s ≡ false)))
        × (calls ≡ [] → s' ≡ s)
        × (calls ≡ called_off ∷ [] → s' ≡ ctl.power_off s)
        × (calls ≡ called_on ∷ [] → s' ≡ ctl.power_on s)
  unfolding button_iteration
  button_iteration_toggles r down s = ground arith

-- the passes in which the timer is due
abbrev pub due_count : List LedReads → ℕ
due_count [] = 0
due_count (r ∷ rs) = let rest = due_count rs in if r.due then suc rest else rest

abbrev pub IsBooting : LedReads → Type 0
IsBooting r = (r.power ≡ true) × (r.resets_done ≡ false)

abbrev pub flip : ℕ → Bool → Bool
flip zero b = b
flip (suc n) b = flip n (not b)

led_iteration_booting :
    (r : LedReads) (b : Blinker)
    → b.blinking ≡ true
    → IsBooting r
    → ((led_iteration r b).blinking ≡ true)
      × ((led_iteration r b).sysok ≡ (if r.due then not b.sysok else b.sysok))
unfolding led_iteration
led_iteration_booting r b on boot = ground arith

flip-if :
    (due : Bool) (n : ℕ) (b : Bool)
    → flip n (if due then not b else b) ≡ flip (let m = n in if due then suc m else m) b
flip-if true n b = refl
flip-if false n b = refl

-- While the line card boots and the LED blinks, it changes at every tick of the timer and at no
-- other pass.
pub led_run_blinks :
    (rs : List LedReads) (b : Blinker)
    → b.blinking ≡ true
    → All IsBooting rs
    → ((led_run rs b).blinking ≡ true) × ((led_run rs b).sysok ≡ flip (due_count rs) b.sysok)
unfolding led_run
led_run_blinks [] b on boot = (on, refl)
led_run_blinks (r ∷ rs) b on boot =
    let now = led_iteration_booting r b on boot.0 in
    let later = led_run_blinks rs (led_iteration r b) now.0 boot.1 in
    (later.0, later.1 ∙ ap (flip (due_count rs)) now.1 ∙ flip-if r.due (due_count rs) b.sysok)

-- Once a pass has seen the power off, the LED is off; once it has seen power and all resets released,
-- the LED is on; in both states the timer no longer changes it.
pub led_iteration_steady :
    (r next : LedReads) (b : Blinker)
    → next.power ≡ r.power
    → next.resets_done ≡ r.resets_done
    → (r.power ≡ false) ⊎ (r.resets_done ≡ true)
    → ((led_iteration r b).sysok ≡ r.power)
      × (led_iteration next (led_iteration r b) ≡ led_iteration r b)
unfolding led_iteration
led_iteration_steady r next b p q h = ground arith

-- The panel after a fault: the fault LED alone.
abbrev pub faulted : Panel
faulted = record { fault = true; sysok = false; pgood = false; halted = true }

halted_stays : (hs : List Hook) (p : Panel) → p.halted ≡ true → on_hooks hs p ≡ p
unfolding on_hooks on_hook
halted_stays [] p h = refl
halted_stays (power_on_hook ∷ hs) p h = simp h (halted_stays hs p h)
halted_stays (power_off_hook ∷ hs) p h = simp h (halted_stays hs p h)
halted_stays (fault_hook ∷ hs) p h = simp h (halted_stays hs p h)

on_hook_faults : (p : Panel) → p.halted ≡ false → on_hook fault_hook p ≡ faulted
unfolding on_hook
on_hook_faults p h = ground arith

-- A controller that runs and then faults leaves the fault LED alone on the panel and halts, whatever
-- it called before and whatever it would call later.
pub on_hooks_fault :
    (before after : List Hook) (p : Panel)
    → p.halted ≡ false
    → on_hooks (before ++ fault_hook ∷ after) p ≡ faulted
unfolding on_hooks on_hook
on_hooks_fault [] after p h =
    ap (on_hooks after) (on_hook_faults p h) ∙ halted_stays after faulted refl
on_hooks_fault (power_on_hook ∷ before) after p h =
    on_hooks_fault before after (on_hook power_on_hook p) (ground arith)
on_hooks_fault (power_off_hook ∷ before) after p h =
    on_hooks_fault before after (on_hook power_off_hook p) (ground arith)
on_hooks_fault (fault_hook ∷ before) after p h =
    ap (on_hooks (before ++ fault_hook ∷ after)) (on_hook_faults p h)
    ∙ halted_stays (before ++ fault_hook ∷ after) faulted refl

-- The setup of the pins leaves the power-good LED as it finds it, lit or not; it switches off only
-- the other two.
pub init_gpios_leaves_pgood :
    (p : Panel)
    → ((init_gpios p).pgood ≡ p.pgood)
      × ((init_gpios p).fault ≡ false)
      × ((init_gpios p).sysok ≡ false)
unfolding init_gpios
init_gpios_leaves_pgood p = (refl, refl, refl)
