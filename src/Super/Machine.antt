-- ===== src/Super/Machine.antt =====
-- The supervisor's three tasks together (firmware/linecard/super/main): LEDTask, ButtonTask and the
-- power controller, whose hooks write LEDs that LEDTask writes too.
use latentred.Prelude.{
  ◌⊎◌, ◌∙◌, ◌≡◌, refl, Bool, true, false, List, [], ◌∷◌, ◌++◌, arith, Bool-cases, inl, inr,
  if◌then◌else◌,
}
use latentred.Super.{
  Controller, PowerCall, ButtonReads, button_iteration, led_iteration, Panel, Hook, on_hook,
  on_hooks, init_gpios,
}

-- PowerResetSupervisor with its own task, and the hooks that each of its operations calls.
pub record PowerTask (S : Type 0) : Type 0 where
  pub ctl : Controller S
  pub iterate : S → S
  pub hooks_of_iterate : S → List Hook
  pub hooks_of_call : PowerCall → S → List Hook

pub record Machine (S : Type 0) : Type 0 where
  pub blinking : Bool
  pub button_down : Bool
  pub power : S
  pub panel : Panel

-- one pass of one of the tasks
pub data Pass : Type 0 where
  led_pass : (due : Bool) → Pass
  button_pass : ButtonReads → Pass
  power_pass : Pass

-- the fault LED tells whether the machine has halted, and then is the only one
pub record IsSafe (p : Panel) : Type 0 where
  pub shown : p.fault ≡ p.halted
  pub others_off : p.halted ≡ true → (p.sysok ≡ false) × (p.pgood ≡ false)

on_hook-IsSafe : (h : Hook) (p : Panel) → IsSafe p → IsSafe (on_hook h p)
unfolding on_hook
on_hook-IsSafe h p ok = ground (arith, ok.shown, ok.others_off)

pub on_hooks-IsSafe : (hs : List Hook) (p : Panel) → IsSafe p → IsSafe (on_hooks hs p)
unfolding on_hooks
on_hooks-IsSafe [] p ok = ok
on_hooks-IsSafe (h ∷ hs) p ok = on_hooks-IsSafe hs (on_hook h p) (on_hook-IsSafe h p ok)

pub init_gpios-IsSafe : (p : Panel) → p.halted ≡ false → IsSafe (init_gpios p)
unfolding init_gpios
init_gpios-IsSafe p running = ground arith

module _ {S : Type 0} (t : PowerTask S) where
  abbrev hooks_of : List PowerCall → S → List Hook
  hooks_of [] s = []
  hooks_of (call ∷ calls) s = t.hooks_of_call call s ++ hooks_of calls s

  -- Where a hook never returns, nothing that stands behind it in the pass is seen by anyone.
  unfoldable pub act : Pass → Machine S → Machine S
  act (led_pass due) x =
      let b =
        led_iteration
          (record {
            due = due;
            power = t.ctl.is_power_on x.power;
            resets_done = t.ctl.is_resets_done x.power;
          })
          (record { blinking = x.blinking; sysok = x.panel.sysok }) in
      record x { blinking = b.blinking; panel = record (x.panel) { sysok = b.sysok } }
  act (button_pass r) x =
      let (down, s, calls) = button_iteration t.ctl r x.button_down x.power in
      record x { button_down = down; power = s; panel = on_hooks (hooks_of calls x.power) x.panel }
  act power_pass x = record x {
    power = t.iterate x.power;
    panel = on_hooks (t.hooks_of_iterate x.power) x.panel;
  }

  -- A machine that has halted stays in the loop of `OnFault`.
  unfoldable pub run_passes : List Pass → Machine S → Machine S
  run_passes [] x = x
  run_passes (p ∷ ps) x = let y = run_passes ps (act p x) in if x.panel.halted then x else y

  act-IsSafe :
      (p : Pass) (x : Machine S) → x.panel.halted ≡ false → IsSafe x.panel → IsSafe (act p x).panel
  unfolding act
  act-IsSafe (led_pass due) x running ok = record { shown = ok.shown; others_off = λ halted. cc }
  act-IsSafe (button_pass r) x running ok = on_hooks-IsSafe _ x.panel ok
  act-IsSafe power_pass x running ok = on_hooks-IsSafe _ x.panel ok

  run_passes-IsSafe :
      (ps : List Pass) (x : Machine S) → IsSafe x.panel → IsSafe (run_passes ps x).panel
  unfolding run_passes
  run_passes-IsSafe [] x ok = ok
  run_passes-IsSafe (p ∷ ps) x ok = elim (Bool-cases x.panel.halted) [
    | inl halted ↦ simp halted ok
    | inr running ↦ simp running (run_passes-IsSafe ps (act p x) (act-IsSafe p x running ok))
  ]

  run_passes-halted : (ps : List Pass) (x : Machine S) → x.panel.halted ≡ true → run_passes ps x ≡ x
  unfolding run_passes
  run_passes-halted [] x halted = refl
  run_passes-halted (p ∷ ps) x halted = rw halted refl

  -- What a safe panel comes to after any passes: it stays safe, and a fault is final.
  abbrev pub FaultIsFinal : List Pass → List Pass → Machine S → Type 0
  FaultIsFinal ps later x =
      let y = run_passes ps x in
      (y.panel.fault ≡ y.panel.halted)
      × ((y.panel.fault ≡ false)
          ⊎ ((y.panel.sysok ≡ false) × (y.panel.pgood ≡ false) × (run_passes later y ≡ y)))

  pub run_passes-FaultIsFinal :
      (ps later : List Pass) (x : Machine S) → IsSafe x.panel → FaultIsFinal ps later x
  run_passes-FaultIsFinal ps later x safe =
      let ok = run_passes-IsSafe ps x safe in
      (
        ok.shown,
        elim (Bool-cases (run_passes ps x).panel.halted) [
          | inl halted ↦
              let off = ok.others_off halted in
              inr (off.0, off.1, run_passes-halted later (run_passes ps x) halted)
          | inr running ↦ inl (ok.shown ∙ running)
        ],
      )
