-- ===== src/PhyPoll/Again.antt =====
-- Two rounds against the same registers: what changed is reported once.
use latentred.Prelude.{
  ℕ, zero, suc, ◌+◌, ◌≤◌, ◌<◌, ◌≡◌, ◌∙◌, refl, ap, Bool, true, false, List, [], ◌∷◌, ◌++◌,
  append-nil, arith, Bool-cases, inl, inr, if◌then◌else◌,
}
use latentred.Platform.{Constants, CooperativeMutex, IsMutex}
use latentred.Port.{InterfaceState}
use latentred.PhyPoll.{Effect, cmd_addr, on_timer, differs, link_of, command}
use latentred.PhyPoll.Round.{
  Bus, passes, RestsAt, polled, poll_effects, round_effects, polled_range, passes_round,
}

-- an effect other than a command to the transceiver
abbrev pub is_report : Effect → Bool
is_report (cmd_addr c) = false
is_report _ = true

abbrev pub reports : List Effect → List Effect
reports [] = []
reports (e ∷ es) = let rest = reports es in if is_report e then e ∷ rest else rest

reports-append : (xs ys : List Effect) → reports (xs ++ ys) ≡ reports xs ++ reports ys
reports-append [] ys = refl
reports-append (e ∷ xs) ys = elim (Bool-cases (is_report e)) [
  | inl r ↦ rw r (ap (λ (t : List Effect). e ∷ t) (reports-append xs ys))
  | inr r ↦ rw r (reports-append xs ys)
]

differs_self : (b : Bool) → differs b b ≡ false
differs_self true = refl
differs_self false = refl

module _ {M : Type 0} (k : Constants) (x : CooperativeMutex M) (regs : ℕ → ℕ) where
  -- the link states are those that the registers show
  abbrev UpToDate : ℕ → ℕ → (ℕ → InterfaceState) → Type 0
  UpToDate p n ports =
      (i : ℕ)
      → p ≤ i
      → i < p + n
      → (ports i).link_up ≡ link_of (regs (command k.reg_basic_status i))

  poll_effects_quiet :
      (p : ℕ) (port : InterfaceState)
      → port.link_up ≡ link_of (regs (command k.reg_basic_status p))
      → reports (poll_effects k x regs p port) ≡ []
  unfolding poll_effects polled
  poll_effects_quiet p port same = simp (same, differs_self) refl

  round_effects_quiet :
      (n p : ℕ) (ports : ℕ → InterfaceState)
      → UpToDate p n ports
      → reports (round_effects k x regs p n ports) ≡ []
  unfolding round_effects
  round_effects_quiet zero p ports same = refl
  round_effects_quiet (suc n) p ports same =
      reports-append (poll_effects k x regs p (ports p)) (round_effects k x regs (suc p) n ports)
      ∙ rw
          (
            poll_effects_quiet p (ports p) (same p (omega arith) (omega arith)),
            round_effects_quiet n (suc p) ports (λ i low high. same i (omega arith) (omega arith)),
          )
          refl

  -- a round from the first PHY, and the restart by the timer
  abbrev pub round : Bus M → Bus M
  round s = passes k x regs 96 s

  abbrev pub restart : Bus M → Bus M
  restart s = record s { card = on_timer s.card }

  module _ (law : IsMutex x) where
    restart-RestsAt : (s : Bus M) → RestsAt k x regs 24 s.card → RestsAt k x regs 0 (restart s).card
    unfolding on_timer
    restart-RestsAt s r = ground (arith, r.index, r.idle, r.free)

    restart_ports : (s : Bus M) → (restart s).card.ports ≡ s.card.ports
    unfolding on_timer
    restart_ports s = ground arith

    polled_link :
        (ports : ℕ → InterfaceState) (i : ℕ)
        → i < 24
        → (polled_range k x regs 0 24 ports i).link_up
          ≡ link_of (regs (command k.reg_basic_status i))
    unfolding polled
    polled_link ports i h = ground arith

    fresh :
        (s t : Bus M)
        → ((i : ℕ) → t.card.ports i ≡ polled_range k x regs 0 24 s.card.ports i)
        → UpToDate 0 24 (restart t).card.ports
    fresh s t ports i low high =
        ap (λ (q : ℕ → InterfaceState). (q i).link_up) (restart_ports t)
        ∙ ap (λ (q : InterfaceState). q.link_up) (ports i)
        ∙ polled_link s.card.ports i (omega arith)

    -- What changed is reported in one round and no other: a round, a restart by the timer and a
    -- second round against the same registers report, by log lines and LED updates, exactly what
    -- the first round alone reports, which is what was written before and what each port's change
    -- calls for. The first round starts with the task at rest at the first PHY and the mutex free.
    pub second_round_quiet :
        (s : Bus M)
        → RestsAt k x regs 0 s.card
        → let first = round s in
          (reports (round (restart first)).written ≡ reports first.written)
          × (reports first.written
              ≡ reports s.written ++ reports (round_effects k x regs 0 24 s.card.ports))
    second_round_quiet s r =
        let first = round s in
        let one = passes_round k x regs law 24 0 s (omega arith) r in
        let two =
          passes_round k x regs law 24 0 (restart first) (omega arith)
            (restart-RestsAt first one.0) in
        (
          ap reports two.2
              ∙ reports-append first.written _
              ∙ rw (round_effects_quiet 24 0 (restart first).card.ports (fresh s first one.1))
                  (append-nil (reports first.written)),
          ap reports one.2 ∙ reports-append s.written _,
        )
