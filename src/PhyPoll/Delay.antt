-- ===== src/PhyPoll/Delay.antt =====
-- A transceiver that is busy in some passes only delays the polling.
use latentred.Prelude.{
  ℕ, suc, ◌≤◌, ◌≡◌, ◌≢◌, refl, append-nil, inl, inr, List, [], ◌∷◌, ◌++◌, arith, length,
}
use latentred.Platform.{Constants, CooperativeMutex}
use latentred.Port.{poll_idle}
use latentred.PhyPoll.{poll_phys}
use latentred.PhyPoll.Frame.{poll_phys_busy}
use latentred.PhyPoll.Round.{Bus, pass, passes, last_command}
use latentred.PhyPoll.Waiting.{idle_cases}

-- What one pass finds: the answer to the last command, or a status register that is not 0 with
-- whatever the data register holds then.
pub data Reply : Type 0 where
  answered : Reply
  busy : (more value : ℕ) → Reply

abbrev pub answers : List Reply → ℕ
answers [] = 0
answers (answered ∷ rs) = suc (answers rs)
answers (busy more value ∷ rs) = answers rs

module _ {M : Type 0} (k : Constants) (x : CooperativeMutex M) (regs : ℕ → ℕ) where
  unfoldable pub pass_with : Reply → Bus M → Bus M
  unfolding pass
  pass_with answered s = pass k x regs s
  pass_with (busy more value) s =
      let (card, es) = poll_phys k x (record { status = suc more; value = value }) s.card in
      record { card = card; last = last_command s.last es; written = s.written ++ es }

  unfoldable pub passes_with : List Reply → Bus M → Bus M
  unfolding pass_with
  passes_with [] s = s
  passes_with (r ∷ rs) s = passes_with rs (pass_with r s)

  -- while a poll is in progress, nothing happens
  busy_waits :
      (more value : ℕ) (s : Bus M)
      → s.card.task.poll_state ≢ poll_idle
      → pass_with (busy more value) s ≡ s
  unfolding pass_with
  busy_waits more value s active =
      rw
        (poll_phys_busy k x (record { status = suc more; value = value }) s.card active
          (omega arith))
        (rw append-nil refl)

  -- a poll starts whatever the transceiver says
  busy_starts :
      (more value : ℕ) (s : Bus M)
      → s.card.task.poll_state ≡ poll_idle
      → pass_with (busy more value) s ≡ pass k x regs s
  unfolding pass_with pass poll_phys
  busy_starts more value s idle = ground arith

  -- Passes in which the transceiver is busy do no harm: a run with some of them ends in the very
  -- state, bus and writes included, that a run of some number of passes with answers only ends in;
  -- that number is at least that of the passes with an answer, and at most that of all passes.
  pub busy_delays :
      (rs : List Reply) (s : Bus M)
      → (n : ℕ) × (answers rs ≤ n) × (n ≤ length rs) × (passes_with rs s ≡ passes k x regs n s)
  unfolding passes_with passes
  busy_delays [] s = (0, omega arith, omega arith, refl)
  busy_delays (answered ∷ rs) s =
      let (n, low, high, e) = busy_delays rs (pass k x regs s) in
      (suc n, omega (arith, low), omega (arith, high), e)
  busy_delays (busy more value ∷ rs) s = elim (idle_cases s.card.task.poll_state) [
    | inl idle ↦
        let (n, low, high, e) = busy_delays rs (pass k x regs s) in
        (suc n, omega (arith, low), omega (arith, high), rw (busy_starts more value s idle) e)
    | inr active ↦
        let (n, low, high, e) = busy_delays rs s in
        (n, low, omega (arith, high), rw (busy_waits more value s active) e)
  ]
