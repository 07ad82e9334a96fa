-- ===== src/PhyPoll/Unhindered.antt =====
-- The loop in which the command line waits for the MDIO mutex (PrintLineCardInfo of
-- LatentRedCLISessionContext.cpp) never sets the polling round back.
use latentred.Prelude.{ℕ, ◌≤◌, false, List, [], ◌∷◌, Option, none, some, arith, inl, inr}
use latentred.Platform.{Constants, CooperativeMutex, IsMutex}
use latentred.Port.{LineCard}
use latentred.PhyPoll.{Effect, iteration}
use latentred.PhyPoll.Exclusion.{poll-IsExclusive}
use latentred.PhyPoll.Sharing.{IsExclusive}
use latentred.PhyPoll.Waiting.{Moment, wait_lock, prepend, idle_cases, refused, granted}
use latentred.PhyPoll.Ending.{round_left, round_progress}

module _ {M : Type 0} (k : Constants) (x : CooperativeMutex M) where
  -- If the loop ends, the round needs at most `n` more passes.
  abbrev pub IsWithin : ℕ → Option (LineCard M × List Effect) → Type 0
  IsWithin n none = Unit
  IsWithin n (some (c, es)) = round_left c ≤ n

  IsWithin-prepend :
      (n m : ℕ) (es : List Effect) (r : Option (LineCard M × List Effect))
      → m ≤ n
      → IsWithin m r
      → IsWithin n (prepend es r)
  IsWithin-prepend n m es none low h = tt
  IsWithin-prepend n m es (some (c, fs)) low h = omega (arith, h)

  module _ (law : IsMutex x) where
    pub wait_lock-IsWithin :
        (ms : List Moment) (c : LineCard M)
        → IsExclusive k x (record { card = c; cli_holds = false })
        → IsWithin (round_left c) (wait_lock k x ms c)
    unfolding wait_lock
    wait_lock-IsWithin [] c h = elim (idle_cases c.task.poll_state) [
      | inl idle ↦ ground (arith, granted k x law c h idle)
      | inr active ↦ rw (refused k x law c h active) tt
    ]
    wait_lock-IsWithin (m ∷ ms) c h = elim (idle_cases c.task.poll_state) [
      | inl idle ↦ ground (arith, granted k x law c h idle)
      | inr active ↦
          let c' = (iteration k x m.due m.io c).0 in
          rw (refused k x law c h active) (
            IsWithin-prepend (round_left c) (round_left c') (iteration k x m.due m.io c).1
              (wait_lock k x ms c')
              (omega (arith, round_progress k x law m c h (h.polling active).0))
              (wait_lock-IsWithin ms c'
                (poll-IsExclusive k x law (record { card = c; cli_holds = false }) m.due m.io h)))
    ]
