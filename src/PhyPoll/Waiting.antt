-- ===== src/PhyPoll/Waiting.antt =====
-- LatentRedCLISessionContext.cpp, PrintLineCardInfo: the loop that drives the polling task until the
-- command line gets the MDIO mutex.
use latentred.Prelude.{
  ℕ, ◌+◌, ◌≤◌, ◌≡◌, ◌≢◌, ◌⊎◌, refl, Bool, true, false, List, [], ◌∷◌, ◌++◌, arith, inl, inr, Option,
  none, some, if◌then◌else◌, ◌==◌,
}
use latentred.Platform.{Constants, CooperativeMutex, IsMutex, Mdio}
use latentred.Port.{
  PollState, poll_idle, poll_status, poll_ctrl, poll_ext_stat, LineCard, port_count,
}
use latentred.PhyPoll.{Effect, iteration}
use latentred.PhyPoll.Exclusion.{poll-IsExclusive}
use latentred.PhyPoll.Sharing.{cli_try_lock, IsExclusive}

-- What one pass meets: whether the timer is due, and the transceiver's registers.
pub record Moment : Type 0 where
  pub due : Bool
  pub io : Mdio

-- the passes still needed until the task gives the mutex back, if the transceiver is ready in each
abbrev pub passes_left : PollState → ℕ
passes_left poll_idle = 0
passes_left poll_status = 3
passes_left poll_ctrl = 2
passes_left poll_ext_stat = 1

-- the moments at which the transceiver has its answer
abbrev pub ready_moments : List Moment → ℕ
ready_moments [] = 0
ready_moments (m ∷ ms) = (if m.io.status == 0 then 1 else 0) + ready_moments ms

-- what the loop wrote before, in front of what it writes later
abbrev pub prepend :
    {A : Type 0} → List Effect → Option (A × List Effect) → Option (A × List Effect)
prepend es none = none
prepend es (some (c, fs)) = some (c, es ++ fs)

pub idle_cases : (s : PollState) → (s ≡ poll_idle) ⊎ (s ≢ poll_idle)
idle_cases poll_idle = inl refl
idle_cases poll_status = inr (λ e. cc)
idle_cases poll_ctrl = inr (λ e. cc)
idle_cases poll_ext_stat = inr (λ e. cc)

module _ {M : Type 0} (k : Constants) (x : CooperativeMutex M) where
  -- `while(!TryLock()) Iteration();` over the moments to come; `none` if they end before the lock.
  unfoldable pub wait_lock : List Moment → LineCard M → Option (LineCard M × List Effect)
  wait_lock [] c = let (got, c') = cli_try_lock k x c in if got then some (c', []) else none
  wait_lock (m ∷ ms) c =
      let (got, c') = cli_try_lock k x c in
      let (c'', es) = iteration k x m.due m.io c' in
      let rest = prepend es (wait_lock ms c'') in if got then some (c', []) else rest

  -- The loop has ended, with the mutex locked and the task at rest, within the 24 ports.
  abbrev pub Acquired : Option (LineCard M × List Effect) → Type 0
  Acquired none = ⊥
  Acquired (some (c, es)) =
      (x.locked c.mutex ≡ true)
      × (c.task.poll_state ≡ poll_idle)
      × (c.task.current_phy ≤ port_count)

  Acquired-prepend :
      (es : List Effect) (r : Option (LineCard M × List Effect))
      → Acquired r
      → Acquired (prepend es r)
  Acquired-prepend es none h = h
  Acquired-prepend es (some (c, fs)) h = h

  module _ (law : IsMutex x) where
    progress :
        (m : Moment) (c : LineCard M)
        → IsExclusive k x (record { card = c; cli_holds = false })
        → c.task.poll_state ≢ poll_idle
        → passes_left (iteration k x m.due m.io c).0.task.poll_state
            + (if m.io.status == 0 then 1 else 0)
          ≡ passes_left c.task.poll_state
    unfolding iteration
    progress m c h active = ground arith

    pub refused :
        (c : LineCard M)
        → IsExclusive k x (record { card = c; cli_holds = false })
        → c.task.poll_state ≢ poll_idle
        → cli_try_lock k x c ≡ (false, c)
    unfolding cli_try_lock
    refused c h active = ground (arith, law.lock_taken c.mutex)

    pub granted :
        (c : LineCard M)
        → IsExclusive k x (record { card = c; cli_holds = false })
        → c.task.poll_state ≡ poll_idle
        → ((cli_try_lock k x c).0 ≡ true)
          × (x.locked (cli_try_lock k x c).1.mutex ≡ true)
          × ((cli_try_lock k x c).1.task ≡ c.task)
    unfolding cli_try_lock
    granted c h idle = ground (arith, law.lock_free c.mutex)

    -- In a state that the two can share, with the command line outside, the loop ends with the mutex
    -- locked and the task at rest, as soon as the transceiver has answered the commands that the poll
    -- in progress still needs, at most three. Busy passes and due timers in between do no harm.
    pub wait_lock_ends :
        (ms : List Moment) (c : LineCard M)
        → IsExclusive k x (record { card = c; cli_holds = false })
        → passes_left c.task.poll_state ≤ ready_moments ms
        → Acquired (wait_lock ms c)
    unfolding wait_lock
    wait_lock_ends [] c h enough = ground (arith, granted c h)
    wait_lock_ends (m ∷ ms) c h enough = elim (idle_cases c.task.poll_state) [
      | inl idle ↦ ground (arith, granted c h idle)
      | inr active ↦
          let c'' = (iteration k x m.due m.io c).0 in
          rw (refused c h active) (
            Acquired-prepend (iteration k x m.due m.io c).1 (wait_lock ms c'') (
              wait_lock_ends ms c''
                (poll-IsExclusive k x law (record { card = c; cli_holds = false }) m.due m.io h)
                (omega (arith, progress m c h active))))
    ]
