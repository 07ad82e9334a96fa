-- ===== src/PhyPoll/Ending.antt =====
-- A polling round ends, whatever the transceiver's answers are and however long it is busy in between.
use latentred.Prelude.{
  ℕ, ◌+◌, ◌-◌, ◌*◌, ◌≤◌, ◌<◌, ◌≡◌, ◌⊎◌, inl, inr, false, List, [], ◌∷◌, arith, if◌then◌else◌, ◌==◌,
  ℕ_discrete,
}
use latentred.Platform.{Constants, CooperativeMutex, IsMutex}
use latentred.Port.{
  PollState, poll_idle, poll_status, poll_ctrl, poll_ext_stat, LineCard, port_count,
}
use latentred.PhyPoll.{iteration}
use latentred.PhyPoll.Exclusion.{poll-IsExclusive}
use latentred.PhyPoll.Sharing.{IsExclusive}
use latentred.PhyPoll.Waiting.{Moment, ready_moments}

-- the passes that a poll in this state has behind it
abbrev steps_done : PollState → ℕ
steps_done poll_idle = 0
steps_done poll_status = 1
steps_done poll_ctrl = 2
steps_done poll_ext_stat = 3

-- the passes that the round still needs with a transceiver that is never busy
abbrev pub round_left : {M : Type 0} → LineCard M → ℕ
round_left c = 4 * (port_count - c.task.current_phy) - steps_done c.task.poll_state

module _ {M : Type 0} (k : Constants) (x : CooperativeMutex M) where
  -- The round is over now, or after one of the passes to come.
  abbrev pub Ends : List Moment → LineCard M → Type 0
  Ends [] c = c.task.current_phy ≡ port_count
  Ends (m ∷ ms) c = (c.task.current_phy ≡ port_count) ⊎ Ends ms (iteration k x m.due m.io c).0

  module _ (law : IsMutex x) where
    pub round_progress :
        (m : Moment) (c : LineCard M)
        → IsExclusive k x (record { card = c; cli_holds = false })
        → c.task.current_phy < port_count
        → round_left (iteration k x m.due m.io c).0 + (if m.io.status == 0 then 1 else 0)
          ≤ round_left c
    unfolding iteration
    round_progress m c h running = ground (arith, law.lock_free c.mutex)

    -- While the command line stays outside, a round ends: as soon as the passes in which the
    -- transceiver has its answer are as many as the round still needs, at most 96 of them, the task
    -- has been past the last PHY. The answers may be any, and busy passes and due timers may come
    -- between.
    pub round-Ends :
        (ms : List Moment) (c : LineCard M)
        → IsExclusive k x (record { card = c; cli_holds = false })
        → round_left c ≤ ready_moments ms
        → Ends ms c
    round-Ends [] c h enough = ground (arith, h.in_range, h.polling)
    round-Ends (m ∷ ms) c h enough = elim (ℕ_discrete c.task.current_phy port_count) [
      | yes over ↦ inl over
      | no running ↦ inr (
          round-Ends ms (iteration k x m.due m.io c).0
            (poll-IsExclusive k x law (record { card = c; cli_holds = false }) m.due m.io h)
            (omega (arith, round_progress m c h (omega (arith, h.in_range)))))
    ]
