-- ===== src/Switch/Rounds.antt =====
-- Command lines never keep the polling round from its end.
use latentred.Prelude.{
  ℕ, ◌+◌, ◌≤◌, ◌<◌, ◌≡◌, ◌⊎◌, inl, inr, ◌&&◌, List, [], ◌∷◌, Option, none, some, arith, All,
  Bool-cases, if◌then◌else◌, ◌==◌, ℕ_discrete,
}
use latentred.Platform.{Constants, CooperativeMutex, IsMutex}
use latentred.Port.{LineCard, port_count}
use latentred.PhyPoll.{Effect}
use latentred.PhyPoll.Sharing.{cli_unlock}
use latentred.PhyPoll.Waiting.{wait_lock}
use latentred.PhyPoll.Ending.{round_left, round_progress}
use latentred.PhyPoll.Unhindered.{IsWithin, wait_lock-IsWithin}
use latentred.Sensors.{Hardware, with_lock, print_line_card_info}
use latentred.Cli.Grammar.{Token}
use latentred.Cli.System.{World, Session}
use latentred.Switch.{Switch, Event, pass, line, shell, is_hardware, with_lines, happen}
use latentred.Switch.Runs.{IsServed, SwitchOk, Succeeds, happen-Succeeds}

-- whether the polling task finds its answer in this event; a line counts as none
abbrev pub ready : Event → ℕ
ready (pass due io) = if io.status == 0 then 1 else 0
ready (line ms m c) = 0
ready (shell c) = 0

abbrev pub ready_passes : List Event → ℕ
ready_passes [] = 0
ready_passes (e ∷ es) = ready e + ready_passes es

module _ {W B M : Type 0} (k : Constants) (mutex : CooperativeMutex M) (w : World W)
    (hw : Hardware B) where
  -- The round is over now, or after one of the events to come; none of them before blocks.
  abbrev pub RoundEnds : List Event → Option (Switch W B M) → Type 0
  RoundEnds es none = ⊥
  RoundEnds [] (some x) = x.card.task.current_phy ≡ port_count
  RoundEnds (e ∷ es) (some x) =
      (x.card.task.current_phy ≡ port_count) ⊎ RoundEnds es (happen k mutex w hw e x)

  -- `r` passes of what the round needed are done.
  abbrev IsNearer : ℕ → ℕ → Option (Switch W B M) → Type 0
  IsNearer n r none = Unit
  IsNearer n r (some x) = round_left x.card + r ≤ n

  with_lines-IsNearer :
      (n : ℕ) (m : ℕ → Token) (c : Session) (x : Switch W B M)
      (r : Option (LineCard M × List Effect))
      → IsWithin k mutex n r
      → IsNearer n 0 (with_lines k mutex w hw m c x (with_lock hw k mutex 0 x.bus r))
  unfolding cli_unlock
  with_lines-IsNearer n m c x none h = tt
  with_lines-IsNearer n m c x (some (card, es)) h = omega (arith, h)

  continue :
      (es : List Event) (n r : ℕ) (o : Option (Switch W B M))
      → ((y : Switch W B M)
          → SwitchOk k mutex y
          → round_left y.card ≤ ready_passes es
          → RoundEnds es (some y))
      → n ≤ r + ready_passes es
      → Succeeds k mutex o
      → IsNearer n r o
      → RoundEnds es o
  continue es n r none rest enough ok near = ok
  continue es n r (some y) rest enough ok near = rest y ok (omega (arith, near))

  module _ (law : IsMutex mutex) where
    happen-IsNearer :
        (e : Event) (x : Switch W B M)
        → SwitchOk k mutex x
        → x.card.task.current_phy < port_count
        → IsNearer (round_left x.card) (ready e) (happen k mutex w hw e x)
    unfolding happen print_line_card_info
    happen-IsNearer (pass due io) x h running =
        round_progress k mutex law (record { due = due; io = io }) x.card h.card_ok running
    happen-IsNearer (shell c) x h running = omega arith
    happen-IsNearer (line ms m c) x h running =
        elim (Bool-cases (c.root_mode && is_hardware (m 0).command_id (m 1).command_id)) [
          | inl yes_show ↦ rw yes_show (
              with_lines-IsNearer (round_left x.card) m c x (wait_lock k mutex ms x.card)
                (wait_lock-IsWithin k mutex law ms x.card h.card_ok))
          | inr other ↦ rw other (omega arith)
        ]

    -- Whatever lines the sessions run in between, whatever shells are opened, and however often
    -- "show hardware" takes the MDIO mutex, a polling round ends: as soon as the passes in which
    -- the transceiver has its answer are as many as the round still needs, at most 96 of them, the
    -- task has been past the last PHY, and no line before that has blocked. The switch is in a
    -- state that its parts keep, and each line finds the transceiver ready at least three times
    -- while it waits.
    pub happen-RoundEnds :
        (es : List Event) (x : Switch W B M)
        → All IsServed es
        → SwitchOk k mutex x
        → round_left x.card ≤ ready_passes es
        → RoundEnds es (some x)
    happen-RoundEnds [] x served h enough = ground (arith, h.card_ok.in_range, h.card_ok.polling)
    happen-RoundEnds (e ∷ es) x served h enough =
        elim (ℕ_discrete x.card.task.current_phy port_count) [
          | yes over ↦ inl over
          | no running ↦ inr (
              continue es (round_left x.card) (ready e) (happen k mutex w hw e x)
                (λ y ok few. happen-RoundEnds es y served.1 ok few) enough
                (happen-Succeeds k mutex w hw law e x served.0 h)
                (happen-IsNearer e x h (omega (arith, h.card_ok.in_range))))
        ]
