-- ===== src/PhyPoll/Examples.antt =====
-- The theorems of the polling task on concrete line cards.
use latentred.Prelude.{
  All, List, length, ℕ, ◌≤◌, ◌≡◌, refl, Bool, true, false, [], ◌∷◌, ◌++◌, arith,
}
use latentred.Platform.{Mdio, flag_mutex, flag_mutex-IsMutex}
use latentred.Port.{LineCard, PollState, poll_idle, poll_status, poll_ext_stat}
use latentred.PhyPoll.{iteration, poll_phys}
use latentred.PhyPoll.Chips.{Reaches, poll_phys-Reaches}
use latentred.PhyPoll.Sharing.{Shared, poll, Reach, here, next, IsExclusive}
use latentred.PhyPoll.Exclusion.{Reach-IsExclusive}
use latentred.PhyPoll.Round.{Bus, passes, RestsAt, polled_range, round_effects, passes_round}
use latentred.PhyPoll.Delay.{Reply, answered, busy, answers, passes_with, busy_delays}
use latentred.PhyPoll.Again.{reports, round, restart, second_round_quiet}
use latentred.PhyPoll.Waiting.{Moment, wait_lock, Acquired, wait_lock_ends}
use latentred.Samples.{constants, port}

-- a line card whose task is at PHY `phy`
abbrev card_at : ℕ → PollState → Bool → Bool → LineCard Bool
card_at phy state locked changed = record {
  ports = λ i. port;
  mutex = locked;
  has_mdio = true;
  task = record {
    card_index = 0;
    current_phy = phy;
    poll_state = state;
    link_state_changed = changed;
  };
}

abbrev answer : ℕ → Mdio
answer v = record { status = 0; value = v }

abbrev rest : Shared Bool
rest = record { card = card_at 5 poll_idle false false; cli_holds = false }

rest-IsExclusive : IsExclusive constants flag_mutex rest
rest-IsExclusive = record {
  in_range = omega arith;
  polling = λ active. absurd (active refl);
  resting = λ idle. refl;
}

-- The task starts a poll, the command line fails to get the mutex, and the task goes on.
abbrev started : Shared Bool
started = record {
  card = (iteration constants flag_mutex false (answer 0) rest.card).0;
  cli_holds = false;
}

polling-Reach : Reach constants flag_mutex rest started
polling-Reach = next here (poll false (answer 0))

Reach-IsExclusive_example : IsExclusive constants flag_mutex started
Reach-IsExclusive_example =
    Reach-IsExclusive constants flag_mutex flag_mutex-IsMutex rest-IsExclusive polling-Reach

-- Every PHY answers that its link is up, with the same word for each register.
abbrev registers : ℕ → ℕ
registers word = 0x34

abbrev bus : Bus Bool
bus = record { card = card_at 0 poll_idle false false; last = 0; written = [] }

passes_round_example :
    RestsAt constants flag_mutex registers 24 (passes constants flag_mutex registers 96 bus).card
    × ((i : ℕ)
        → (passes constants flag_mutex registers 96 bus).card.ports i
          ≡ polled_range constants flag_mutex registers 0 24 bus.card.ports i)
    × ((passes constants flag_mutex registers 96 bus).written
        ≡ [] ++ round_effects constants flag_mutex registers 0 24 bus.card.ports)
passes_round_example =
    passes_round constants flag_mutex registers flag_mutex-IsMutex 24 0 bus (omega arith)
      (record { index = refl; idle = refl; free = refl })

abbrev ready : Moment
ready = record { due = false; io = answer 4 }

abbrev stalled : Moment
stalled = record { due = true; io = record { status = 1; value = 0 } }

abbrev in_poll : LineCard Bool
in_poll = card_at 5 poll_status true false

in_poll-IsExclusive :
    IsExclusive constants flag_mutex (record { card = in_poll; cli_holds = false })
in_poll-IsExclusive = record {
  in_range = omega arith;
  polling = λ active. (omega arith, refl, refl);
  resting = λ idle. cc;
}

wait_lock_ends_example :
    Acquired constants flag_mutex
      (wait_lock constants flag_mutex (ready ∷ stalled ∷ ready ∷ ready ∷ []) in_poll)
wait_lock_ends_example =
    wait_lock_ends constants flag_mutex flag_mutex-IsMutex (ready ∷ stalled ∷ ready ∷ ready ∷ [])
      in_poll in_poll-IsExclusive (omega arith)

-- The last PHY is being polled, and three answers are due.
abbrev last_phy : LineCard Bool
last_phy = card_at 23 poll_status true false

last_phy-IsExclusive :
    IsExclusive constants flag_mutex (record { card = last_phy; cli_holds = false })
last_phy-IsExclusive = record {
  in_range = omega arith;
  polling = λ active. (omega arith, refl, refl);
  resting = λ idle. cc;
}

-- An answer, two passes in which the transceiver is busy, and an answer.
abbrev replies : List Reply
replies = answered ∷ busy 0 7 ∷ busy 4 9 ∷ answered ∷ []

busy_delays_example :
    (n : ℕ) × (answers replies ≤ n)
    × (n ≤ length replies)
    × (passes_with constants flag_mutex registers replies bus
        ≡ passes constants flag_mutex registers n bus)
busy_delays_example = busy_delays constants flag_mutex registers replies bus

second_round_quiet_example :
    let first = round constants flag_mutex registers bus in
    (reports
        (round constants flag_mutex registers
          (restart constants flag_mutex registers first)).written
      ≡ reports first.written)
    × (reports first.written
        ≡ reports [] ++ reports (round_effects constants flag_mutex registers 0 24 bus.card.ports))
second_round_quiet_example =
    second_round_quiet constants flag_mutex registers flag_mutex-IsMutex bus
      (record { index = refl; idle = refl; free = refl })

poll_phys-Reaches_example :
    All
      (Reaches 13)
      (poll_phys constants flag_mutex (answer 4) (card_at 13 poll_ext_stat true true)).1
poll_phys-Reaches_example =
    poll_phys-Reaches constants flag_mutex (answer 4) (card_at 13 poll_ext_stat true true)
