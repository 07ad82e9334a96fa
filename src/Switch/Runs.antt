-- ===== src/Switch/Runs.antt =====
-- No order of passes, command lines and opened shells breaks the switch or blocks it.
use latentred.Prelude.{
  ℕ, ◌≤◌, ◌≡◌, refl, false, ◌&&◌, List, [], ◌∷◌, Option, none, some, arith, All, Bool-cases, inl,
  inr,
}
use latentred.Platform.{Constants, CooperativeMutex, IsMutex}
use latentred.Port.{LineCard, poll_idle, port_count}
use latentred.PhyPoll.Exclusion.{poll-IsExclusive}
use latentred.PhyPoll.Sharing.{IsExclusive}
use latentred.PhyPoll.Waiting.{ready_moments, passes_left}
use latentred.Sensors.{Hardware, Line}
use latentred.Sensors.Access.{Finished, print_line_card_info_ends}
use latentred.Cli.Grammar.{Token}
use latentred.Cli.System.{World, Session, OnlyPrints}
use latentred.Cli.Sessions.{AllOk, context_of, execute_in, execute_in-AllOk, open_shell-AllOk}
use latentred.Switch.{
  Switch, Event, pass, line, shell, is_hardware, port_of, show_lines, with_lines, happen, and_then,
  happen_all,
}

-- A line finds the transceiver ready often enough to end the poll in progress.
abbrev pub IsServed : Event → Type 0
IsServed (pass due io) = Unit
IsServed (line ms m c) = 3 ≤ ready_moments ms
IsServed (shell c) = Unit

-- The sensor lines only print.
pub show_lines-OnlyPrints : {W : Type 0} (ls : List Line) → OnlyPrints (show_lines {W = W} ls)
show_lines-OnlyPrints ls = record {
  world_kept = λ s. refl;
  hostname_kept = λ s. refl;
  username_kept = λ s. refl;
  ip_kept = λ s. refl;
  reset_kept = λ s. refl;
}

module _ {W B M : Type 0} (k : Constants) (mutex : CooperativeMutex M) where
  -- Between the events: the MDIO mutex is taken exactly while a poll is in progress, and the names
  -- of all sessions are terminated inside their arrays.
  pub record SwitchOk (x : Switch W B M) : Type 0 where
    pub card_ok : IsExclusive k mutex (record { card = x.card; cli_holds = false })
    pub names_ok : AllOk x.sessions

  abbrev pub Succeeds : Option (Switch W B M) → Type 0
  Succeeds none = ⊥
  Succeeds (some x) = SwitchOk x

module _ {W B M : Type 0} (k : Constants) (mutex : CooperativeMutex M) (w : World W)
    (hw : Hardware B) where
  execute-AllOk :
      (ls : List Line) (m : ℕ → Token) (c : Session) (x : Switch W B M)
      → SwitchOk k mutex x
      → AllOk (execute_in w (port_of x) (show_lines ls) (context_of c) m c x.sessions)
  execute-AllOk ls m c x h =
      execute_in-AllOk w (port_of x) (show_lines ls) (show_lines-OnlyPrints ls) (context_of c) m c
        x.sessions h.names_ok

  released-IsExclusive :
      (c : LineCard M)
      → mutex.locked c.mutex ≡ false
      → c.task.poll_state ≡ poll_idle
      → c.task.current_phy ≤ port_count
      → IsExclusive k mutex (record { card = c; cli_holds = false })
  released-IsExclusive c free idle inside = record {
    in_range = inside;
    polling = λ active. absurd (active idle);
    resting = λ _. free;
  }

  with_lines-Succeeds :
      (m : ℕ → Token) (c : Session) (x : Switch W B M) (r : Option (List Line × LineCard M × B))
      → SwitchOk k mutex x
      → Finished hw k mutex 0 r
      → Succeeds k mutex (with_lines k mutex w hw m c x r)
  with_lines-Succeeds m c x none h done = done
  with_lines-Succeeds m c x (some (lines, card, bus)) h (titled, free, idle, inside) = record {
    card_ok = released-IsExclusive card free idle inside;
    names_ok = execute-AllOk lines m c x h;
  }

  pub passes_left-le : (c : LineCard M) → passes_left c.task.poll_state ≤ 3
  passes_left-le c = ground arith

  and_then-Succeeds :
      (f : Switch W B M → Option (Switch W B M))
      → ((y : Switch W B M) → SwitchOk k mutex y → Succeeds k mutex (f y))
      → (r : Option (Switch W B M)) → Succeeds k mutex r
      → Succeeds k mutex (and_then k mutex w hw f r)
  and_then-Succeeds f ok none h = h
  and_then-Succeeds f ok (some y) h = ok y h

  module _ (law : IsMutex mutex) where
    pub happen-Succeeds :
        (e : Event) (x : Switch W B M)
        → IsServed e
        → SwitchOk k mutex x
        → Succeeds k mutex (happen k mutex w hw e x)
    unfolding happen
    happen-Succeeds (pass due io) x served h = record {
      card_ok =
          poll-IsExclusive k mutex law (record { card = x.card; cli_holds = false }) due io
            h.card_ok;
      names_ok = h.names_ok;
    }
    happen-Succeeds (shell c) x served h = record {
      card_ok = h.card_ok;
      names_ok = open_shell-AllOk w (port_of x) (show_lines []) c x.sessions h.names_ok;
    }
    happen-Succeeds (line ms m c) x served h =
        elim (Bool-cases (c.root_mode && is_hardware (m 0).command_id (m 1).command_id)) [
          | inl yes_show ↦ rw yes_show (
              with_lines-Succeeds m c x _ h (
                print_line_card_info_ends hw k mutex law 0 ms x.card x.bus h.card_ok
                  (omega (arith, passes_left-le x.card))))
          | inr other ↦
              rw other (record { card_ok = h.card_ok; names_ok = execute-AllOk [] m c x h })
        ]

    -- From a switch in which the MDIO mutex is taken exactly while a poll is in progress, and the
    -- names of all sessions are terminated inside their arrays, whatever order passes of the
    -- polling task, lines of the sessions and newly opened shells come in, and whatever the
    -- transceiver, the sensors and the flash store answer: if each line finds the transceiver ready
    -- at least three times, no line waits for ever, and the switch stays such.
    happen_all-Succeeds :
        (es : List Event) (x : Switch W B M)
        → All IsServed es
        → SwitchOk k mutex x
        → Succeeds k mutex (happen_all k mutex w hw es x)
    unfolding happen_all
    happen_all-Succeeds [] x served h = h
    happen_all-Succeeds (e ∷ es) x served h =
        and_then-Succeeds (happen_all k mutex w hw es)
          (λ y ok. happen_all-Succeeds es y served.1 ok) (happen k mutex w hw e x)
          (happen-Succeeds e x served.0 h)
