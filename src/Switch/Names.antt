-- ===== src/Switch/Names.antt =====
-- The names that the sessions of the running switch show and save.
use latentred.Prelude.{
  ℕ, ◌≡◌, refl, ◌&&◌, List, [], ◌∷◌, Option, none, some, arith, All, Bool-cases, inl, inr,
}
use latentred.Platform.{Constants, CooperativeMutex, IsMutex}
use latentred.Port.{LineCard}
use latentred.Sensors.{Hardware, Line}
use latentred.Sensors.Access.{Finished, print_line_card_info_ends}
use latentred.Cli.Grammar.{Token, cmd_commit}
use latentred.Cli.System.{World, Session}
use latentred.Cli.Config.{on_commit}
use latentred.Cli.Store.{KeepsNames, IsStore, LeavesStrings}
use latentred.PhyPoll.Waiting.{Moment}
use latentred.Cli.Sessions.{context_of, in_session, execute_in}
use latentred.Cli.Shared.{Views, line_in, shell_in, views, views-open_shell, views-execute_in}
use latentred.Switch.{
  Switch, Event, pass, line, shell, is_hardware, port_of, show_lines, with_lines, happen, and_then,
  happen_all,
}
use latentred.Switch.Runs.{
  IsServed, SwitchOk, Succeeds, happen-Succeeds, show_lines-OnlyPrints, passes_left-le,
}

-- What an event means for the names: a line what its command means, an opened shell that its session
-- starts with the saved host name, and a pass of the polling task nothing.
abbrev pub name_step : Event → Views → Views
name_step (pass due io) v = v
name_step (line ms m c) v = line_in c m v
name_step (shell c) v = shell_in c v

unfoldable pub name_steps : List Event → Views → Views
name_steps [] v = v
name_steps (e ∷ es) v = name_steps es (name_step e v)

module _ {W B M : Type 0} (k : Constants) (mutex : CooperativeMutex M) (w : World W)
    (hw : Hardware B) where
  abbrev pub Shows : Views → Option (Switch W B M) → Type 0
  Shows v none = ⊥
  Shows v (some x) = views w x.sessions ≡ v

  -- an event that is no commit, or a commit that prints no error
  abbrev pub IsQuiet : Event → Switch W B M → Type 0
  IsQuiet (line ms m c) x =
      (m 0).command_id ≡ cmd_commit
      → (on_commit w (in_session (context_of c) x.sessions)).out ≡ x.sessions.shared.out
  IsQuiet _ x = Unit

  -- of the switch that is there, if any
  abbrev pub Holds : (Switch W B M → Type 0) → Option (Switch W B M) → Type 0
  Holds p none = Unit
  Holds p (some x) = p x

  abbrev pub AllQuiet : List Event → Switch W B M → Type 0
  AllQuiet [] x = Unit
  AllQuiet (e ∷ es) x = IsQuiet e x × Holds (AllQuiet es) (happen k mutex w hw e x)

  module _ (law : IsMutex mutex) (store : IsStore w) (apart : LeavesStrings w)
      (keeps : KeepsNames w) where
    executed :
        (ls : List Line) (ms : List Moment) (m : ℕ → Token) (c : Session) (x : Switch W B M)
        → SwitchOk k mutex x
        → IsQuiet (line ms m c) x
        → views w (execute_in w (port_of x) (show_lines ls) (context_of c) m c x.sessions)
          ≡ line_in c m (views w x.sessions)
    executed ls ms m c x h quiet =
        views-execute_in w (port_of x) (show_lines ls) store apart keeps (show_lines-OnlyPrints ls)
          m c x.sessions h.names_ok quiet

    with_lines-Shows :
        (ms : List Moment) (m : ℕ → Token) (c : Session) (x : Switch W B M)
        (r : Option (List Line × LineCard M × B))
        → SwitchOk k mutex x
        → IsQuiet (line ms m c) x
        → Finished hw k mutex 0 r
        → Shows (line_in c m (views w x.sessions)) (with_lines k mutex w hw m c x r)
    with_lines-Shows ms m c x none h quiet done = done
    with_lines-Shows ms m c x (some (lines, card, bus)) h quiet done =
        executed lines ms m c x h quiet

    happen-Shows :
        (e : Event) (x : Switch W B M)
        → IsServed e
        → SwitchOk k mutex x
        → IsQuiet e x
        → Shows (name_step e (views w x.sessions)) (happen k mutex w hw e x)
    unfolding happen
    happen-Shows (pass due io) x served h quiet = refl
    happen-Shows (shell c) x served h quiet =
        views-open_shell w (port_of x) (show_lines []) c x.sessions
    happen-Shows (line ms m c) x served h quiet =
        elim (Bool-cases (c.root_mode && is_hardware (m 0).command_id (m 1).command_id)) [
          | inl yes_show ↦ rw yes_show (
              with_lines-Shows ms m c x _ h quiet (
                print_line_card_info_ends hw k mutex law 0 ms x.card x.bus h.card_ok
                  (omega (arith, passes_left-le k mutex w hw x.card))))
          | inr other ↦ rw other (executed [] ms m c x h quiet)
        ]

    and_then-Shows :
        (es : List Event) (v : Views) (r : Option (Switch W B M))
        → ((y : Switch W B M)
            → SwitchOk k mutex y
            → AllQuiet es y
            → Shows (name_steps es (views w y.sessions)) (happen_all k mutex w hw es y))
        → Succeeds k mutex r
        → Holds (AllQuiet es) r
        → Shows v r
        → Shows (name_steps es v) (and_then k mutex w hw (happen_all k mutex w hw es) r)
    and_then-Shows es v none rest h quiet shown = shown
    and_then-Shows es v (some y) rest h quiet shown = rw (← shown) (rest y h quiet)

    -- The running switch refines the specification of the names: whatever order passes of the polling
    -- task, lines of any sessions and newly opened shells come in, no line waits for ever, and what
    -- each session then shows as the host name, what all show as the SSH user name, and what the next
    -- load would give, is what the events mean one after the other: a session's line changes its own
    -- host name, or what they share; a new shell starts with the saved host name; lines of a
    -- session that is not in root mode, and passes, change nothing. Before, the MDIO mutex is taken
    -- exactly while a poll is in progress and the names are terminated inside their arrays; each
    -- line finds the transceiver ready at least three times, and no commit prints an error. The
    -- mutex, the flash store and the other services do what they document.
    pub happen_all-Shows :
        (es : List Event) (x : Switch W B M)
        → All IsServed es
        → SwitchOk k mutex x
        → AllQuiet es x
        → Shows (name_steps es (views w x.sessions)) (happen_all k mutex w hw es x)
    unfolding happen_all name_steps
    happen_all-Shows [] x served h quiet = refl
    happen_all-Shows (e ∷ es) x served h quiet =
        and_then-Shows es _ (happen k mutex w hw e x)
          (λ y ok rest. happen_all-Shows es y served.1 ok rest)
          (happen-Succeeds k mutex w hw law e x served.0 h) quiet.1
          (happen-Shows e x served.0 h quiet.0)
