-- ===== src/Switch/Started.antt =====
-- The switch from its start on: the ports as PortState.cpp constructs them, then any events.
use latentred.Prelude.{
  ℕ, zero, suc, ◌<◌, ◌≡◌, refl, false, ◌&&◌, List, [], ◌∷◌, ◌++◌, Option, none, some, arith, All,
  Bool-cases, inl, inr, ◌==◌,
}
use latentred.Platform.{Constants, CooperativeMutex, IsMutex}
use latentred.Tasks.{no_tasks}
use latentred.Port.{InterfaceState, LineCard, new_port_state}
use latentred.PhyPoll.{Effect}
use latentred.PhyPoll.Sharing.{cli_unlock}
use latentred.PhyPoll.Speeds.{AreNamed, iteration-AreNamed, EndsNamed, wait_lock-EndsNamed}
use latentred.PhyPoll.Waiting.{wait_lock}
use latentred.Sensors.{Hardware, with_lock, print_line_card_info}
use latentred.Cli.Grammar.{Token}
use latentred.Cli.System.{World, Session, PortRow}
use latentred.Cli.Show.{row_of, card_rows, all_rows}
use latentred.Cli.Sessions.{Sessions, AllOk}
use latentred.Switch.{
  Switch, Event, pass, line, shell, is_hardware, port_of, with_lines, happen, happen_all, and_then,
}
use latentred.Switch.Runs.{IsServed, SwitchOk, Succeeds, happen-Succeeds}

-- the rows of a table whose speeds have names
abbrev pub HasName : PortRow → Type 0
HasName r = r.speed < 4

card_rows-HasName :
    (ports : ℕ → InterfaceState) (i n : ℕ) → AreNamed ports → All HasName (card_rows ports i n)
unfolding row_of
card_rows-HasName ports i zero h = tt
card_rows-HasName ports i (suc n) h = (h i, card_rows-HasName ports (suc i) n h)

All-append : (xs ys : List PortRow) → All HasName xs → All HasName ys → All HasName (xs ++ ys)
All-append [] ys h g = g
All-append (x ∷ xs) ys h g = (h.0, All-append xs ys h.1 g)

all_rows-HasName :
    (ports : ℕ → ℕ → InterfaceState) (c n : ℕ)
    → ((d : ℕ) → AreNamed (ports d))
    → All HasName (all_rows ports c n)
all_rows-HasName ports c zero h = tt
all_rows-HasName ports c (suc n) h =
    All-append (card_rows (ports c) 0 24) (all_rows ports (suc c) n)
      (card_rows-HasName (ports c) 0 24 (h c)) (all_rows-HasName ports (suc c) n h)

module _ {W B M : Type 0} where
  -- all ports of the two line cards
  pub record PortsOk (x : Switch W B M) : Type 0 where
    pub first : AreNamed x.card.ports
    pub second : AreNamed x.other_ports

  port_of-AreNamed : (x : Switch W B M) → PortsOk x → (c : ℕ) → AreNamed (port_of x c)
  port_of-AreNamed x h c i =
      let a = h.first i in
      let b = h.second i in elim (Bool-cases (c == 0)) [ inl e ↦ rw e a | inr e ↦ rw e b ]

  abbrev StaysNamed : Option (Switch W B M) → Type 0
  StaysNamed none = Unit
  StaysNamed (some x) = PortsOk x

  -- the switch at the end of its startup
  abbrev pub started : Constants → M → (List ℕ → List ℕ → List ℕ) → Sessions W → B → Switch W B M
  started k free printf s b =
      let (state, tables) = new_port_state k free printf no_tasks in
      record { sessions = s; card = state.cards 0; other_ports = (state.cards 1).ports; bus = b }

module _ {W B M : Type 0} (k : Constants) (mutex : CooperativeMutex M) (w : World W)
    (hw : Hardware B) where
  with_lines-StaysNamed :
      (m : ℕ → Token) (c : Session) (x : Switch W B M) (r : Option (LineCard M × List Effect))
      → PortsOk x
      → EndsNamed k mutex r
      → StaysNamed (with_lines k mutex w hw m c x (with_lock hw k mutex 0 x.bus r))
  unfolding cli_unlock
  with_lines-StaysNamed m c x none h named = tt
  with_lines-StaysNamed m c x (some (card, es)) h named = record {
    first = named;
    second = h.second;
  }

  happen-StaysNamed :
      (e : Event) (x : Switch W B M) → PortsOk x → StaysNamed (happen k mutex w hw e x)
  unfolding happen print_line_card_info
  happen-StaysNamed (pass due io) x h = record {
    first = iteration-AreNamed k mutex due io x.card h.first;
    second = h.second;
  }
  happen-StaysNamed (shell c) x h = record { first = h.first; second = h.second }
  happen-StaysNamed (line ms m c) x h =
      elim (Bool-cases (c.root_mode && is_hardware (m 0).command_id (m 1).command_id)) [
        | inl yes_show ↦ rw yes_show (
            with_lines-StaysNamed m c x (wait_lock k mutex ms x.card) h
              (wait_lock-EndsNamed k mutex ms x.card h.first))
        | inr other ↦ rw other (record { first = h.first; second = h.second })
      ]

  -- The switch is there, in good order, and each of its 48 rows names its speed.
  abbrev pub IsShowable : Option (Switch W B M) → Type 0
  IsShowable none = ⊥
  IsShowable (some y) = SwitchOk k mutex y × All HasName (all_rows (port_of y) 0 2)

  and_then-IsShowable :
      (f : Switch W B M → Option (Switch W B M)) (o : Option (Switch W B M))
      → ((y : Switch W B M) → SwitchOk k mutex y → PortsOk y → IsShowable (f y))
      → Succeeds k mutex o
      → StaysNamed o
      → IsShowable (and_then k mutex w hw f o)
  and_then-IsShowable f none rest ok named = ok
  and_then-IsShowable f (some y) rest ok named = rest y ok named

  module _ (law : IsMutex mutex) where
    happen_all-IsShowable :
        (es : List Event) (x : Switch W B M)
        → All IsServed es
        → SwitchOk k mutex x
        → PortsOk x
        → IsShowable (happen_all k mutex w hw es x)
    unfolding happen_all
    happen_all-IsShowable [] x served ok named =
        (ok, all_rows-HasName (port_of x) 0 2 (port_of-AreNamed x named))
    happen_all-IsShowable (e ∷ es) x served ok named =
        and_then-IsShowable (happen_all k mutex w hw es) (happen k mutex w hw e x)
          (λ y ok' named'. happen_all-IsShowable es y served.1 ok' named')
          (happen-Succeeds k mutex w hw law e x served.0 ok) (happen-StaysNamed e x named)

    pub started-SwitchOk :
        (free : M) (printf : List ℕ → List ℕ → List ℕ) (s : Sessions W) (b : B)
        → mutex.locked free ≡ false
        → AllOk s
        → SwitchOk k mutex (started k free printf s b)
    unfolding new_port_state
    started-SwitchOk free printf s b unlocked names = record {
      card_ok = record {
        in_range = omega arith;
        polling = λ active. absurd (active refl);
        resting = λ idle. unlocked;
      };
      names_ok = names;
    }

    started-PortsOk :
        (free : M) (printf : List ℕ → List ℕ → List ℕ) (s : Sessions W) (b : B)
        → k.link_speed_10m < 4
        → PortsOk (started k free printf s b)
    unfolding new_port_state
    started-PortsOk free printf s b small = record { first = λ i. small; second = λ i. small }

    -- From the ports as the startup constructs them, whatever passes, lines and opened shells come
    -- in whatever order, and whatever the transceiver answers: no line blocks, mutex and names stay
    -- in good order, and each row of "show interface status" has one of the four speeds, so that
    -- the table of their names is not read outside. The mutex is constructed unlocked, the speed
    -- that a port starts with is one of the four, the names are terminated inside their arrays, and
    -- each line finds the transceiver ready at least three times while it waits.
    pub happen_all-started :
        (free : M) (printf : List ℕ → List ℕ → List ℕ) (es : List Event) (s : Sessions W) (b : B)
        → mutex.locked free ≡ false
        → k.link_speed_10m < 4
        → AllOk s
        → All IsServed es
        → IsShowable (happen_all k mutex w hw es (started k free printf s b))
    happen_all-started free printf es s b unlocked small names served =
        happen_all-IsShowable es (started k free printf s b) served
          (started-SwitchOk free printf s b unlocked names) (started-PortsOk free printf s b small)
