-- ===== src/Port/Names.antt =====
-- The port names of PortState.cpp, and the polling tasks that its constructors register.
use latentred.Prelude.{
  ℕ, zero, suc, ◌+◌, ◌*◌, ◌/◌, ◌%◌, ◌<◌, ◌≡◌, refl, sym, ◌∙◌, true, ◌&&◌, ◌||◌, not, List, [], ◌∷◌,
  ◌++◌, arith, ltb, ◌==◌, holds_below, holds_below_sound, length,
}
use latentred.Prelude.CString.{c_str, list_eq, list_eq_iff, zeroed}
use latentred.Platform.{Constants}
use latentred.Tasks.{phy_poll, TaskTables, no_tasks}
use latentred.Port.{InterfaceState, port_count, port_name, new_port_state, new_interface}

-- What StringBuffer documents of `Printf` into a cleared array: a text without NUL that leaves room
-- for the terminator is what a reader of the array sees.
pub record Writes (printf : List ℕ → List ℕ → List ℕ) : Type 0 where
  pub reads_back :
      (a text : List ℕ) → c_str text ≡ text → length text < length a → c_str (printf a text) ≡ text

-- the name of the port with number `n`, over both line cards
abbrev name_at : ℕ → List ℕ
name_at n = port_name (n / 24) (n % 24)

plain_table :
    holds_below 48 (λ n. ltb (length (name_at n)) 16 && list_eq (c_str (name_at n)) (name_at n))
    ≡ true
unfolding holds_below port_name c_str list_eq
plain_table = refl

distinct_table :
    holds_below 48 (λ n. holds_below 48 (λ m. not (list_eq (name_at n) (name_at m)) || (n == m)))
    ≡ true
unfolding holds_below port_name list_eq
distinct_table = refl

name_at_plain : (n : ℕ) → n < 48 → (length (name_at n) < 16) × (c_str (name_at n) ≡ name_at n)
name_at_plain n h =
    ground
      (arith, holds_below_sound 48 _ n plain_table h, list_eq_iff (c_str (name_at n)) (name_at n))

name_at_distinct : (n m : ℕ) → n < 48 → m < 48 → name_at n ≡ name_at m → n ≡ m
name_at_distinct n m hn hm e = ground (
  arith,
  holds_below_sound 48 _ m (holds_below_sound 48 _ n distinct_table hn) hm,
  list_eq_iff (name_at n) (name_at m),
)

name_at-port_name : (c i : ℕ) → i < 24 → name_at (24 * c + i) ≡ port_name c i
name_at-port_name c i h =
    let q : (24 * c + i) / 24 ≡ c = omega arith in
    let r : (24 * c + i) % 24 ≡ i = omega arith in rw (q, r)

port_name_plain :
    (c i : ℕ)
    → c < 2
    → i < 24
    → (length (port_name c i) < 16) × (c_str (port_name c i) ≡ port_name c i)
port_name_plain c i hc hi =
    rw (← name_at-port_name c i hi) (name_at_plain (24 * c + i) (omega arith))

module _ {M : Type 0} (k : Constants) (free : M) (printf : List ℕ → List ℕ → List ℕ) where
  -- the port of a line card in the state that the constructor of PortState leaves
  abbrev port_at : ℕ → ℕ → InterfaceState
  port_at c i = ((new_port_state k free printf no_tasks).0.cards c).ports i

  -- Every one of the 48 ports is shown under its name, `g0/0` to `g1/23`, which its 16-byte array
  -- holds with the terminator.
  pub ifname_shown :
      Writes printf
      → (c i : ℕ) → c < 2
      → i < port_count
      → (c_str (port_at c i).ifname ≡ port_name c i) × (length (port_name c i) < 16)
  unfolding new_port_state new_interface
  ifname_shown w zero i hc hi =
      let p = port_name_plain 0 i hc hi in (w.reads_back (zeroed 16) (port_name 0 i) p.1 p.0, p.0)
  ifname_shown w (suc zero) i hc hi =
      let p = port_name_plain 1 i hc hi in (w.reads_back (zeroed 16) (port_name 1 i) p.1 p.0, p.0)
  ifname_shown w (suc (suc c)) i hc hi = absurd (omega arith)

  -- No two of the 48 ports are shown under one name, where the formatter writes what it documents.
  pub ifname_distinct :
      Writes printf
      → (c d i j : ℕ) → c < 2
      → d < 2
      → i < port_count
      → j < port_count
      → c_str (port_at c i).ifname ≡ c_str (port_at d j).ifname
      → (c ≡ d) × (i ≡ j)
  ifname_distinct w c d i j hc hd hi hj e =
      let n = name_at_distinct (24 * c + i) (24 * d + j) (omega arith) (omega arith) (
        name_at-port_name c i hi
        ∙ sym (ifname_shown w c i hc hi).0
        ∙ e
        ∙ (ifname_shown w d j hd hj).0
        ∙ sym (name_at-port_name d j hj)) in
      omega arith

  -- The switch registers the polling task of line card 0 at the end of both tables, and no other task.
  pub new_port_state_tasks :
      (t : TaskTables)
      → ((new_port_state k free printf t).1.tasks ≡ t.tasks ++ phy_poll 0 ∷ [])
        × ((new_port_state k free printf t).1.timer_tasks ≡ t.timer_tasks ++ phy_poll 0 ∷ [])
  unfolding new_port_state
  new_port_state_tasks t = (refl, refl)
