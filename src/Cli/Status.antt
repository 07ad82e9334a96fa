-- ===== src/Cli/Status.antt =====
-- The table of "show interface status".
use latentred.Prelude.{
  ℕ, zero, suc, ◌+◌, ◌*◌, ◌<◌, ◌≡◌, ◌∙◌, refl, ap, List, [], ◌∷◌, ◌++◌, some, arith, length,
  get_elem?,
}
use latentred.Port.{InterfaceState}
use latentred.Cli.System.{PortRow, Output, port_row, System}
use latentred.Cli.Show.{row_of, card_rows, all_rows, rows_out, on_show_interface_status}

length-card_rows : (ports : ℕ → InterfaceState) (i n : ℕ) → length (card_rows ports i n) ≡ n
length-card_rows ports i zero = refl
length-card_rows ports i (suc n) = ap suc (length-card_rows ports (suc i) n)

get_elem?-card_rows :
    (ports : ℕ → InterfaceState) (i n j : ℕ)
    → j < n
    → get_elem? (card_rows ports i n) j ≡ some (row_of (ports (i + j)))
get_elem?-card_rows ports i zero j h = absurd (omega arith)
get_elem?-card_rows ports i (suc n) zero h = let e : i + 0 ≡ i = omega arith in rw e
get_elem?-card_rows ports i (suc n) (suc j) h =
    let e : i + suc j ≡ suc i + j = omega arith in
    rw e (get_elem?-card_rows ports (suc i) n j (omega arith))

get_elem?-append_left {ℓ} :
    {A : Type ℓ} (xs ys : List A) (i : ℕ) → i < length xs → get_elem? (xs ++ ys) i ≡ get_elem? xs i
get_elem?-append_left [] ys i h = absurd (omega arith)
get_elem?-append_left (x ∷ xs) ys zero h = refl
get_elem?-append_left (x ∷ xs) ys (suc i) h = get_elem?-append_left xs ys i (omega arith)

get_elem?-append_right {ℓ} :
    {A : Type ℓ} (xs ys : List A) (i : ℕ) → get_elem? (xs ++ ys) (length xs + i) ≡ get_elem? ys i
get_elem?-append_right [] ys i = let e : 0 + i ≡ i = omega arith in rw e
get_elem?-append_right (x ∷ xs) ys i =
    let e : suc (length xs) + i ≡ suc (length xs + i) = omega arith in
    rw e (get_elem?-append_right xs ys i)

-- The row of port `i` of card `c` in the table.
row_at :
    (ports : ℕ → ℕ → InterfaceState) (c i : ℕ)
    → c < 2
    → i < 24
    → get_elem? (all_rows ports 0 2) (24 * c + i) ≡ some (row_of (ports c i))
row_at ports zero i hc hi =
    let e : 24 * 0 + i ≡ i = omega arith in
    let z : 0 + i ≡ i = omega arith in
    rw e (
      get_elem?-append_left (card_rows (ports 0) 0 24) (all_rows ports 1 1) i
        (omega (arith, length-card_rows (ports 0) 0 24))
      ∙ get_elem?-card_rows (ports 0) 0 24 i hi
      ∙ rw z)
row_at ports (suc zero) i hc hi =
    let e : 24 * 1 + i ≡ length (card_rows (ports 0) 0 24) + i =
      omega (arith, length-card_rows (ports 0) 0 24) in
    let z : 0 + i ≡ i = omega arith in
    rw e (
      get_elem?-append_right (card_rows (ports 0) 0 24) (all_rows ports 1 1) i
      ∙ get_elem?-append_left (card_rows (ports 1) 0 24) [] i
          (omega (arith, length-card_rows (ports 1) 0 24))
      ∙ get_elem?-card_rows (ports 1) 0 24 i hi
      ∙ rw z)
row_at ports (suc (suc c)) i hc hi = absurd (omega arith)

length-all_rows : (ports : ℕ → ℕ → InterfaceState) → length (all_rows ports 0 2) ≡ 48
length-all_rows ports = refl

-- the rows among what was written
abbrev pub rows : List Output → List PortRow
rows [] = []
rows (port_row r ∷ os) = r ∷ rows os
rows (o ∷ os) = rows os

rows-append : (xs ys : List Output) → rows (xs ++ ys) ≡ rows xs ++ rows ys
rows-append [] ys = refl
rows-append (port_row r ∷ xs) ys = ap (λ (t : List PortRow). r ∷ t) (rows-append xs ys)
rows-append (o ∷ xs) ys = rows-append xs ys

rows-rows_out : (rs : List PortRow) → rows (rows_out rs) ≡ rs
rows-rows_out [] = refl
rows-rows_out (r ∷ rs) = ap (λ (t : List PortRow). r ∷ t) (rows-rows_out rs)

-- "show interface status" prints 48 rows behind those printed before, and row 24 c + i shows port i of
-- card c: its names, link, duplex and speed.
pub on_show_interface_status-rows :
    {W : Type 0} (ports : ℕ → ℕ → InterfaceState) (s : System W)
    → let printed = all_rows ports 0 2 in
      (rows (on_show_interface_status ports s).out ≡ rows s.out ++ printed)
      × (length printed ≡ 48)
      × ((c i : ℕ) → c < 2 → i < 24 → get_elem? printed (24 * c + i) ≡ some (row_of (ports c i)))
unfolding on_show_interface_status
on_show_interface_status-rows ports s =
    (rows-append s.out _ ∙ rw rows-rows_out, length-all_rows ports, row_at ports)
