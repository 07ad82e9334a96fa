-- ===== src/Port/Examples.antt =====
-- The theorem of the port names with a concrete formatter.
use latentred.Prelude.{ℕ, ◌+◌, ◌≡◌, refl, false, List, [], ◌∷◌, ◌++◌, arith}
use latentred.Prelude.CString.{c_str}
use latentred.Port.Names.{Writes, ifname_distinct}
use latentred.Samples.{constants}

-- A formatter that writes the text and a terminator.
abbrev print_text : List ℕ → List ℕ → List ℕ
print_text a text = text ++ 0 ∷ []

read_text : (text : List ℕ) → c_str text ≡ text → c_str (text ++ 0 ∷ []) ≡ text
unfolding c_str
read_text [] h = refl
read_text (c ∷ text) h = ground (arith, read_text text)

print_text-Writes : Writes print_text
print_text-Writes = record { reads_back = λ a text plain room. read_text text plain }

abbrev card : ℕ
card = 1

ifname_distinct_example : (card ≡ 1) × (card + 6 ≡ 7)
ifname_distinct_example =
    ifname_distinct constants false print_text print_text-Writes 1 1 7 7 (omega arith) (omega arith)
      (omega arith) (omega arith) refl
