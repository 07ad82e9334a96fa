-- ===== src/Prelude/CString.antt =====
-- The C library's view of a `char` array: what stands before the first NUL, `strncpy`, `strcmp`,
-- `atoi` and a zeroed array, over lists of bytes. An array is a list of its declared size.
use Prim.Native.Char.{code}
use Prim.Native.String.{String}
use Prim.Native.Nat.{ℕ, zero, suc, ◌+◌, ◌*◌, ◌-◌, ◌≤◌}
use mathlib.Core.Path.{◌≡◌, refl, ap}
use mathlib.Core.Logic.{inl, inr, ◌↔◌}
use mathlib.Core.Bool.{Bool, true, false, ◌&&◌, ◌||◌}
use mathlib.Core.List.{List, [], ◌∷◌}
use native.Mathlib.Omega.{arith}
use latentred.Prelude.Tests.{◌==◌, leb, if◌then◌else◌, Bool-cases}
use latentred.Prelude.Lists.{length, take, get_or, replicate}

-- The bytes of an ASCII literal.
abbrev pub bytes : String → List ℕ
bytes String.[] = []
bytes (String.◌∷◌ c s) = code c ∷ bytes s

-- The characters of a C string: what stands before the first NUL.
unfoldable pub c_str : List ℕ → List ℕ
c_str [] = []
c_str (c ∷ s) = let rest = c ∷ c_str s in if c == 0 then [] else rest

-- `strncpy(dst, src, n)` copies up to the NUL of `src` and pads with NULs, `n` bytes in all. A write
-- past the end of `dst` is dropped here; in C it is undefined.
unfoldable pub strncpy : List ℕ → List ℕ → ℕ → List ℕ
strncpy dst src zero = dst
strncpy [] src (suc n) = []
strncpy (d ∷ dst) [] (suc n) = 0 ∷ strncpy dst [] n
strncpy (d ∷ dst) (c ∷ src) (suc n) = c ∷ strncpy dst (if c == 0 then [] else src) n

-- `memset(a, 0, size)` over the whole array.
abbrev pub zeroed : ℕ → List ℕ
zeroed size = replicate size 0

unfoldable pub list_eq : List ℕ → List ℕ → Bool
list_eq [] [] = true
list_eq (a ∷ s) (b ∷ t) = a == b && list_eq s t
list_eq _ _ = false

-- `!strcmp(a, b)`
unfoldable pub str_same : List ℕ → List ℕ → Bool
unfolding c_str list_eq
str_same a b = list_eq (c_str a) (c_str b)

-- `atoi`: blanks, a sign, then digits up to the first other character; the sign and the magnitude.
-- A value that does not fit an `int` is undefined in C, and is kept whole here.
digits_value : ℕ → List ℕ → ℕ
digits_value acc [] = acc
digits_value acc (c ∷ s) =
    let rest = digits_value (acc * 10 + (c - b'0')) s in
    if leb b'0' c && leb c b'9' then rest else acc

abbrev signed_value : List ℕ → Bool × ℕ
signed_value [] = (false, 0)
signed_value (c ∷ s) =
    if c == b'-'
    then (true, digits_value 0 s)
    else if c == b'+'
    then (false, digits_value 0 s)
    else (false, digits_value 0 (c ∷ s))

unfoldable pub atoi : List ℕ → Bool × ℕ
unfolding digits_value
atoi [] = (false, 0)
atoi (c ∷ s) =
    let rest = atoi s in if c == b' ' || (leb 9 c && leb c 13) then rest else signed_value (c ∷ s)

-- The last byte of the array is a NUL, so the string ends inside the array.
pub record IsTerminated (last : ℕ) (a : List ℕ) : Type 0 where
  pub sized : length a ≡ suc last
  pub nul : get_or a last 1 ≡ 0

pub length-strncpy : (dst src : List ℕ) (n : ℕ) → length (strncpy dst src n) ≡ length dst
unfolding strncpy
length-strncpy dst src zero = refl
length-strncpy [] src (suc n) = refl
length-strncpy (d ∷ dst) [] (suc n) = ap suc (length-strncpy dst [] n)
length-strncpy (d ∷ dst) (c ∷ src) (suc n) =
    ap suc (length-strncpy dst (if c == 0 then [] else src) n)

get_or-strncpy :
    (dst src : List ℕ) (n i d : ℕ) → n ≤ i → get_or (strncpy dst src n) i d ≡ get_or dst i d
unfolding strncpy
get_or-strncpy dst src zero i d h = refl
get_or-strncpy [] src (suc n) i d h = refl
get_or-strncpy (x ∷ dst) [] (suc n) zero d h = absurd (omega arith)
get_or-strncpy (x ∷ dst) [] (suc n) (suc i) d h = get_or-strncpy dst [] n i d (omega arith)
get_or-strncpy (x ∷ dst) (c ∷ src) (suc n) zero d h = absurd (omega arith)
get_or-strncpy (x ∷ dst) (c ∷ src) (suc n) (suc i) d h =
    get_or-strncpy dst (if c == 0 then [] else src) n i d (omega arith)

pub strncpy-IsTerminated :
    (last : ℕ) (dst src : List ℕ) (n : ℕ)
    → n ≤ last
    → IsTerminated last dst
    → IsTerminated last (strncpy dst src n)
strncpy-IsTerminated last dst src n h t = record {
  sized = omega (arith, length-strncpy dst src n);
  nul = omega (arith, get_or-strncpy dst src n last 1 h);
}

pub get_or-zeroed : (last n : ℕ) → n ≤ last → get_or (zeroed (suc last)) n 1 ≡ 0
get_or-zeroed last zero h = refl
get_or-zeroed zero (suc n) h = absurd (omega arith)
get_or-zeroed (suc last) (suc n) h = get_or-zeroed last n (omega arith)

length-zeroed : (n : ℕ) → length (zeroed n) ≡ n
length-zeroed zero = refl
length-zeroed (suc n) = ap suc (length-zeroed n)

pub zeroed-IsTerminated : (last : ℕ) → IsTerminated last (zeroed (suc last))
zeroed-IsTerminated last = record {
  sized = length-zeroed (suc last);
  nul = get_or-zeroed last last (omega arith);
}

pub c_str-le : (last : ℕ) (a : List ℕ) → IsTerminated last a → length (c_str a) ≤ last
unfolding c_str
c_str-le last [] t = absurd (omega arith)
c_str-le zero (c ∷ a) t = ground arith
c_str-le (suc last) (c ∷ a) t =
    ground (arith, c_str-le last a (record { sized = omega arith; nul = t.nul }))

-- What a reader sees after a copy whose next byte is a NUL: the source, cut at `n`.
pub c_str-strncpy :
    (dst src : List ℕ) (n : ℕ) → get_or dst n 1 ≡ 0 → c_str (strncpy dst src n) ≡ take n (c_str src)
unfolding c_str strncpy
c_str-strncpy [] src n h = absurd (omega arith)
c_str-strncpy (d ∷ dst) src zero h = ground arith
c_str-strncpy (d ∷ dst) [] (suc n) h = refl
c_str-strncpy (d ∷ dst) (c ∷ src) (suc n) h = elim (Bool-cases (c == 0)) [
  | inl stop ↦ rw stop
  | inr more ↦ rw more (rw (c_str-strncpy dst src n h))
]

pub c_str_idem : (s : List ℕ) → c_str (c_str s) ≡ c_str s
unfolding c_str
c_str_idem [] = refl
c_str_idem (c ∷ s) = elim (Bool-cases (c == 0)) [
  | inl stop ↦ rw stop
  | inr more ↦ rw more (rw more (rw (c_str_idem s)))
]

pub take-all : (n : ℕ) (s : List ℕ) → length s ≤ n → take n s ≡ s
take-all zero [] h = refl
take-all zero (c ∷ s) h = absurd (omega arith)
take-all (suc n) [] h = refl
take-all (suc n) (c ∷ s) h = ap (λ (r : List ℕ). c ∷ r) (take-all n s (omega arith))

pub list_eq_iff : (s t : List ℕ) → (list_eq s t ≡ true) ↔ (s ≡ t)
unfolding list_eq
list_eq_iff [] [] = (λ _. refl, λ _. refl)
list_eq_iff [] (b ∷ t) = (λ h. cc, λ h. cc)
list_eq_iff (a ∷ s) [] = (λ h. cc, λ h. cc)
list_eq_iff (a ∷ s) (b ∷ t) = ground (arith, list_eq_iff s t)

pub str_same_iff : (s t : List ℕ) → (str_same s t ≡ true) ↔ (c_str s ≡ c_str t)
unfolding str_same
str_same_iff s t = list_eq_iff (c_str s) (c_str t)

atoi_signed : atoi (bytes " -12x") ≡ (true, 12)
unfolding atoi
atoi_signed = refl
