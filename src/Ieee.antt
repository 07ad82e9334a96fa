-- ===== src/Ieee.antt =====
-- The float arithmetic of GetCurrent in
-- firmware/lcbringup/main/LatentRedCLISessionContext.cpp: IEEE 754 numbers that are not negative,
-- and operations that round to the nearest one, with ties to the even significand.
-- The exponent has no bounds here; zero and the numbers of GetCurrent are far inside the real ones.
use native.Mathlib.Nat.{pow-suc, div-add-mod, mod-lt, mul-le-mul_left}
use latentred.Prelude.{
  ℕ, zero, suc, ◌+◌, ◌*◌, ◌/◌, ◌%◌, ◌^◌, ◌≤◌, ◌<◌, ◌≡◌, arith, ltb, if◌then◌else◌, Bool-cases, inl,
  inr, dec_lt,
}

-- the number `significand / 2 ^ scale`
pub record Float : Type 0 where
  pub significand : ℕ
  pub scale : ℕ

-- The least significand of a normal number: 24 bits for `float`, 53 for `double`.
abbrev pub single : ℕ
single = 0x800000

abbrev pub double : ℕ
double = 0x10000000000000

-- `n` doubled until it is at least `low`, `fuel` times at most, and how often it was
unfoldable pub normalise : ℕ → ℕ → ℕ → ℕ × ℕ
normalise zero low n = (n, 0)
normalise (suc fuel) low n =
    let (m, e) = normalise fuel low (2 * n) in if ltb n low then (m, suc e) else (n, 0)

-- `n / d` to the nearest number, to the even one of two
unfoldable pub nearest : ℕ → ℕ → ℕ
nearest n d =
    if ltb (2 * (n % d)) d
    then n / d
    else if ltb d (2 * (n % d))
    then suc (n / d)
    else n / d + n / d % 2

-- `num / (den * 2 ^ k)`, rounded; the fuel is enough for any `num` but 0
unfoldable pub round : ℕ → ℕ → ℕ → ℕ → Float
unfolding normalise nearest
round least num den k =
    let d = den * 2 ^ k in
    let (n, e) = normalise (k + 128) (d * least) num in
    record { significand = nearest n d; scale = e }

abbrev pub from_int : ℕ → Float
from_int n = record { significand = n; scale = 0 }

abbrev pub convert : ℕ → Float → Float
convert least x = round least x.significand 1 x.scale

abbrev pub multiply : ℕ → Float → Float → Float
multiply least x y = round least (x.significand * y.significand) 1 (x.scale + y.scale)

abbrev pub divide : ℕ → Float → Float → Float
divide least x y = round least (x.significand * 2 ^ y.scale) y.significand x.scale

-- the conversion to an integer
abbrev pub truncate : Float → ℕ
truncate x = x.significand / 2 ^ x.scale

normalise_value : (fuel low n : ℕ) → (normalise fuel low n).0 ≡ n * 2 ^ (normalise fuel low n).1
unfolding normalise
normalise_value zero low n = omega arith
normalise_value (suc fuel) low n = elim (Bool-cases (ltb n low)) [
  | inl e ↦
      rw (e, pow-suc 2 (normalise fuel low (2 * n)).1)
        (grind (arith, normalise_value fuel low (2 * n)))
  | inr e ↦ rw e (omega arith)
]

normalise-reaches : (fuel low n : ℕ) → low ≤ n * 2 ^ fuel → low ≤ (normalise fuel low n).0
unfolding normalise
normalise-reaches zero low n h = omega arith
normalise-reaches (suc fuel) low n h = elim (Bool-cases (ltb n low)) [
  | inl e ↦ rw e (normalise-reaches fuel low (2 * n) (grind (arith, h, pow-suc 2 fuel)))
  | inr e ↦ rw e (ground arith)
]

nearest_bounds :
    (n d : ℕ) → 0 < d → (2 * (d * nearest n d) ≤ 2 * n + d) × (2 * n ≤ 2 * (d * nearest n d) + d)
unfolding nearest
nearest_bounds n d h =
    let split = div-add-mod n d in let small = mod-lt n h in grind (arith, split, small)

scaled_upper : (l d q n : ℕ) → 2 * (d * q) ≤ 2 * n + d → d * l ≤ n → 2 * l * (d * q) ≤ 2 * l * n + n
scaled_upper l d q n upper low = omega (arith, mul-le-mul_left l upper)

scaled_lower : (l d q n : ℕ) → 2 * n ≤ 2 * (d * q) + d → d * l ≤ n → 2 * l * n ≤ 2 * l * (d * q) + n
scaled_lower l d q n lower low = omega (arith, mul-le-mul_left l lower)

normal : (l d q n : ℕ) → 0 < d → 2 * n ≤ 2 * (d * q) + d → d * l ≤ n → l ≤ q
normal l d q n pos lower low = elim (dec_lt q l) [
  | yes less ↦ absurd (omega (arith, mul-le-mul_left d less))
  | no enough ↦ omega arith
]

-- A rounded number is within one part in twice the least significand of the exact one.
module _ (least num den k : ℕ) (enough : den * 2 ^ k * least ≤ num * 2 ^ (k + 128))
    (den_pos : 0 < den * 2 ^ k) where
  pub round_error :
      let r = round least num den k in
      let d = den * 2 ^ k in
      let exact = num * 2 ^ r.scale in
      (2 * least * (d * r.significand) ≤ 2 * least * exact + exact)
      × (2 * least * exact ≤ 2 * least * (d * r.significand) + exact)
      × (least ≤ r.significand)
  unfolding round
  round_error =
      let d = den * 2 ^ k in
      let low = d * least in
      let n = (normalise (k + 128) low num).0 in
      let value = normalise_value (k + 128) low num in
      let reached : low ≤ n = normalise-reaches (k + 128) low num enough in
      let (upper, lower) = nearest_bounds n d den_pos in
      let q = nearest n d in
      rw (← value) (
        scaled_upper least d q n upper reached,
        scaled_lower least d q n lower reached,
        normal least d q n den_pos lower reached,
      )
