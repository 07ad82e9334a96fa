-- ===== src/Sensors/Current.antt =====
-- How far GetCurrent is from half of what it reads.
use native.Mathlib.Nat.{
  mul-le-mul_left, le_of_mul-le-mul_left, mul-pos, pow-suc, one-le-pow, div-add-mod, mod-lt,
}
use latentred.Prelude.{
  ℕ, zero, suc, ◌+◌, ◌*◌, ◌^◌, ◌≤◌, ◌<◌, ◌≡◌, refl, some, none, ltb, if◌then◌else◌, arith,
}
use latentred.Ieee.{
  convert, multiply, divide, from_int, Float, single, double, round, round_error, truncate,
}
use latentred.Sensors.{volts_per_bit, shunt_ohms, milliamperes_of, current_of}

volts_literal : volts_per_bit ≡ record { significand = 5902958103587057; scale = 71 }
unfolding round
volts_literal = refl

ohms_literal : shunt_ohms ≡ record { significand = 5764607523034235; scale = 60 }
unfolding round
ohms_literal = refl

-- the fuel of a rounding in powers
pow-fuel : (k : ℕ) → 2 ^ (k + 128) ≡ 2 ^ k * 0x100000000000000000000000000000000
pow-fuel zero = refl
pow-fuel (suc k) =
    let shifted : suc k + 128 ≡ suc (k + 128) = omega arith in
    rw (shifted, pow-suc 2 (k + 128), pow-suc 2 k) (omega (arith, pow-fuel k))

enough :
    (den k least num : ℕ)
    → den * least ≤ num * 0x100000000000000000000000000000000
    → den * 2 ^ k * least ≤ num * 2 ^ (k + 128)
enough den k least num h = rw (pow-fuel k) (omega (arith, mul-le-mul_left (2 ^ k) h))

ratio_upper :
    (t d s num e b r : ℕ)
    → 0 < d
    → t * (d * s) ≤ t * (num * e) + num * e
    → num * b ≤ r * d
    → s * (b * t) ≤ r * (t + 1) * e
ratio_upper t d s num e b r pos err h =
    let scaled : d * (s * (b * t)) ≤ d * (r * (t + 1) * e) =
      omega (arith, mul-le-mul_left b err, mul-le-mul_left ((t + 1) * e) h) in
    le_of_mul-le-mul_left scaled pos

ratio_lower :
    (c d s num e b r : ℕ)
    → 0 < d
    → (c + 1) * (num * e) ≤ (c + 1) * (d * s) + num * e
    → r * d ≤ num * b
    → r * c * e ≤ s * (b * (c + 1))
ratio_lower c d s num e b r pos err h =
    let less : c * (num * e) ≤ (c + 1) * (d * s) = omega (arith, err) in
    let scaled : d * (r * c * e) ≤ d * (s * (b * (c + 1))) =
      omega (arith, mul-le-mul_left b less, mul-le-mul_left (c * e) h) in
    le_of_mul-le-mul_left scaled pos

-- A number between `low / b` and `high / b`, and its significand is one that can be divided by.
record Between (low high b : ℕ) (x : Float) : Type 0 where
  above : low * 2 ^ x.scale ≤ x.significand * b
  below : x.significand * b ≤ high * 2 ^ x.scale
  some : 1 ≤ x.significand

-- Rounding widens the bounds by one part in `c + 1`, twice the least significand.
round-Between :
    (least c num den k low high b : ℕ)
    → 2 * least ≡ c + 1
    → 1 ≤ least
    → 1 ≤ den
    → den * least ≤ num * 0x100000000000000000000000000000000
    → low * (den * 2 ^ k) ≤ num * b
    → num * b ≤ high * (den * 2 ^ k)
    → Between (low * c) (high * (c + 2)) (b * (c + 1)) (round least num den k)
round-Between least c num den k low high b is one den_one fuel h h' =
    let r = round least num den k in
    let pos : 0 < den * 2 ^ k = mul-pos den_one (one-le-pow k 2 (omega arith)) in
    let (upper, lower, normal) = round_error least num den k (enough den k least num fuel) pos in
    let e = 2 ^ r.scale in
    record {
      above = ratio_lower c (den * 2 ^ k) r.significand num e b low pos (rw (← is) lower) h;
      below = omega (
        arith,
        ratio_upper (c + 1) (den * 2 ^ k) r.significand num e b high pos (rw (← is) upper) h',
      );
      some = omega (arith, normal);
    }

truncate-Between :
    (low high b : ℕ) (x : Float)
    → Between low high b x
    → (truncate x * b ≤ high) × (low ≤ (truncate x + 1) * b)
truncate-Between low high b x h =
    let e = 2 ^ x.scale in
    let pos : 0 < e = one-le-pow x.scale 2 (omega arith) in
    let split = div-add-mod x.significand e in
    let small = mod-lt x.significand pos in
    let i = truncate x in
    let floor : e * i ≤ x.significand = omega (arith, split) in
    let ceiling : x.significand ≤ e * (i + 1) = omega (arith, split, small) in
    let scaled : e * (i * b) ≤ e * high = omega (arith, h.below, mul-le-mul_left b floor) in
    let scaled' : e * low ≤ e * ((i + 1) * b) = omega (arith, h.above, mul-le-mul_left b ceiling) in
    (le_of_mul-le-mul_left scaled pos, le_of_mul-le-mul_left scaled' pos)

convert-Between :
    (low high b : ℕ) (x : Float)
    → Between low high b x
    → Between (low * 0xffffff) (high * 0x1000001) (b * 0x1000000) (convert single x)
convert-Between low high b x h =
    round-Between single 0xffffff x.significand 1 x.scale low high b refl (omega arith)
      (omega arith) (omega (arith, h.some)) (omega (arith, h.above)) (omega (arith, h.below))

volts-Between :
    (raw : ℕ)
    → 1 ≤ raw
    → Between
        (raw * 5902958103587057 * 0x1fffffffffffff)
        (raw * 5902958103587057 * 0x20000000000001)
        (2 ^ 71 * 0x20000000000000)
        (multiply double (from_int raw) volts_per_bit)
volts-Between raw pos = rw volts_literal (
    round-Between double 0x1fffffffffffff (raw * 5902958103587057) 1 (0 + 71)
      (raw * 5902958103587057) (raw * 5902958103587057) (2 ^ 71) refl (omega arith) (omega arith)
      (omega arith) (omega arith) (omega arith))

shunt-Between :
    (low high b : ℕ) (x : Float)
    → Between low high b x
    → Between
        (low * 2 ^ 60 * 0x1fffffffffffff)
        (high * 2 ^ 60 * 0x20000000000001)
        (b * 5764607523034235 * 0x20000000000000)
        (divide double x shunt_ohms)
shunt-Between low high b x h = rw ohms_literal (
    round-Between double 0x1fffffffffffff (x.significand * 2 ^ 60) 5764607523034235 x.scale
      (low * 2 ^ 60) (high * 2 ^ 60) (b * 5764607523034235) refl (omega arith) (omega arith)
      (omega (arith, h.some)) (omega (arith, h.above)) (omega (arith, h.below)))

milli-Between :
    (low high b : ℕ) (x : Float)
    → Between low high b x
    → Between
        (low * 1000 * 0xffffff)
        (high * 1000 * 0x1000001)
        (b * 0x1000000)
        (multiply single x (from_int 1000))
milli-Between low high b x h =
    let same : x.scale + 0 ≡ x.scale = omega arith in
    rw same (
      round-Between single 0xffffff (x.significand * 1000) 1 x.scale (low * 1000) (high * 1000) b
        refl (omega arith) (omega arith) (omega (arith, h.some)) (omega (arith, h.above))
        (omega (arith, h.below)))

-- The whole milliamperes of a word other than 0.
milliamperes_near :
    (raw : ℕ)
    → 1 ≤ raw
    → raw < 2 ^ 16
    → (2 * truncate (milliamperes_of raw) ≤ raw) × (raw ≤ 2 * truncate (milliamperes_of raw) + 2)
unfolding milliamperes_of
milliamperes_near raw pos word =
    let vshunt = convert-Between _ _ _ _ (volts-Between raw pos) in
    let ishunt = convert-Between _ _ _ _ (shunt-Between _ _ _ _ vshunt) in
    let (high, low) = truncate-Between _ _ _ _ (milli-Between _ _ _ _ ishunt) in
    (omega (arith, high), omega (arith, low))

fitting : (i : ℕ) → i < 0x10000 → (if ltb i 0x10000 then some i else none) ≡ some i
fitting i h = ground arith

-- The conversion to `uint16_t` is defined for every 16-bit word, and gives the half of the word, or
-- one less.
pub current_near :
    (raw : ℕ)
    → raw < 2 ^ 16
    → (i : ℕ) × (current_of raw ≡ some i) × (2 * i ≤ raw) × (raw ≤ 2 * i + 2)
unfolding current_of
current_near zero word = (0, refl, omega arith, omega arith)
current_near (suc n) word =
    let (high, low) = milliamperes_near (suc n) (omega arith) word in
    (
      truncate (milliamperes_of (suc n)),
      fitting (truncate (milliamperes_of (suc n))) (omega (arith, high)),
      high,
      low,
    )

pub current_of_zero : current_of 0 ≡ some 0
unfolding current_of
current_of_zero = refl

-- A reading of 1.320 A is shown as 1.319 A.
one_short : current_of 2640 ≡ some 1319
unfolding current_of
one_short = refl
