-- ===== src/Sensors/Power.antt =====
-- The arithmetic of the power table.
use Prim.Native.String.{String}
use latentred.Prelude.{
  ℕ, ◌+◌, ◌*◌, ◌/◌, ◌%◌, ◌^◌, ◌≤◌, ◌<◌, ◌≡◌, ◌↔◌, refl, sym, ◌∙◌, Option, none, some, arith, inl,
  inr, Option-cases,
}
use mathlib.Core.Path.{ap₂}
use latentred.Sensors.Current.{current_near, current_of_zero}
use latentred.Sensors.{
  Hardware, read_register, or_zero, current_of, rail, voltage_of, get_voltage, get_current,
  print_power_rail, rail_line,
}

-- The conversion of a bus voltage is defined exactly for raw values up to 52428; the result is then
-- 5/4 of the raw value, rounded down, and fits 16 bits.
pub voltage_of_range :
    (raw v : ℕ) → (voltage_of raw ≡ some v) ↔ ((raw ≤ 52428) × (v ≡ raw * 5 / 4) × (v < 2 ^ 16))
unfolding voltage_of
voltage_of_range raw v = ground arith

product_fits : (i v : ℕ) → i ≤ 32768 → v ≤ 65535 → i * v < 2 ^ 31
product_fits i v h k = grind arith

-- A read gives a 16-bit number.
pub record ReadsWords {B : Type 0} (hw : Hardware B) : Type 0 where
  pub word : (addr raw : ℕ) (b : B) → (hw.blocking_read16 addr b).0 ≡ some raw → raw < 2 ^ 16

-- a transfer that fails counts as 0
abbrev pub word_of : Option ℕ → ℕ
word_of none = 0
word_of (some raw) = raw

module _ {B : Type 0} (hw : Hardware B) where
  -- the words of the two registers that a row is made of
  abbrev pub voltage_word : ℕ → B → ℕ
  voltage_word addr b = word_of (read_register hw addr 0x02 b).0

  abbrev pub current_word : ℕ → B → ℕ
  current_word addr b = word_of (read_register hw addr 0x01 (read_register hw addr 0x02 b).1).0

  or_zero-word_of :
      (f : ℕ → Option ℕ) (r : Option ℕ) → f 0 ≡ some 0 → or_zero hw f r ≡ f (word_of r)
  or_zero-word_of f none e = sym e
  or_zero-word_of f (some raw) e = refl

  get_voltage-word :
      (addr : ℕ) (b : B) → (get_voltage hw addr b).0 ≡ voltage_of (voltage_word addr b)
  unfolding get_voltage voltage_of
  get_voltage-word addr b = or_zero-word_of voltage_of (read_register hw addr 0x02 b).0 refl

  get_current-word :
      (addr : ℕ) (b : B)
      → (get_current hw addr (read_register hw addr 0x02 b).1).0 ≡ current_of (current_word addr b)
  unfolding get_current
  get_current-word addr b =
      or_zero-word_of current_of (read_register hw addr 0x01 (read_register hw addr 0x02 b).1).0
        current_of_zero

  word_fits :
      ReadsWords hw
      → (addr pointer : ℕ) (b : B) → word_of (read_register hw addr pointer b).0 < 2 ^ 16
  word_fits words addr pointer b =
      let b' = (hw.blocking_write8 addr pointer b).1 in
      elim (Option-cases (hw.blocking_read16 addr b').0) [
        | inl nothing ↦ ground arith
        | inr (raw, e) ↦ ground (arith, words.word addr raw b' e)
      ]

  print_power_rail-line :
      (addr : ℕ) (name : String) (b : B)
      → (print_power_rail hw addr name b).0
        ≡ rail_line hw name (voltage_of (voltage_word addr b)) (current_of (current_word addr b))
  unfolding print_power_rail get_voltage
  print_power_rail-line addr name b =
      ap₂ (rail_line hw name) (get_voltage-word addr b) (get_current-word addr b)

  -- What a row of the power table shows, where the voltage fits its type, which is for a word up to
  -- 52428: the voltage is 5/4 of its word in millivolts, rounded down; the current is half of its
  -- word in milliamperes, or up to one less, as the rounded float arithmetic gives it; the power is
  -- their product divided by 1000; and the product, which the code computes in an `int`, stays below
  -- 2^31. Each is shown by its whole part and its thousandths. A transfer that fails gives the word
  -- 0; a read of the bus gives 16 bits.
  pub print_power_rail_numbers :
      (addr : ℕ) (name : String) (b : B)
      → ReadsWords hw
      → voltage_word addr b ≤ 52428
      → let raw = current_word addr b in
        let v = voltage_word addr b * 5 / 4 in
        (i : ℕ) × ((print_power_rail hw addr name b).0 ≡ (
          let p = i * v / 1000 in
          rail name (v / 1000) (v % 1000) (i / 1000) (i % 1000) (p / 1000) (p % 1000)))
        × (2 * i ≤ raw)
        × (raw ≤ 2 * i + 2)
        × (v < 2 ^ 16)
        × (i * v < 2 ^ 31)
  print_power_rail_numbers addr name b words small =
      let v = voltage_word addr b * 5 / 4 in
      let b1 = (read_register hw addr 0x02 b).1 in
      let word = word_fits words addr 0x01 b1 in
      let (i, is, high, low) = current_near (current_word addr b) word in
      let defined : voltage_of (voltage_word addr b) ≡ some v =
        (voltage_of_range (voltage_word addr b) v).1 (small, refl, omega arith) in
      (
        i,
        print_power_rail-line addr name b ∙ ap₂ (rail_line hw name) defined is,
        high,
        low,
        omega arith,
        product_fits i v (omega arith) (omega arith),
      )
