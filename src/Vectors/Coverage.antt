-- ===== src/Vectors/Coverage.antt =====
-- Every interrupt that is enabled has a handler of its own, and no other has.
use latentred.Prelude.{
  ℕ, ◌+◌, ◌*◌, ◌%◌, ◌≤◌, ◌<◌, ◌≡◌, ◌≢◌, ◌↔◌, refl, Bool, true, false, not, ◌||◌, List, [], ◌∷◌,
  ◌++◌, arith, ◌==◌, get_or, length, holds_below, holds_below_sound, if◌then◌else◌,
}
use latentred.Vectors.{
  Handler, stack, default_isr, vector_table, super_vector_table, enabled_irqs, super_uart_irqs,
  super_spi_irqs, app_vector, app_version_offset, app_image_size,
}

abbrev pub listed : ℕ → List ℕ → Bool
listed i [] = false
listed i (j ∷ js) = i == j || listed i js

abbrev is_default : Handler → Bool
is_default default_isr = true
is_default _ = false

abbrev same : Bool → Bool → Bool
same a b = if a then b else not b

-- The entry of interrupt `i`.
abbrev pub irq_entry : List Handler → ℕ → Handler
irq_entry table i = get_or table (16 + i) stack

coverage : (table : List Handler) → List ℕ → ℕ → Bool
coverage table irqs n =
    holds_below n (λ i. same (listed i irqs) (not (is_default (irq_entry table i))))

main_coverage : coverage vector_table enabled_irqs 163 ≡ true
unfolding coverage holds_below
main_coverage = refl

super_coverage : coverage super_vector_table (super_uart_irqs ++ super_spi_irqs) 85 ≡ true
unfolding coverage holds_below
super_coverage = refl

covered :
    (table : List Handler) (irqs : List ℕ) (n i : ℕ)
    → coverage table irqs n ≡ true
    → i < n
    → (listed i irqs ≡ true) ↔ (irq_entry table i ≢ default_isr)
unfolding coverage
covered table irqs n i h lt = ground (arith, holds_below_sound n _ i h lt)

-- For each of the 163 interrupts of the management controller, the setup code enables it exactly if
-- the table has a handler for it other than the default; so no enabled interrupt ends in the default
-- handler, and no handler is dead.
pub vector_table_coverage :
    (i : ℕ) → i < 163 → (listed i enabled_irqs ≡ true) ↔ (irq_entry vector_table i ≢ default_isr)
vector_table_coverage i h = covered vector_table enabled_irqs 163 i main_coverage h

-- For each of the 85 interrupts of the supervisor, the setup code of its serial port or of its SPI bus
-- enables it exactly if the table has a handler for it other than the default.
super_vector_table_coverage :
    (i : ℕ)
    → i < 85
    → (listed i (super_uart_irqs ++ super_spi_irqs) ≡ true)
      ↔ (irq_entry super_vector_table i ≢ default_isr)
super_vector_table_coverage i h =
    covered super_vector_table (super_uart_irqs ++ super_spi_irqs) 85 i super_coverage h

-- Every entry of the table of an application image, stored as four bytes each, ends before the version
-- string of the image, which stands at the next multiple of 32; both lie inside the image, which
-- reaches from 0x8020000 up to the start of the flash store at 0x80c0000.
pub vector_table_place :
    (i : ℕ)
    → i < length vector_table
    → (4 * i + 4 ≤ app_version_offset)
      × (app_version_offset % 32 ≡ 0)
      × (app_version_offset < 4 * length vector_table + 32)
      × (app_vector + app_version_offset < app_vector + app_image_size)
      × (app_vector + app_image_size ≡ 0x80c0000)
vector_table_place i h = omega arith
