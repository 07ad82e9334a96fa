-- ===== src/Vectors/Faults.antt =====
-- No handler of a fault returns to the code that faulted.
use latentred.Prelude.{
  ℕ, zero, suc, ◌+◌, ◌*◌, ◌<◌, ◌≡◌, ◌∙◌, refl, ap, Bool, true, false, List, [], ◌∷◌, arith, get_or,
  get_elem?, some,
}
use latentred.Vectors.{
  Handler, stack, start, nmi, hard_fault, mmu_fault, bus_fault, usage_fault, default_isr, uart4,
  spi_cs, spi1, usart1, vector_table, boot_vector_table, run_boot_handler, boot_hard_fault_handler,
  super_vector_table, Action, blocking_flush, reset, panic_shutdown, hang, print_word, Fault, frame,
  dump_stack, run_handler, run_super_handler, hard_fault_handler, super_hard_fault_handler,
}

-- The processor stops, and all that was printed has left the serial port before.
abbrev pub hangs_flushed : List Action → Bool
hangs_flushed [] = false
hangs_flushed (hang ∷ rest) = false
hangs_flushed (blocking_flush ∷ hang ∷ []) = true
hangs_flushed (a ∷ rest) = hangs_flushed rest

-- The processor resets, or it shuts the power rails down before it stops.
abbrev pub leaves_safe : List Action → Bool
leaves_safe [] = false
leaves_safe (hang ∷ rest) = false
leaves_safe (reset ∷ rest) = true
leaves_safe (panic_shutdown ∷ rest) = true
leaves_safe (a ∷ rest) = leaves_safe rest

-- Entries that are no fault: the stack, the start of the program, and the interrupts in use.
abbrev pub is_normal : Handler → Bool
is_normal stack = true
is_normal start = true
is_normal uart4 = true
is_normal spi_cs = true
is_normal spi1 = true
is_normal usart1 = true
is_normal _ = false

hangs-hard_fault : (f : Fault) → hangs_flushed (hard_fault_handler f) ≡ true
unfolding hard_fault_handler
hangs-hard_fault f = refl

handler_hangs :
    (h : Handler) (f : Fault) → is_normal h ≡ false → hangs_flushed (run_handler h f) ≡ true
unfolding run_handler
handler_hangs nmi f e = refl
handler_hangs hard_fault f e = hangs-hard_fault f
handler_hangs mmu_fault f e = refl
handler_hangs bus_fault f e = refl
handler_hangs usage_fault f e = refl
handler_hangs default_isr f e = refl
handler_hangs _ f e = cc

handler_leaves_safe :
    (h : Handler) (f : Fault) → is_normal h ≡ false → leaves_safe (run_super_handler h f) ≡ true
unfolding run_super_handler
handler_leaves_safe nmi f e = refl
handler_leaves_safe hard_fault f e = refl
handler_leaves_safe mmu_fault f e = refl
handler_leaves_safe bus_fault f e = refl
handler_leaves_safe usage_fault f e = refl
handler_leaves_safe default_isr f e = refl
handler_leaves_safe _ f e = cc

boot_handler_hangs :
    (h : Handler) (f : Fault) → is_normal h ≡ false → hangs_flushed (run_boot_handler h f) ≡ true
unfolding run_boot_handler
boot_handler_hangs nmi f e = refl
boot_handler_hangs hard_fault f e = refl
boot_handler_hangs mmu_fault f e = refl
boot_handler_hangs bus_fault f e = refl
boot_handler_hangs usage_fault f e = refl
boot_handler_hangs default_isr f e = refl
boot_handler_hangs _ f e = cc

-- On the management controller, in the application and in the bootloader, every entry of the vector
-- table but the stack, the start and UART4 stops the processor and never returns to the interrupted
-- code; the last that it does before is to flush the serial port.
vector_table_hangs :
    (i : ℕ) (f : Fault)
    → is_normal (get_or vector_table i stack) ≡ false
    → is_normal (get_or boot_vector_table i stack) ≡ false
    → (hangs_flushed (run_handler (get_or vector_table i stack) f) ≡ true)
      × (hangs_flushed (run_boot_handler (get_or boot_vector_table i stack) f) ≡ true)
vector_table_hangs i f e e' = (
  handler_hangs (get_or vector_table i stack) f e,
  boot_handler_hangs (get_or boot_vector_table i stack) f e',
)

-- On the supervisor, every entry of the vector table but the stack, the start and the three interrupts
-- in use resets the processor or shuts the power rails down before it stops.
pub super_vector_table_safe :
    (i : ℕ) (f : Fault)
    → is_normal (get_or super_vector_table i stack) ≡ false
    → leaves_safe (run_super_handler (get_or super_vector_table i stack) f) ≡ true
super_vector_table_safe i f e = handler_leaves_safe (get_or super_vector_table i stack) f e

-- the words that a handler prints
abbrev pub words : List Action → List ℕ
words [] = []
words (print_word t n ∷ rest) = n ∷ words rest
words (a ∷ rest) = words rest

get_elem?-dump :
    (f : Fault) (i n j : ℕ)
    → j < n
    → get_elem? (words (dump_stack f i n)) j ≡ some (f.mem (frame f + 4 * (i + j)))
get_elem?-dump f i zero j h = absurd (omega arith)
get_elem?-dump f i (suc n) zero h = let e : i + 0 ≡ i = omega arith in rw e
get_elem?-dump f i (suc n) (suc j) h =
    let e : i + suc j ≡ suc i + j = omega arith in rw e (get_elem?-dump f (suc i) n j (omega arith))

registers :
    (f : Fault) (j : ℕ)
    → j < 8
    → get_elem? (words (hard_fault_handler f)) (suc (suc (suc (suc (suc (suc (suc j)))))))
      ≡ some (f.mem (f.msp + 48 + 4 * j))
unfolding hard_fault_handler
registers f zero h = ap (λ (a : ℕ). some (f.mem a)) (omega arith)
registers f (suc zero) h = ap (λ (a : ℕ). some (f.mem a)) (omega arith)
registers f (suc (suc zero)) h = ap (λ (a : ℕ). some (f.mem a)) (omega arith)
registers f (suc (suc (suc zero))) h = ap (λ (a : ℕ). some (f.mem a)) (omega arith)
registers f (suc (suc (suc (suc zero)))) h = ap (λ (a : ℕ). some (f.mem a)) (omega arith)
registers f (suc (suc (suc (suc (suc zero))))) h = ap (λ (a : ℕ). some (f.mem a)) (omega arith)
registers f (suc (suc (suc (suc (suc (suc zero)))))) h =
    ap (λ (a : ℕ). some (f.mem a)) (omega arith)
registers f (suc (suc (suc (suc (suc (suc (suc zero))))))) h =
    ap (λ (a : ℕ). some (f.mem a)) (omega arith)
registers f (suc (suc (suc (suc (suc (suc (suc (suc j)))))))) h = absurd (omega arith)

stack_words :
    (f : Fault) (j : ℕ)
    → j < 16
    → get_elem?
        (words (hard_fault_handler f))
        (suc (suc (suc (suc (suc (suc (suc (suc (suc (suc (suc (suc (suc (suc (suc j)))))))))))))))
      ≡ some (f.mem (f.msp + 48 + 4 * j))
unfolding hard_fault_handler
stack_words f j h = get_elem?-dump f 0 16 j h ∙ ap (λ (a : ℕ). some (f.mem a)) (omega arith)

-- The report of a hard fault, in the application, in the bootloader and on the supervisor, prints
-- the eight registers of the exception frame, twelve words above the stack pointer, and then the 16
-- words of the stack from there: word `j` of both is the memory word at `msp + 4 (12 + j)`.
pub hard_fault_handler-words :
    (f : Fault) (j : ℕ)
    → (j < 8 → get_elem? (words (hard_fault_handler f)) (7 + j) ≡ some (f.mem (f.msp + 48 + 4 * j)))
      × (j < 16
          → get_elem? (words (hard_fault_handler f)) (15 + j) ≡ some (f.mem (f.msp + 48 + 4 * j)))
      × (words (super_hard_fault_handler f) ≡ words (hard_fault_handler f))
      × (words (boot_hard_fault_handler f) ≡ words (hard_fault_handler f))
unfolding hard_fault_handler super_hard_fault_handler boot_hard_fault_handler
hard_fault_handler-words f j =
    let e : 7 + j ≡ suc (suc (suc (suc (suc (suc (suc j)))))) = omega arith in
    let e' : 15 + j
        ≡ suc
            (suc (suc (suc (suc (suc (suc (suc (suc (suc (suc (suc (suc (suc (suc j)))))))))))))) =
      omega arith in
    (λ h. rw e (registers f j h), λ h. rw e' (stack_words f j h), refl, refl)
