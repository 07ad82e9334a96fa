-- ===== src/Vectors/Examples.antt =====
-- The theorems of the vector tables at concrete entries.
use latentred.Prelude.{◌+◌, ◌*◌, ◌%◌, ◌<◌, ◌≡◌, ◌≢◌, ◌↔◌, true, some, arith, get_elem?}
use latentred.Vectors.{
  default_isr, vector_table, enabled_irqs, Fault, hard_fault_handler, super_hard_fault_handler,
  boot_hard_fault_handler,
}
use latentred.Vectors.Coverage.{listed, irq_entry, vector_table_coverage}
use latentred.Vectors.Faults.{words, hard_fault_handler-words}

vector_table_coverage_example :
    (listed 52 enabled_irqs ≡ true) ↔ (irq_entry vector_table 52 ≢ default_isr)
vector_table_coverage_example = vector_table_coverage 52 (omega arith)

abbrev crash : Fault
crash = record {
  hfsr = 0x40000000;
  mmfar = 0;
  bfar = 0;
  cfsr = 0x8200;
  ufsr = 0;
  dfsr = 0;
  msp = 0x20010000;
  mem = λ a. a % 256;
}

hard_fault_handler-words_example :
    (2 < 8
      → get_elem? (words (hard_fault_handler crash)) (7 + 2)
        ≡ some (crash.mem (crash.msp + 48 + 4 * 2)))
    × (2 < 16
        → get_elem? (words (hard_fault_handler crash)) (15 + 2)
          ≡ some (crash.mem (crash.msp + 48 + 4 * 2)))
    × (words (super_hard_fault_handler crash) ≡ words (hard_fault_handler crash))
    × (words (boot_hard_fault_handler crash) ≡ words (hard_fault_handler crash))
hard_fault_handler-words_example = hard_fault_handler-words crash 2
