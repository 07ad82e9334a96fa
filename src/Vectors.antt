-- ===== src/Vectors.antt =====
-- The interrupt vector tables and fault handlers: firmware/lcbringup/main/vectors.cpp, its copy
-- firmware/lcbringup/bl/vectors.cpp and firmware/linecard/super/main/vectors.cpp, with the place of
-- the application image in firmware/lcbringup/bl/mainloop.cpp.
pub mod Coverage
pub mod Faults
mod Examples
use Prim.Native.String.{String}
use latentred.Boot.Pins.{uart_pins}
use latentred.Super.Wiring.{Step, enable_irq, sleep, pin_steps, uart_steps, bsp_steps, irqs_of}
use latentred.Prelude.{ℕ, zero, suc, ◌+◌, ◌*◌, List, [], ◌∷◌, ◌++◌, replicate}

-- An entry: the initial stack, `_start`, or the function that runs.
pub data Handler : Type 0 where
  stack start nmi hard_fault mmu_fault bus_fault usage_fault default_isr : Handler
  uart4 spi_cs spi1 usart1 : Handler

-- The 16 system entries, the same in all three tables.
abbrev system_entries : List Handler
system_entries =
    stack ∷ start ∷ nmi ∷ hard_fault ∷ mmu_fault ∷ bus_fault ∷ usage_fault ∷ replicate 9 default_isr

-- vectorTable of the management controller: interrupt 52 of 163 is UART4
abbrev irqs_from_uart4 : List Handler
irqs_from_uart4 = uart4 ∷ replicate 110 default_isr

abbrev pub vector_table : List Handler
vector_table = system_entries ++ (replicate 52 default_isr ++ irqs_from_uart4)

-- vectorTable of its bootloader
abbrev boot_irqs_from_uart4 : List Handler
boot_irqs_from_uart4 = uart4 ∷ replicate 110 default_isr

abbrev pub boot_vector_table : List Handler
boot_vector_table = system_entries ++ (replicate 52 default_isr ++ boot_irqs_from_uart4)

-- vectorTable of the supervisor: interrupts 10, 35 and 37 of 85 are in use
abbrev pub super_vector_table : List Handler
super_vector_table =
    system_entries
    ++ (replicate 10 default_isr
        ++ (spi_cs
            ∷ (replicate 24 default_isr
                ++ (spi1 ∷ default_isr ∷ usart1 ∷ replicate 47 default_isr))))

-- BSP_InitUART of the management controller
abbrev pub console_steps : List Step
console_steps = pin_steps uart_pins ++ (enable_irq 52 ∷ sleep 10 ∷ [])

-- The interrupts that the setup code enables: NVIC_EnableIRQ in BSP_InitUART of
-- firmware/lcbringup/bsp/hwinit.cpp, and in the steps of the supervisor's BSP_InitUART and BSP_Init.
abbrev pub enabled_irqs : List ℕ
enabled_irqs = irqs_of console_steps

abbrev pub super_uart_irqs : List ℕ
super_uart_irqs = irqs_of uart_steps

abbrev pub super_spi_irqs : List ℕ
super_spi_irqs = irqs_of bsp_steps

-- What a handler does to the outside.
pub data Action : Type 0 where
  blocking_flush reset panic_shutdown hang : Action
  print : String → Action
  print_word : String → ℕ → Action

-- What a hard fault finds: the fault status registers, the main stack pointer and the memory, by the
-- addresses of its words.
pub record Fault : Type 0 where
  pub hfsr : ℕ
  pub mmfar : ℕ
  pub bfar : ℕ
  pub cfsr : ℕ
  pub ufsr : ℕ
  pub dfsr : ℕ
  pub msp : ℕ
  pub mem : ℕ → ℕ

-- `msp += 12` over words
abbrev pub frame : Fault → ℕ
frame f = f.msp + 4 * 12

-- the loop that prints the stack, from word `i` over the next `n`
abbrev pub dump_stack : Fault → ℕ → ℕ → List Action
dump_stack f i zero = []
dump_stack f i (suc n) =
    print_word "        %08x\n" (f.mem (frame f + 4 * i)) ∷ blocking_flush ∷ dump_stack f (suc i) n

abbrev report_fault : Fault → List Action
report_fault f =
    print "Hard fault\n"
    ∷ print_word "    HFSR  = %08x\n" f.hfsr
    ∷ print_word "    MMFAR = %08x\n" f.mmfar
    ∷ print_word "    BFAR  = %08x\n" f.bfar
    ∷ print_word "    CFSR  = %08x\n" f.cfsr
    ∷ print_word "    UFSR  = %08x\n" f.ufsr
    ∷ print_word "    DFSR  = %08x\n" f.dfsr
    ∷ print_word "    MSP   = %08x\n" (frame f)
    ∷ blocking_flush
    ∷ print_word "    r0    = %08x\n" (f.mem (frame f))
    ∷ print_word "    r1    = %08x\n" (f.mem (frame f + 4 * 1))
    ∷ print_word "    r2    = %08x\n" (f.mem (frame f + 4 * 2))
    ∷ print_word "    r3    = %08x\n" (f.mem (frame f + 4 * 3))
    ∷ print_word "    r12   = %08x\n" (f.mem (frame f + 4 * 4))
    ∷ print_word "    lr    = %08x\n" (f.mem (frame f + 4 * 5))
    ∷ print_word "    pc    = %08x\n" (f.mem (frame f + 4 * 6))
    ∷ print_word "    xpsr  = %08x\n" (f.mem (frame f + 4 * 7))
    ∷ print "    Stack:\n"
    ∷ blocking_flush
    ∷ dump_stack f 0 16

abbrev complain : String → List Action
complain text = blocking_flush ∷ print text ∷ blocking_flush ∷ hang ∷ []

-- HardFault_Handler of the management controller and of the supervisor
unfoldable pub hard_fault_handler : Fault → List Action
hard_fault_handler f = blocking_flush ∷ (report_fault f ++ hang ∷ [])

unfoldable pub super_hard_fault_handler : Fault → List Action
super_hard_fault_handler f = report_fault f ++ (panic_shutdown ∷ hang ∷ [])

-- The handlers of the management controller's application; those that no table of it names do
-- nothing here, and `uart4` is modelled in Super/Isr.
unfoldable pub run_handler : Handler → Fault → List Action
unfolding hard_fault_handler
run_handler nmi f = complain "NMI\n"
run_handler hard_fault f = hard_fault_handler f
run_handler mmu_fault f = complain "MMU fault\n"
run_handler bus_fault f = complain "Bus fault\n"
run_handler usage_fault f = complain "Usage fault\n"
run_handler default_isr f = complain "Unused interrupt vector called\n"
run_handler _ f = []

-- The bootloader's own copy of the handlers, in firmware/lcbringup/bl/vectors.cpp.
unfoldable pub boot_hard_fault_handler : Fault → List Action
boot_hard_fault_handler f = blocking_flush ∷ (report_fault f ++ hang ∷ [])

unfoldable pub run_boot_handler : Handler → Fault → List Action
unfolding boot_hard_fault_handler
run_boot_handler default_isr f = complain "Unused interrupt vector called\n"
run_boot_handler nmi f = complain "NMI\n"
run_boot_handler hard_fault f = boot_hard_fault_handler f
run_boot_handler bus_fault f = complain "Bus fault\n"
run_boot_handler usage_fault f = complain "Usage fault\n"
run_boot_handler mmu_fault f = complain "MMU fault\n"
run_boot_handler _ f = []

-- The handlers of the supervisor.
unfoldable pub run_super_handler : Handler → Fault → List Action
unfolding super_hard_fault_handler
run_super_handler nmi f = reset ∷ []
run_super_handler hard_fault f = super_hard_fault_handler f
run_super_handler mmu_fault f = reset ∷ []
run_super_handler bus_fault f = reset ∷ []
run_super_handler usage_fault f = reset ∷ []
run_super_handler default_isr f = reset ∷ []
run_super_handler _ f = []

-- g_appVector, g_appVersionOffset, g_flashSectorCount, g_flashSectorSize and g_appImageSize
abbrev pub app_vector : ℕ
app_vector = 0x8020000

abbrev pub app_version_offset : ℕ
app_version_offset = 0x2e0

abbrev pub app_image_size : ℕ
app_image_size = 5 * (128 * 1024)
