-- ===== src/Super/Wiring.antt =====
-- firmware/linecard/super/bsp/hwinit.cpp: BSP_Init of the supervisor and what it calls, as the
-- steps that it takes.
use Prim.Native.String.{String}
use latentred.Prelude.{ℕ, List, [], ◌∷◌, ◌++◌}
use latentred.Boot.Pins.{Pin, Bank, pin, gpio_a, super_uart_pins, super_spi_pins, super_i2c_pins}

-- One step: a pin given to a peripheral, an LED switched off, an interrupt enabled, the setup of the
-- external interrupt, and the calls of libraries.
pub data Step : Type 0 where
  peripheral_pin : Pin → Step
  fault_off sysok_off : Step
  save_cs : Pin → Step
  enable_irq : ℕ → Step
  enable_syscfg enable_spi_rx super_init app_init : Step
  exti_mux : ℕ → Bank → Step
  exti_enable exti_falling : ℕ → Step
  sleep : ℕ → Step
  log_line : String → Step

abbrev pub pin_steps : List Pin → List Step
pin_steps [] = []
pin_steps (p ∷ ps) = peripheral_pin p ∷ pin_steps ps

-- mgmt_cs_n
abbrev pub cs_pin : Pin
cs_pin = pin gpio_a 4

abbrev pub uart_steps : List Step
uart_steps = pin_steps super_uart_pins ++ (sleep 10 ∷ enable_irq 37 ∷ [])

abbrev pub gpio_steps : List Step
gpio_steps = log_line "Initializing GPIOs\n" ∷ fault_off ∷ sysok_off ∷ pin_steps super_i2c_pins

abbrev pub spi_steps : List Step
spi_steps =
    log_line "Initializing management SPI bus\n" ∷ pin_steps super_spi_pins
    ++ (save_cs cs_pin
        ∷ enable_syscfg
        ∷ enable_irq 10
        ∷ exti_mux 4 gpio_a
        ∷ exti_enable 4
        ∷ exti_falling 4
        ∷ enable_irq 35
        ∷ enable_spi_rx
        ∷ [])

abbrev pub bsp_steps : List Step
bsp_steps = gpio_steps ++ (super_init ∷ (spi_steps ++ (app_init ∷ [])))

-- the interrupts that steps enable, in their order
abbrev pub irqs_of : List Step → List ℕ
irqs_of [] = []
irqs_of (enable_irq n ∷ ss) = n ∷ irqs_of ss
irqs_of (s ∷ ss) = irqs_of ss
