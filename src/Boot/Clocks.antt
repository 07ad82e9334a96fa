-- ===== src/Boot/Clocks.antt =====
-- The serial ports and the I2C buses as firmware/lcbringup/bsp/hwinit.cpp and
-- firmware/linecard/super/bsp/hwinit.cpp declare them, with the clocks that their comments name.
use latentred.Prelude.{ℕ, ◌-◌, ◌*◌, ◌≤◌, ◌<◌, arith, if◌then◌else◌, ltb}

-- UART<…>(device, divisor): the sizes of its two buffers and the divisor of its clock
pub record Uart : Type 0 where
  pub first_size : ℕ
  pub second_size : ℕ
  pub divisor : ℕ

-- I2C(device, prescale, divider)
pub record I2c : Type 0 where
  pub prescale : ℕ
  pub divider : ℕ

-- g_cliUART
abbrev cli_uart : Uart
cli_uart = record { first_size = 32; second_size = 256; divisor = 543 }

-- g_macI2C
abbrev mac_i2c : I2c
mac_i2c = record { prescale = 16; divider = 40 }

-- g_uart of the supervisor
abbrev super_uart : Uart
super_uart = record { first_size = 16; second_size = 256; divisor = 694 }

-- g_i2c of the supervisor
abbrev super_i2c : I2c
super_i2c = record { prescale = 4; divider = 50 }

-- the clocks in hertz, and the rate of both serial ports
abbrev pclk1 : ℕ
pclk1 = 62_500_000

abbrev pclk2 : ℕ
pclk2 = 68_750_000

abbrev super_apb : ℕ
super_apb = 80_000_000

abbrev baud : ℕ
baud = 115_200

-- how far `divisor` times the rate is from the clock
abbrev off : ℕ → ℕ → ℕ
off clock divisor =
    if ltb clock (baud * divisor) then baud * divisor - clock else clock - baud * divisor

-- No divisor comes closer to 115.2 kbit/s than those in use, which are off by less than a part in a
-- thousand; the I2C buses run at no more than 400 kHz.
divisors_nearest :
    (d : ℕ)
    → (off pclk1 cli_uart.divisor ≤ off pclk1 d)
      × (off super_apb super_uart.divisor ≤ off super_apb d)
      × (1000 * off pclk1 cli_uart.divisor < pclk1)
      × (1000 * off super_apb super_uart.divisor < super_apb)
      × (pclk2 ≤ 400_000 * (mac_i2c.prescale * mac_i2c.divider))
      × (super_apb ≤ 400_000 * (super_i2c.prescale * super_i2c.divider))
divisors_nearest d =
    (ground arith, ground arith, ground arith, ground arith, omega arith, omega arith)
