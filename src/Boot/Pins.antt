-- ===== src/Boot/Pins.antt =====
-- The pins of both processors, in the order of the code: firmware/lcbringup/bsp/hwinit.cpp and
-- Init.cpp beside it in main, firmware/linecard/super/main and
-- firmware/linecard/super/bsp/hwinit.cpp.
use latentred.Prelude.{
  ℕ, zero, suc, ◌+◌, ◌*◌, ◌<◌, ◌≡◌, refl, Bool, true, not, ◌||◌, List, [], ◌∷◌, ◌++◌, some, arith,
  ◌==◌, get_or, get_elem?, length, holds_below, holds_below_sound,
}

pub data Bank : Type 0 where
  gpio_a gpio_b gpio_c gpio_d gpio_e gpio_g gpio_h : Bank

pub record Pin : Type 0 where
  pub bank : Bank
  pub number : ℕ

abbrev pub pin : Bank → ℕ → Pin
pin b n = record { bank = b; number = n }

-- g_leds, BSP_InitUART, InitFMC, InitI2C, and sfp_tx_disable of InitSCCB
abbrev pub led_pins : List Pin
led_pins = pin gpio_c 2 ∷ pin gpio_c 3 ∷ pin gpio_a 0 ∷ pin gpio_a 1 ∷ []

abbrev pub uart_pins : List Pin
uart_pins = pin gpio_a 12 ∷ pin gpio_a 11 ∷ []

-- NWAIT, which gets a pull-up
abbrev pub fmc_nwait : Pin
fmc_nwait = pin gpio_c 6

abbrev pub fmc_pins : List Pin
fmc_pins =
    pin gpio_d 14
    ∷ pin gpio_d 15
    ∷ pin gpio_d 0
    ∷ pin gpio_d 1
    ∷ pin gpio_e 7
    ∷ pin gpio_e 8
    ∷ pin gpio_e 9
    ∷ pin gpio_e 10
    ∷ pin gpio_e 11
    ∷ pin gpio_a 5
    ∷ pin gpio_b 14
    ∷ pin gpio_e 14
    ∷ pin gpio_e 15
    ∷ pin gpio_d 8
    ∷ pin gpio_d 9
    ∷ pin gpio_d 10
    ∷ pin gpio_d 11
    ∷ pin gpio_d 12
    ∷ pin gpio_d 13
    ∷ pin gpio_e 3
    ∷ pin gpio_e 4
    ∷ pin gpio_e 5
    ∷ pin gpio_e 6
    ∷ pin gpio_e 2
    ∷ pin gpio_g 13
    ∷ pin gpio_g 14
    ∷ pin gpio_b 7
    ∷ fmc_nwait
    ∷ pin gpio_c 7
    ∷ pin gpio_g 6
    ∷ pin gpio_d 3
    ∷ pin gpio_d 4
    ∷ pin gpio_d 5
    ∷ pin gpio_e 0
    ∷ pin gpio_e 1
    ∷ []

abbrev pub i2c_pins : List Pin
i2c_pins = pin gpio_h 4 ∷ pin gpio_h 5 ∷ []

abbrev pub sccb_pins : List Pin
sccb_pins = pin gpio_b 0 ∷ []

abbrev pub controller_pins : List Pin
controller_pins = led_pins ++ (uart_pins ++ (fmc_pins ++ (i2c_pins ++ sccb_pins)))

-- The supervisor: LEDs, BSP_InitUART, InitSPI, InitGPIOs, the rails, the resets and ButtonTask
abbrev pub super_led_pins : List Pin
super_led_pins = pin gpio_a 2 ∷ pin gpio_a 1 ∷ pin gpio_a 0 ∷ []

abbrev pub super_uart_pins : List Pin
super_uart_pins = pin gpio_a 9 ∷ pin gpio_a 10 ∷ []

abbrev pub super_spi_pins : List Pin
super_spi_pins = pin gpio_a 5 ∷ pin gpio_a 7 ∷ pin gpio_a 4 ∷ pin gpio_a 6 ∷ []

abbrev pub super_i2c_pins : List Pin
super_i2c_pins = pin gpio_b 6 ∷ pin gpio_b 7 ∷ []

abbrev pub rail_pins : List Pin
rail_pins =
    pin gpio_b 13
    ∷ pin gpio_b 14
    ∷ pin gpio_b 15
    ∷ pin gpio_a 8
    ∷ pin gpio_a 11
    ∷ pin gpio_a 12
    ∷ []

abbrev pub reset_pins : List Pin
reset_pins = pin gpio_c 13 ∷ pin gpio_b 9 ∷ pin gpio_b 0 ∷ pin gpio_b 1 ∷ []

abbrev pub button_pins : List Pin
button_pins = pin gpio_b 10 ∷ pin gpio_b 11 ∷ []

abbrev pub super_pins : List Pin
super_pins =
    super_led_pins
    ++ (super_uart_pins
        ++ (super_spi_pins ++ (super_i2c_pins ++ (rail_pins ++ (reset_pins ++ button_pins)))))

abbrev bank_index : Bank → ℕ
bank_index gpio_a = 0
bank_index gpio_b = 1
bank_index gpio_c = 2
bank_index gpio_d = 3
bank_index gpio_e = 4
bank_index gpio_g = 6
bank_index gpio_h = 7

abbrev pin_index : Pin → ℕ
pin_index p = 16 * bank_index p.bank + p.number

abbrev index_at : List Pin → ℕ → ℕ
index_at ps i = pin_index (get_or ps i (pin gpio_a 0))

apart_table : List Pin → Bool
apart_table ps =
    holds_below (length ps)
      (λ i. holds_below (length ps) (λ j. not (index_at ps i == index_at ps j) || (i == j)))

get_or-get_elem? :
    {A : Type 0} (xs : List A) (i : ℕ) (x a : A)
    → get_elem? xs i ≡ some x
    → (get_or xs i a ≡ x) × (i < length xs)
get_or-get_elem? [] i x a h = cc
get_or-get_elem? (y ∷ xs) zero x a h = ground arith
get_or-get_elem? (y ∷ xs) (suc i) x a h =
    let r = get_or-get_elem? xs i x a h in (r.0, omega (arith, r.1))

apart :
    (ps : List Pin) (i j : ℕ) (p : Pin)
    → apart_table ps ≡ true
    → get_elem? ps i ≡ some p
    → get_elem? ps j ≡ some p
    → i ≡ j
unfolding apart_table
apart ps i j p h hi hj =
    let a = get_or-get_elem? ps i p (pin gpio_a 0) hi in
    let b = get_or-get_elem? ps j p (pin gpio_a 0) hj in
    ground
      (arith, a, b, holds_below_sound (length ps) _ j (holds_below_sound (length ps) _ i h a.1) b.1)

controller_table : apart_table controller_pins ≡ true
unfolding apart_table holds_below
controller_table = refl

super_table : apart_table super_pins ≡ true
unfolding apart_table holds_below
super_table = refl

-- No pin of the management controller is given to two functions, nor one of the supervisor: two places
-- of its list that hold the same pin of the same bank are the same place.
pub pins_apart :
    (i j : ℕ) (p : Pin)
    → (get_elem? controller_pins i ≡ some p → get_elem? controller_pins j ≡ some p → i ≡ j)
      × (get_elem? super_pins i ≡ some p → get_elem? super_pins j ≡ some p → i ≡ j)
pins_apart i j p =
    (apart controller_pins i j p controller_table, apart super_pins i j p super_table)
