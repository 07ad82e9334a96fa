-- ===== src/Boot/Examples.antt =====
-- The theorems of the startup on a concrete board.
use latentred.Prelude.{
  ℕ, ◌+◌, ◌≤◌, ◌<◌, ◌≡◌, refl, true, false, [], ◌∷◌, some, none, length, get_elem?,
}
use latentred.Tasks.{phy_poll, fpga, ip_aging_1hz, ip_aging_10hz, local_console, no_tasks}
use latentred.Boot.{fpga_led, qsfp0_lpmode, qsfp0_rst_n}
use latentred.Boot.Bsp.{bsp_init}
use latentred.Boot.Order.{bsp_init_tasks, bsp_init_early_pins}
use latentred.Boot.Pins.{controller_pins, super_pins, pin, gpio_a, pins_apart}
use latentred.Boot.Flash.{IsConfigurable}
use latentred.Samples.{constants}
use latentred.Samples.Boards.{devices, print_text, cold}

abbrev led : ℕ
led = 3

devices-IsConfigurable : IsConfigurable devices
devices-IsConfigurable = record {
  written = λ v b. refl;
  read_only = λ b. refl;
  status_only = λ b. refl;
  test_only = λ b. refl;
}

bsp_init_tasks_example :
    let (up, after) = bsp_init devices constants false print_text cold in
    (up ≡ true
      → (after.tables.tasks ≡ phy_poll 0 ∷ fpga ∷ ip_aging_1hz ∷ ip_aging_10hz ∷ local_console ∷ [])
        × (after.tables.timer_tasks ≡ phy_poll 0 ∷ ip_aging_1hz ∷ ip_aging_10hz ∷ []))
    × (up ≡ false → (after.tables ≡ no_tasks) × (after.port_state ≡ none))
    × (length after.tables.tasks ≤ 8)
    × (length after.tables.timer_tasks ≤ 5)
    × (after.slept ≡ 0 + 20250)
bsp_init_tasks_example = bsp_init_tasks devices constants false print_text cold refl refl

bsp_init_early_pins_example :
    let after = (bsp_init devices constants false print_text cold).1 in
    (after.too_early ≡ qsfp0_lpmode ∷ qsfp0_rst_n ∷ [])
    × (after.initialised qsfp0_lpmode ≡ false)
    × (after.initialised qsfp0_rst_n ≡ false)
    × ((i : ℕ)
        → i < 4
        → (after.initialised (fpga_led i) ≡ true) × (after.fpga_pins (fpga_led i) ≡ true))
bsp_init_early_pins_example = bsp_init_early_pins devices constants false print_text cold refl refl

pins_apart_example :
    (get_elem? controller_pins led ≡ some (pin gpio_a 1)
      → get_elem? controller_pins led ≡ some (pin gpio_a 1)
      → led ≡ led)
    × (get_elem? super_pins led ≡ some (pin gpio_a 1)
        → get_elem? super_pins led ≡ some (pin gpio_a 1)
        → led ≡ led)
pins_apart_example = pins_apart led led (pin gpio_a 1)
