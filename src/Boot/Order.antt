-- ===== src/Boot/Order.antt =====
-- What the startup leaves, on success and on failure.
use latentred.Prelude.{ℕ, ◌+◌, ◌≤◌, ◌<◌, ◌≡◌, ◌↔◌, true, false, List, [], ◌∷◌, none, arith, length}
use latentred.Platform.{Constants}
use latentred.Tasks.{phy_poll, fpga, ip_aging_1hz, ip_aging_10hz, local_console, no_tasks}
use latentred.Boot.{Devices, Board, fpga_led, qsfp0_lpmode, qsfp0_rst_n, init_line_card_phy}
use latentred.Boot.Bsp.{bsp_init}

module _ {B M : Type 0} (d : Devices B) (k : Constants) (free : M)
    (printf : List ℕ → List ℕ → List ℕ) where
  -- The two PHYs of the line card come up exactly if the first one does and then, after its transmit
  -- tap was set, the second one. A first one that fails leaves the second one alone, and a PHY that
  -- fails gets no tap. In every case the reset and low-power pins of the QSGMII port are high.
  pub init_line_card_phy_lanes :
      (b : Board B M)
      → let (up, after) = init_line_card_phy d k free printf b in
        let first = d.init_phy 0 b.devices in
        let second = d.init_phy 1 (d.set_tap 0 4 first.1) in
        ((up ≡ true) ↔ ((first.0 ≡ true) × (second.0 ≡ true)))
        × (first.0 ≡ false → after.devices ≡ first.1)
        × (first.0 ≡ true → second.0 ≡ false → after.devices ≡ second.1)
        × (up ≡ true → after.devices ≡ d.set_tap 1 4 second.1)
        × (after.fpga_pins qsfp0_rst_n ≡ true)
        × (after.fpga_pins qsfp0_lpmode ≡ true)
  unfolding init_line_card_phy
  init_line_card_phy_lanes b = ground arith

  -- A startup from empty task tables and with no ports, if it returns, has registered the five
  -- tasks in this order, the three timers among them, within the 8 and 5 places of the tables; one
  -- that does not return has registered none, and has set up no ports. Either way its own sleeps
  -- are 20250 ticks of 100 µs.
  pub bsp_init_tasks :
      (b : Board B M)
      → b.tables ≡ no_tasks
      → b.port_state ≡ none
      → let (up, after) = bsp_init d k free printf b in
        (up ≡ true
          → (after.tables.tasks
              ≡ phy_poll 0 ∷ fpga ∷ ip_aging_1hz ∷ ip_aging_10hz ∷ local_console ∷ [])
            × (after.tables.timer_tasks ≡ phy_poll 0 ∷ ip_aging_1hz ∷ ip_aging_10hz ∷ []))
        × (up ≡ false → (after.tables ≡ no_tasks) × (after.port_state ≡ none))
        × (length after.tables.tasks ≤ 8)
        × (length after.tables.timer_tasks ≤ 5)
        × (after.slept ≡ b.slept + 20250)
  unfolding bsp_init
  bsp_init_tasks b empty no_ports = ground arith

  -- A startup that begins with no pin of the FPGA initialised turns its four LEDs on after it has
  -- initialised them, but writes the low-power and the reset pin of the QSFP port, in this order,
  -- before anything has initialised them, and never initialises them: these two are the only such
  -- writes, whether the startup returns or not.
  pub bsp_init_early_pins :
      (b : Board B M)
      → b.initialised ≡ (λ p. false)
      → b.too_early ≡ []
      → let after = (bsp_init d k free printf b).1 in
        (after.too_early ≡ qsfp0_lpmode ∷ qsfp0_rst_n ∷ [])
        × (after.initialised qsfp0_lpmode ≡ false)
        × (after.initialised qsfp0_rst_n ≡ false)
        × ((i : ℕ)
            → i < 4
            → (after.initialised (fpga_led i) ≡ true) × (after.fpga_pins (fpga_led i) ≡ true))
  unfolding bsp_init
  bsp_init_early_pins b fresh none_early = ground arith
