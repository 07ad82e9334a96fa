-- ===== src/Boot/Bsp.antt =====
-- BSP_Init of firmware/lcbringup/bsp/hwinit.cpp and what it calls there, around App_Init.
use latentred.Prelude.{ℕ, Bool, true, false, List, [], ◌∷◌, ltb, ◌==◌, if◌then◌else◌}
use latentred.Platform.{Constants}
use latentred.Boot.Pins.{Pin, fmc_nwait, fmc_pins, i2c_pins}
use latentred.Boot.{Devices, Board, FpgaPin, fpga_led, text, reading, note_all, app_init}

module _ {B M : Type 0} (d : Devices B) (k : Constants) (free : M)
    (printf : List ℕ → List ℕ → List ℕ) where
  -- `for(auto& led : g_fpgaLEDs) led.DeferredInit()`
  abbrev pub deferred_init : (FpgaPin → Bool) → FpgaPin → Bool
  deferred_init done (fpga_led i) = if ltb i 4 then true else done (fpga_led i)
  deferred_init done p = done p

  unfoldable pub take_pins : List Pin → B → B
  take_pins [] b = b
  take_pins (p ∷ ps) b = take_pins ps (d.peripheral_pin p b)

  unfoldable pub init_fmc : Board B M → Board B M
  init_fmc b = record (note_all (text "Initializing FMC...\n" ∷ []) b) {
    devices = d.init_fmc_for_fpga (d.pull_up fmc_nwait (take_pins fmc_pins b.devices));
    initialised = deferred_init b.initialised;
  }

  unfoldable pub init_i2c : Board B M → Board B M
  init_i2c b = record (note_all (text "Initializing I2C interfaces\n" ∷ []) b) {
    devices = take_pins i2c_pins b.devices;
  }

  unfoldable pub init_itm : Board B M → Board B M
  init_itm b =
      if d.debug
      then record (note_all (text "Initializing ITM\n" ∷ []) b) {
        devices = d.enable_trace b.devices;
      }
      else b

  -- BSP_Init up to App_Init
  unfoldable pub before_app : Board B M → Board B M
  unfolding init_fmc init_i2c init_itm
  before_app b =
      let b1 = init_fmc (record b { devices = d.init_clocks b.devices }) in
      let b2 = init_i2c (record b1 { devices = d.init_fpga_and_kvs b1.devices }) in
      init_itm (record b2 { devices = d.init_eeprom_and_ip b2.devices })

  unfoldable pub init_fpga_flash : Board B M → Board B M
  init_fpga_flash b =
      let (sr, d1) = d.status_register b.devices in
      let (nvcr, d2) = d.nvcr d1 in
      let d3 = if nvcr == 0xffff then d2 else d.write_nvcr 0xffff d2 in
      note_all
        (text "Initializing FPGA flash\n"
          ∷ reading "SR   = %04x\n" sr
          ∷ reading "NVCR = %04x\n" nvcr
          ∷ [])
        (record b { devices = d.sfdp_test d3 })

  -- BSP_Init: the flash is set up only after App_Init
  abbrev pub then_flash : Bool × Board B M → Bool × Board B M
  then_flash (true, b) = (true, init_fpga_flash b)
  then_flash (false, b) = (false, b)

  unfoldable pub bsp_init : Board B M → Bool × Board B M
  unfolding before_app app_init init_fpga_flash
  bsp_init b = then_flash (app_init d k free printf (before_app b))
