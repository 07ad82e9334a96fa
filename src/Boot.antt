-- ===== src/Boot.antt =====
-- The startup of the management controller: the board, and App_Init with what it calls in
-- firmware/lcbringup/main/Init.cpp. BSP_Init around it is in Boot/Bsp.
pub mod Bsp
pub mod Order
pub mod Flash
pub mod Pins
pub mod Loader
mod Clocks
mod Examples
use Prim.Native.String.{String}
use latentred.Prelude.{
  ℕ, zero, suc, ◌+◌, Bool, true, false, List, [], ◌∷◌, ◌++◌, Option, some, ltb, ◌==◌, if◌then◌else◌,
}
use latentred.Platform.{Constants}
use latentred.Boot.Pins.{Pin}
use latentred.Tasks.{Task, fpga, ip_aging_1hz, ip_aging_10hz, local_console, TaskTables}
use latentred.Port.{PortState, new_port_state}
use latentred.Sensors.{Hardware, Line, init_line_card_sensors}

-- What the startup calls outside; `B` is the state of the board's devices.
pub record Devices (B : Type 0) : Type 0 where
  pub hardware : Hardware B
  -- VSC8512::Init and SetSerdes6GPostCursor0Tap of the PHY of a lane
  pub init_phy : (lane : ℕ) → B → Bool × B
  pub set_tap : (lane tap : ℕ) → B → B
  pub init_dts : B → B
  -- registers of FXADC
  pub die_temp : B → ℕ
  pub volt_core : B → ℕ
  pub volt_ram : B → ℕ
  pub volt_aux : B → ℕ
  -- what BSP_Init calls before App_Init: InitializePLL and InitRTCFromHSE, InitFMCForFPGA, InitFPGA
  -- and DoInitKVS, InitMacEEPROM and InitIP, and the trace unit's three calls
  pub init_clocks : B → B
  -- the constructor of a GPIOPin for a peripheral, and SetPullMode(PULL_UP)
  pub peripheral_pin : Pin → B → B
  pub pull_up : Pin → B → B
  pub init_fmc_for_fpga : B → B
  pub init_fpga_and_kvs : B → B
  pub init_eeprom_and_ip : B → B
  pub enable_trace : B → B
  pub debug : Bool  -- whether the build defines _DEBUG
  -- APB_SpiFlashInterface
  pub status_register : B → ℕ × B
  pub nvcr : B → ℕ × B
  pub write_nvcr : ℕ → B → B
  pub sfdp_test : B → B

pub data Entry : Type 0 where
  text : String → Entry
  reading : String → ℕ → Entry
  sensor : Line → Entry
  fpga_info : Entry

-- The pins of the FPGA, which are declared with INIT_DEFERRED.
pub data FpgaPin : Type 0 where
  fpga_led : ℕ → FpgaPin
  qsfp0_lpmode qsfp0_rst_n : FpgaPin

abbrev pub same_pin : FpgaPin → FpgaPin → Bool
same_pin (fpga_led i) (fpga_led j) = i == j
same_pin qsfp0_lpmode qsfp0_lpmode = true
same_pin qsfp0_rst_n qsfp0_rst_n = true
same_pin _ _ = false

-- The board, as the startup sees it.
pub record Board (B M : Type 0) : Type 0 where
  pub devices : B
  pub interrupts : Bool
  pub leds : ℕ → Bool
  pub fpga_pins : FpgaPin → Bool
  pub initialised : FpgaPin → Bool  -- DeferredInit was called
  pub too_early : List FpgaPin  -- writes to a pin before that, in order
  pub tx_disable : Bool  -- sfp_tx_disable
  pub slept : ℕ  -- ticks of 100 µs that were slept so far
  pub tables : TaskTables
  pub port_state : Option (PortState M)
  pub log : List Entry

abbrev pub note_all : {B M : Type 0} → List Entry → Board B M → Board B M
note_all es b = record b { log = b.log ++ es }

abbrev pub sleep : {B M : Type 0} → ℕ → Board B M → Board B M
sleep n b = record b { slept = b.slept + n }

-- `pin = value`
unfoldable pub write_pin : {B M : Type 0} → FpgaPin → Bool → Board B M → Board B M
write_pin p value b = record b {
  fpga_pins = λ q. if same_pin q p then value else b.fpga_pins q;
  too_early = if b.initialised p then b.too_early else b.too_early ++ p ∷ [];
}

abbrev pub sensor_entries : List Line → List Entry
sensor_entries [] = []
sensor_entries (l ∷ ls) = sensor l ∷ sensor_entries ls

module _ {B M : Type 0} (d : Devices B) (k : Constants) (free : M)
    (printf : List ℕ → List ℕ → List ℕ) where
  unfoldable pub init_leds : Board B M → Board B M
  unfolding write_pin
  init_leds b =
      let b' = record b { leds = λ i. if ltb i 4 then true else b.leds i } in
      write_pin (fpga_led 3) true
        (write_pin (fpga_led 2) true (write_pin (fpga_led 1) true (write_pin (fpga_led 0) true b')))

  unfoldable pub init_sensors : Board B M → Board B M
  init_sensors b =
      let (lines, devices) = init_line_card_sensors d.hardware 0 b.devices in
      note_all
        (text "Initializing sensors\n"
          ∷ reading "FPGA die temperature:              %uhk C\n" (d.die_temp b.devices)
          ∷ reading "FPGA VCCINT:                        %uhk V\n" (d.volt_core b.devices)
          ∷ reading "FPGA VCCBRAM:                       %uhk V\n" (d.volt_ram b.devices)
          ∷ reading "FPGA VCCAUX:                        %uhk V\n" (d.volt_aux b.devices)
          ∷ sensor_entries lines)
        (record b { devices = devices })

  unfoldable pub init_sccb : Board B M → Board B M
  init_sccb b = note_all (fpga_info ∷ []) (
      sleep 10000 (record (note_all (text "Initializing SCCB link to remote FPGA\n" ∷ []) b) {
        tx_disable = false;
      }))

  -- the loop over the PHYs, from `lane` over the next `n`: the first that fails ends it
  unfoldable pub init_lanes : ℕ → ℕ → Board B M → Bool × Board B M
  init_lanes lane zero b = (true, b)
  init_lanes lane (suc n) b =
      let (up, devices) = d.init_phy lane b.devices in
      let rest = init_lanes (suc lane) n (record b { devices = d.set_tap lane 4 devices }) in
      if up then rest else (false, record b { devices = devices })

  unfoldable pub init_line_card_phy : Board B M → Bool × Board B M
  unfolding init_lanes write_pin
  init_line_card_phy b = init_lanes 0 2 (
      sleep 250 (
        write_pin qsfp0_rst_n true
          (write_pin qsfp0_lpmode true (note_all (text "Initializing line card PHYs\n" ∷ []) b))))

  -- the constructor of the static PortState registers the polling task
  unfoldable pub init_interfaces : Board B M → Board B M
  unfolding new_port_state
  init_interfaces b =
      let (ports, tables) = new_port_state k free printf b.tables in
      record (note_all (text "Initializing switch ports\n" ∷ []) b) {
        port_state = some ports;
        tables = tables;
      }

  unfoldable pub register_tasks : TaskTables → TaskTables
  register_tasks t = record {
    tasks = t.tasks ++ fpga ∷ ip_aging_1hz ∷ ip_aging_10hz ∷ local_console ∷ [];
    timer_tasks = t.timer_tasks ++ ip_aging_1hz ∷ ip_aging_10hz ∷ [];
  }

  -- the rest of App_Init, once the PHYs are up or one of them has failed
  unfoldable pub finish : Bool × Board B M → Bool × Board B M
  unfolding init_interfaces register_tasks
  finish (true, b) =
      let b' = init_interfaces b in (true, record b' { tables = register_tasks b'.tables })
  finish (false, b) =
      (false, note_all (text "Unrecoverable hardware failure initializing line card\n" ∷ []) b)

  -- from EnableInterrupts to InitSCCB
  unfoldable pub before_phys : Board B M → Board B M
  unfolding init_leds init_sensors init_sccb
  before_phys b =
      let b1 = init_leds (sleep 10000 (record b { interrupts = true })) in
      init_sccb (init_sensors (record b1 { devices = d.init_dts b1.devices }))

  -- App_Init: whether it returns; where a PHY fails it stays in an endless loop
  unfoldable pub app_init : Board B M → Bool × Board B M
  unfolding finish before_phys init_line_card_phy
  app_init b = finish (init_line_card_phy (before_phys b))
