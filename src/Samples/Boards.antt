-- ===== src/Samples/Boards.antt =====
-- A concrete board before its startup, with devices that answer at once.
use latentred.Prelude.{ℕ, Bool, true, false, List, [], some, none}
use latentred.Tasks.{no_tasks}
use latentred.Sensors.{Hardware}
use latentred.Boot.{Devices, Board}

-- Devices whose state is the configuration register of the flash.
abbrev pub hardware : Hardware ℕ
hardware = record {
  blocking_write8 = λ addr value b. (true, b);
  blocking_write = λ addr payload b. (true, b);
  blocking_read16 = λ addr b. (some 400, b);
  get_temperature = λ phy b. (45, b);
}

abbrev pub devices : Devices ℕ
devices = record {
  hardware = hardware;
  init_phy = λ lane b. (true, b);
  set_tap = λ lane tap b. b;
  init_dts = λ b. b;
  die_temp = λ b. 40;
  volt_core = λ b. 1;
  volt_ram = λ b. 1;
  volt_aux = λ b. 2;
  init_clocks = λ b. b;
  peripheral_pin = λ p b. b;
  pull_up = λ p b. b;
  init_fmc_for_fpga = λ b. b;
  init_fpga_and_kvs = λ b. b;
  init_eeprom_and_ip = λ b. b;
  enable_trace = λ b. b;
  debug = true;
  status_register = λ b. (0, b);
  nvcr = λ b. (b, b);
  write_nvcr = λ v b. v;
  sfdp_test = λ b. b;
}

abbrev pub print_text : List ℕ → List ℕ → List ℕ
print_text a text = text

abbrev pub cold : Board ℕ Bool
cold = record {
  devices = 7;
  interrupts = false;
  leds = λ i. false;
  fpga_pins = λ p. false;
  initialised = λ p. false;
  too_early = [];
  tx_disable = true;
  slept = 0;
  tables = no_tasks;
  port_state = none;
  log = [];
}
