-- ===== src/Sensors.antt =====
-- The sensors of a line card: PrintLineCardInfo, PrintPowerRail, GetVoltage and GetCurrent of
-- firmware/lcbringup/main/LatentRedCLISessionContext.cpp, and InitLineCardSensors and
-- InitTempSensor of firmware/lcbringup/main/Init.cpp.
pub mod Current
pub mod Power
pub mod Access
mod Examples
use Prim.Native.String.{String}
use latentred.Prelude.{
  ℕ, ◌+◌, ◌*◌, ◌/◌, ◌%◌, ◌≤◌, Bool, true, false, List, [], ◌∷◌, ◌++◌, Option, none, some, ltb,
  if◌then◌else◌,
}
use latentred.Ieee.{Float, single, double, round, from_int, convert, multiply, divide, truncate}
use latentred.Platform.{Constants, CooperativeMutex}
use latentred.Port.{LineCard}
use latentred.PhyPoll.{Effect}
use latentred.PhyPoll.Sharing.{cli_unlock}
use latentred.PhyPoll.Waiting.{Moment, wait_lock}

-- The I2C bus and the PHYs; `B` is the state of both. A read gives no value if it fails.
pub record Hardware (B : Type 0) : Type 0 where
  pub blocking_write8 : (addr value : ℕ) → B → Bool × B
  pub blocking_write : (addr : ℕ) → List ℕ → B → Bool × B
  pub blocking_read16 : (addr : ℕ) → B → Option ℕ × B
  pub get_temperature : (phy : ℕ) → B → ℕ × B

-- What the commands print; a number stands for the argument of its format.
pub data Line : Type 0 where
  card_title : ℕ → Line
  heading : String → Line
  temperature : String → ℕ → Line
  -- name, then volts, amperes and watts with their thousandths
  rail : String → (v v_milli i i_milli p p_milli : ℕ) → Line
  -- the conversion of the voltage is undefined in C++, and so is what is printed
  rail_undefined : String → Line
  sensor_ready : String → ℕ → Line
  sensor_failed : String → ℕ → Line

-- `return 1.25 * vraw` as `uint16_t`: the product is exact in `double`; a result from 65536 on does
-- not fit, which C++ leaves undefined.
unfoldable pub voltage_of : ℕ → Option ℕ
voltage_of raw = let v = raw * 5 / 4 in if ltb v 0x10000 then some v else none

-- The doubles 0.0000025 and 0.005
abbrev pub volts_per_bit : Float
volts_per_bit = round double 25 10000000 0

abbrev pub shunt_ohms : Float
shunt_ohms = round double 5 1000 0

-- `float vshunt = iraw * 0.0000025`, `float ishunt = vshunt / 0.005` and `ishunt * 1000`: the first
-- two are computed in `double`
unfoldable pub milliamperes_of : ℕ → Float
unfolding round
milliamperes_of raw =
    let vshunt = convert single (multiply double (from_int raw) volts_per_bit) in
    let ishunt = convert single (divide double vshunt shunt_ohms) in
    multiply single ishunt (from_int 1000)

-- the conversion to `uint16_t`, which is undefined for a number that does not fit
unfoldable pub current_of : ℕ → Option ℕ
unfolding milliamperes_of
current_of raw = let i = truncate (milliamperes_of raw) in if ltb i 0x10000 then some i else none

module _ {B : Type 0} (hw : Hardware B) where
  -- The register that a request to `pointer` reads, if both transfers succeed.
  abbrev pub read_register : ℕ → ℕ → B → Option ℕ × B
  read_register addr pointer b =
      let (sent, b') = hw.blocking_write8 addr pointer b in
      let answer = hw.blocking_read16 addr b' in if sent then answer else (none, b')

  abbrev pub or_zero : (ℕ → Option ℕ) → Option ℕ → Option ℕ
  or_zero f none = some 0
  or_zero f (some raw) = f raw

  -- a transfer that fails counts as 0
  unfoldable pub get_voltage : ℕ → B → Option ℕ × B
  unfolding voltage_of
  get_voltage addr b = let (raw, b') = read_register addr 0x02 b in (or_zero voltage_of raw, b')

  unfoldable pub get_current : ℕ → B → Option ℕ × B
  unfolding current_of
  get_current addr b = let (raw, b') = read_register addr 0x01 b in (or_zero current_of raw, b')

  -- the product and the quotient of `auto p = i * v / 1000`
  abbrev pub rail_line : String → Option ℕ → Option ℕ → Line
  rail_line name (some v) (some i) =
      let p = i * v / 1000 in
      rail name (v / 1000) (v % 1000) (i / 1000) (i % 1000) (p / 1000) (p % 1000)
  rail_line name _ _ = rail_undefined name

  unfoldable pub print_power_rail : ℕ → String → B → Line × B
  unfolding get_voltage get_current
  print_power_rail addr name b =
      let (v, b1) = get_voltage addr b in
      let (i, b2) = get_current addr b1 in (rail_line name v i, b2)

  -- A PCB sensor that does not answer prints nothing.
  abbrev pcb_line : String → Option ℕ → List Line
  pcb_line name none = []
  pcb_line name (some t) = temperature name t ∷ []

  unfoldable pub print_temperatures : B → List Line × B
  print_temperatures b =
      let (t0, b1) = hw.blocking_read16 0x90 b in
      let (p0, b2) = hw.get_temperature 0 b1 in
      let (t1, b3) = hw.blocking_read16 0x92 b2 in
      let (p1, b4) = hw.get_temperature 1 b3 in
      let (t2, b5) = hw.blocking_read16 0x94 b4 in
      (
        heading "    Temperatures:\n"
            ∷ (pcb_line "PHY 0 (PCB)" t0
                ++ (temperature "PHY 0 (int)" p0
                    ∷ (pcb_line "PHY 1 (PCB)" t1
                        ++ (temperature "PHY 1 (int)" p1 ∷ pcb_line "PSU (PCB)" t2)))),
        b5,
      )

  unfoldable pub print_power : B → List Line × B
  unfolding print_power_rail
  print_power b =
      let (l0, b1) = print_power_rail 0x80 "3V3" b in
      let (l1, b2) = print_power_rail 0x82 "2V5" b1 in
      let (l2, b3) = print_power_rail 0x84 "1V0" b2 in
      let (l3, b4) = print_power_rail 0x86 "1V0_2" b3 in
      (
        heading "    Power:\n"
            ∷ heading "        +------------+---------+---------+--------+\n"
            ∷ heading "        | Rail       | Voltage | Current |  Power |\n"
            ∷ heading "        +------------+---------+---------+--------+\n"
            ∷ l0
            ∷ l1
            ∷ l2
            ∷ l3
            ∷ heading "         +------------+---------+---------+-------+\n"
            ∷ [],
        b4,
      )

  -- Everything after the lock: the temperatures are read inside it, the power outside.
  abbrev pub with_lock :
      {M : Type 0}
      → Constants
      → CooperativeMutex M
      → ℕ
      → B
      → Option (LineCard M × List Effect)
      → Option (List Line × LineCard M × B)
  with_lock k x ncard b none = none
  with_lock k x ncard b (some (c, es)) =
      let (temps, b1) = print_temperatures b in
      let (power, b2) = print_power b1 in
      some (card_title ncard ∷ (temps ++ power), cli_unlock k x c, b2)

  -- `none` if the moments to come end while the loop still waits for the mutex
  unfoldable pub print_line_card_info :
      {M : Type 0}
      → Constants
      → CooperativeMutex M
      → ℕ
      → List Moment
      → LineCard M
      → B
      → Option (List Line × LineCard M × B)
  unfolding print_temperatures print_power
  print_line_card_info k x ncard ms c b = with_lock k x ncard b (wait_lock k x ms c)

  -- InitTempSensor: each failure ends the setup with one error line
  unfoldable pub init_temp_sensor : ℕ → String → B → Line × B
  init_temp_sensor addr name b =
      let (programmed, b1) = hw.blocking_write addr (0x01 ∷ 0x60 ∷ 0x00 ∷ []) b in
      let (pointed, b2) = hw.blocking_write8 addr 0x00 b1 in
      let (reply, b3) = hw.blocking_read16 addr b2 in
      if programmed
      then (if pointed
          then (elim reply [ none ↦ sensor_failed name addr | some t ↦ sensor_ready name t ], b3)
          else (sensor_failed name addr, b2))
      else (sensor_failed name addr, b1)

  unfoldable pub init_line_card_sensors : ℕ → B → List Line × B
  unfolding init_temp_sensor
  init_line_card_sensors idx b =
      let (l0, b1) = init_temp_sensor 0x90 "PHY 0" b in
      let (l1, b2) = init_temp_sensor 0x92 "PHY 1" b1 in
      let (l2, b3) = init_temp_sensor 0x94 "PSU" b2 in (card_title idx ∷ l0 ∷ l1 ∷ l2 ∷ [], b3)
