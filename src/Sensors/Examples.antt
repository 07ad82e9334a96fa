-- ===== src/Sensors/Examples.antt =====
-- The theorems of the sensors on a concrete bus.
use latentred.Prelude.{
  ℕ, ◌+◌, ◌*◌, ◌/◌, ◌%◌, ◌^◌, ◌≤◌, ◌<◌, ◌≡◌, refl, Bool, true, false, [], some, arith,
}
use latentred.Platform.{flag_mutex, flag_mutex-IsMutex}
use latentred.Port.{LineCard, poll_idle}
use latentred.PhyPoll.Sharing.{IsExclusive}
use latentred.Sensors.{Hardware, rail, print_power_rail, print_line_card_info}
use latentred.Sensors.Power.{ReadsWords, voltage_word, current_word, print_power_rail_numbers}
use latentred.Sensors.Access.{Finished, print_line_card_info_ends}
use latentred.Samples.{constants, port}

-- Every device answers with the same word; the state counts the transfers.
abbrev bus : Hardware ℕ
bus = record {
  blocking_write8 = λ addr value b. (true, b + 1);
  blocking_write = λ addr payload b. (true, b + 1);
  blocking_read16 = λ addr b. (some 2640, b + 1);
  get_temperature = λ phy b. (45, b);
}

bus-ReadsWords : ReadsWords bus
bus-ReadsWords = record { word = λ addr raw b h. ground arith }

-- 3.300 V, 1.319 A and not 1.320 A, 4.352 W
three_volts : (print_power_rail bus 0x80 "3V3" 0).0 ≡ rail "3V3" 3 300 1 319 4 352
unfolding print_power_rail
three_volts = refl

print_power_rail_numbers_example :
    let raw = current_word bus 0x80 0 in
    let v = voltage_word bus 0x80 0 * 5 / 4 in
    (i : ℕ) × ((print_power_rail bus 0x80 "3V3" 0).0 ≡ (
      let p = i * v / 1000 in
      rail "3V3" (v / 1000) (v % 1000) (i / 1000) (i % 1000) (p / 1000) (p % 1000)))
    × (2 * i ≤ raw)
    × (raw ≤ 2 * i + 2)
    × (v < 2 ^ 16)
    × (i * v < 2 ^ 31)
print_power_rail_numbers_example =
    print_power_rail_numbers bus 0x80 "3V3" 0 bus-ReadsWords (omega arith)

abbrev resting : LineCard Bool
resting = record {
  ports = λ i. port;
  mutex = false;
  has_mdio = true;
  task = record {
    card_index = 0;
    current_phy = 3;
    poll_state = poll_idle;
    link_state_changed = false;
  };
}

resting-IsExclusive :
    IsExclusive constants flag_mutex (record { card = resting; cli_holds = false })
resting-IsExclusive = record {
  in_range = omega arith;
  polling = λ active. absurd (active refl);
  resting = λ idle. refl;
}

print_line_card_info_ends_example :
    Finished bus constants flag_mutex 0
      (print_line_card_info bus constants flag_mutex 0 [] resting 0)
print_line_card_info_ends_example =
    print_line_card_info_ends bus constants flag_mutex flag_mutex-IsMutex 0 [] resting 0
      resting-IsExclusive (omega arith)
