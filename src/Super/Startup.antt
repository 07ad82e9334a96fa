-- ===== src/Super/Startup.antt =====
-- firmware/linecard/super/main/Init.cpp: the order of the power rails and of the resets, and App_Init
-- of the supervisor.
use Prim.Native.String.{String}
use latentred.Prelude.{
  Bool, true, false, if◌then◌else◌, ◌==◌, get_or, ◌+◌, length-append, ℕ, zero, suc, ◌≤◌, ◌<◌, ◌≡◌,
  refl, List, [], ◌∷◌, ◌++◌, some, arith, length, get_elem?,
}
use latentred.Boot.Pins.{Pin, pin, gpio_a, gpio_b, gpio_c, rail_pins}
use latentred.Super.{Controller}

pub data Rail : Type 0 where
  rail_1v0 rail_1v0_2 rail_2v5 : Rail

-- RailDescriptorWithEnableAndPGood: its name, its pins, and the timeout that it is given, in ticks of
-- 100 µs
pub record RailDescriptor : Type 0 where
  pub name : String
  pub enable : Pin
  pub pgood : Pin
  pub timeout : ℕ

abbrev pub rail_descriptor : Rail → RailDescriptor
rail_descriptor rail_1v0 = record {
  name = "1V0";
  enable = pin gpio_b 13;
  pgood = pin gpio_b 14;
  timeout = 75;
}
rail_descriptor rail_1v0_2 = record {
  name = "1V0_2";
  enable = pin gpio_b 15;
  pgood = pin gpio_a 8;
  timeout = 75;
}
rail_descriptor rail_2v5 = record {
  name = "2V5";
  enable = pin gpio_a 11;
  pgood = pin gpio_a 12;
  timeout = 75;
}

-- The reset descriptors, with their PHY.
pub data Reset : Type 0 where
  power_down reset : (phy : ℕ) → Reset

-- ActiveHighResetDescriptorWithDelay and ActiveLowResetDescriptorWithDelay: the delay that each is
-- given
pub record ResetDescriptor : Type 0 where
  pub name : String
  pub pin : Pin
  pub active_high : Bool
  pub delay : ℕ

abbrev pub reset_descriptor : Reset → ResetDescriptor
reset_descriptor (power_down phy) =
    if phy == 0
    then record { name = "PHY0 PD"; pin = pin gpio_c 13; active_high = true; delay = 50 }
    else record { name = "PHY1 PD"; pin = pin gpio_b 0; active_high = true; delay = 50 }
reset_descriptor (reset phy) =
    if phy == 0
    then record { name = "PHY0 RST"; pin = pin gpio_b 9; active_high = false; delay = 50 }
    else record { name = "PHY1 RST"; pin = pin gpio_b 1; active_high = false; delay = 2500 }

abbrev pub power_sequence : List Rail
power_sequence = rail_1v0 ∷ rail_1v0_2 ∷ rail_2v5 ∷ []

abbrev pub reset_sequence : List Reset
reset_sequence = power_down 0 ∷ power_down 1 ∷ reset 0 ∷ reset 1 ∷ []

pub data SuperTask : Type 0 where
  led_task button_task supervisor_task : SuperTask

pub record Startup (S : Type 0) : Type 0 where
  pub controller : S
  pub tasks : List SuperTask
  pub timer_tasks : List SuperTask
  pub pull_ups : List Rail  -- the rails whose power-good pin has its pull-up
  pub version : List ℕ  -- g_version
  pub trace : Bool  -- the trace unit is on
  pub rtc_clock : Bool  -- the RTC has its clock
  pub log : List (String × List ℕ)  -- a format, with the text that it takes

-- `Printf("%s %c%c%c%c%c%c", __DATE__, ...)`: the date, and the digits of a time HH:MM:SS
unfoldable pub version_text : (date time : List ℕ) → List ℕ
version_text date time =
    let digit = get_or time in
    date ++ (b' ' ∷ digit 0 0 ∷ digit 1 0 ∷ digit 3 0 ∷ digit 4 0 ∷ digit 6 0 ∷ digit 7 0 ∷ [])

-- What the build fills in: __DATE__, __TIME__, and whether _DEBUG is defined.
pub record Build : Type 0 where
  pub date : List ℕ
  pub time : List ℕ
  pub debug : Bool

-- App_Init. `printf` is StringBuffer's, into the array of the version that the library has.
unfoldable pub super_app_init :
    {S : Type 0} → Controller S → (List ℕ → List ℕ) → Build → Startup S → Startup S
unfolding version_text
super_app_init ctl printf build s = record {
  rtc_clock = true;
  version = printf (version_text build.date build.time);
  log = s.log ++ ("Firmware version %s\n", printf (version_text build.date build.time)) ∷ [];
  trace = if build.debug then true else s.trace;
  controller = ctl.power_on s.controller;
  tasks = s.tasks ++ led_task ∷ button_task ∷ supervisor_task ∷ [];
  timer_tasks = s.timer_tasks ++ led_task ∷ [];
  pull_ups = s.pull_ups ++ rail_1v0 ∷ rail_1v0_2 ∷ rail_2v5 ∷ [];
}

down_place : (i p : ℕ) → get_elem? reset_sequence i ≡ some (power_down p) → i < 2
down_place zero p h = omega arith
down_place (suc zero) p h = omega arith
down_place (suc (suc zero)) p h = cc
down_place (suc (suc (suc zero))) p h = cc
down_place (suc (suc (suc (suc i)))) p h = cc

reset_place : (j q : ℕ) → get_elem? reset_sequence j ≡ some (reset q) → 2 ≤ j
reset_place zero q h = cc
reset_place (suc zero) q h = cc
reset_place (suc (suc j)) q h = omega arith

downs_first :
    (i j p q : ℕ)
    → get_elem? reset_sequence i ≡ some (power_down p)
    → get_elem? reset_sequence j ≡ some (reset q)
    → i < j
downs_first i j p q hi hj = omega (arith, down_place i p hi, reset_place j q hj)

-- The supervisor starts with its tasks registered, within the 5 and 2 places of its tables, and
-- asks its controller for power; every rail of the power sequence then has the pull-up of its
-- power-good pin. In the reset sequence each of the two PHYs leaves power-down before any PHY
-- leaves reset.
super_app_init_ready :
    {S : Type 0} (ctl : Controller S) (printf : List ℕ → List ℕ) (build : Build) (s : Startup S)
    → s.tasks ≡ []
    → s.timer_tasks ≡ []
    → s.pull_ups ≡ []
    → let t = super_app_init ctl printf build s in
      (t.controller ≡ ctl.power_on s.controller)
      × (t.pull_ups ≡ power_sequence)
      × (length t.tasks ≤ 5)
      × (length t.timer_tasks ≤ 2)
      × ((i j p q : ℕ)
          → get_elem? reset_sequence i ≡ some (power_down p)
          → get_elem? reset_sequence j ≡ some (reset q)
          → i < j)
unfolding super_app_init
super_app_init_ready ctl printf build s a b c =
    (refl, ground arith, ground arith, ground arith, λ i j p q. downs_first i j p q)

abbrev pins_of : List Rail → List Pin
pins_of [] = []
pins_of (r ∷ rs) = (rail_descriptor r).enable ∷ (rail_descriptor r).pgood ∷ pins_of rs

-- The rails of the power sequence are on the pins that Boot/Pins keeps apart from all others.
pins_of-power_sequence : pins_of power_sequence ≡ rail_pins
pins_of-power_sequence = refl

abbrev delays_of : List Reset → ℕ
delays_of [] = 0
delays_of (r ∷ rs) = (reset_descriptor r).delay + delays_of rs

-- The delays of the resets are 265 ms together.
delays_of-reset_sequence : delays_of reset_sequence ≡ 2650
delays_of-reset_sequence = refl

-- The version is seven characters longer than the date.
length-version_text : (date time : List ℕ) → length (version_text date time) ≡ length date + 7
unfolding version_text
length-version_text date time = length-append date _
