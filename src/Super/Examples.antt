-- ===== src/Super/Examples.antt =====
-- The theorems of the supervisor on concrete passes.
use latentred.Prelude.{
  Option, ltb, ◌%◌, ◌^◌, ℕ, ◌+◌, ◌≡◌, refl, Bool, true, false, List, [], ◌∷◌, ◌++◌, some, none,
  arith, length, if◌then◌else◌,
}
use latentred.Super.{
  Controller, ButtonReads, button_run, Panel, power_on_hook, fault_hook, on_hooks, on_hook,
  button_iteration,
}
use latentred.Super.Controls.{presses, button_run-presses, faulted}
use latentred.Super.Machine.{
  PowerTask, Machine, Pass, led_pass, button_pass, power_pass, act, run_passes, FaultIsFinal,
}
use latentred.Prelude.CString.{bytes}
use latentred.Super.Startup.{Startup, Build}
use latentred.Super.Powered.{power_up, power_up-FaultIsFinal}
use latentred.Super.Isr.{SpiDriver, Spi}
use latentred.Super.Traffic.{IsFifo, Interrupt, data_irq, cs_irq, interrupts, interrupts_accounts}

-- A controller that is its power switch.
abbrev switch : Controller Bool
switch = record {
  is_power_on = λ s. s;
  is_resets_done = λ s. s;
  power_on = λ s. true;
  power_off = λ s. false;
}

abbrev read : Bool → ButtonReads
read b = record { first = b; last = b }

abbrev two_presses : List ButtonReads
two_presses = read true ∷ read true ∷ read false ∷ read true ∷ []

button_run-presses_example :
    length (button_run switch two_presses false false).2 ≡ presses false two_presses
button_run-presses_example =
    button_run-presses switch two_presses false false (refl, (refl, (refl, (refl, tt))))

abbrev dark : Panel
dark = record { fault = false; sysok = false; pgood = false; halted = false }

-- A controller that faults in the first pass that finds it switched on.
abbrev faulty : PowerTask Bool
faulty = record {
  ctl = switch;
  iterate = λ s. false;
  hooks_of_iterate = λ s. if s then fault_hook ∷ [] else [];
  hooks_of_call = λ call s. power_on_hook ∷ [];
}

abbrev machine : Machine Bool
machine = record { blinking = false; button_down = false; power = false; panel = dark }

-- The button is pressed, the LED goes on, and the controller faults.
abbrev day : List Pass
day = led_pass false ∷ button_pass (read true) ∷ led_pass true ∷ power_pass ∷ led_pass true ∷ []

day_ends : (run_passes faulty day machine).panel ≡ faulted
unfolding run_passes act on_hooks button_iteration on_hook
day_ends = refl

abbrev build : Build
build = record { date = bytes "Nov 26 2025"; time = bytes "12:34:56"; debug = false }

abbrev reset : Startup Bool
reset = record {
  controller = false;
  tasks = [];
  timer_tasks = [];
  pull_ups = [];
  version = [];
  trace = false;
  rtc_clock = false;
  log = [];
}

power_up-FaultIsFinal_example :
    FaultIsFinal faulty day (led_pass true ∷ []) (power_up faulty (λ text. text) build dark reset)
power_up-FaultIsFinal_example =
    power_up-FaultIsFinal faulty (λ text. text) build day (led_pass true ∷ []) dark reset refl

-- A driver with room for two received bytes.
record Buffers : Type 0 where
  rx : List ℕ
  tx : List ℕ

abbrev pop : List ℕ → List ℕ → Option ℕ × Buffers
pop rx [] = (none, record { rx = rx; tx = [] })
pop rx (b ∷ bs) = (some b, record { rx = rx; tx = bs })

abbrev queue : SpiDriver Buffers
queue = record {
  on_irq_rx_data =
      λ b f. if ltb (length f.rx) 2 then (true, record f { rx = f.rx ++ b ∷ [] }) else (false, f);
  next_tx_byte = λ f. pop f.rx f.tx;
  on_cs_edge = λ rising f. f;
}

pop_sends :
    (rx tx : List ℕ) (b : ℕ)
    → (pop rx tx).0 ≡ some b
    → (tx ≡ b ∷ (pop rx tx).1.tx) × ((pop rx tx).1.rx ≡ rx)
pop_sends rx [] b e = cc
pop_sends rx (c ∷ cs) b e = (cc, refl)

pop_idles :
    (rx tx : List ℕ) → (pop rx tx).0 ≡ none → ((pop rx tx).1.tx ≡ tx) × ((pop rx tx).1.rx ≡ rx)
pop_idles rx [] e = (refl, refl)
pop_idles rx (c ∷ cs) e = cc

queue-IsFifo : IsFifo queue (λ f. f.rx) (λ f. f.tx)
queue-IsFifo = record {
  accepts = λ b f kept. ground arith;
  refuses = λ b f lost. ground arith;
  sends = λ f b e. pop_sends f.rx f.tx b e;
  idles = λ f e. pop_idles f.rx f.tx e;
  selects = λ rising f. (refl, refl);
}

abbrev spi : Spi Buffers
spi = record {
  driver = record { rx = 9 ∷ []; tx = 4 ∷ 5 ∷ [] };
  overflows = 0;
  tx_irq = true;
  sent = [];
  pending = false;
}

abbrev byte : ℕ → Interrupt
byte b = data_irq (record { rx_not_empty = true; tx_empty = true; dr = b })

-- Two bytes arrive, of which the second finds no room, and the two that wait are sent.
abbrev transfer : List Interrupt
transfer = cs_irq ∷ byte 1 ∷ byte 2 ∷ []

interrupts_accounts_example :
    let t = interrupts queue transfer spi in
    (t.sent ++ t.driver.tx ≡ [] ++ 4 ∷ 5 ∷ [])
    × ((t.overflows + length t.driver.rx) % 2 ^ 32 ≡ (0 + 1 + 2) % 2 ^ 32)
interrupts_accounts_example =
    interrupts_accounts queue (λ f. f.rx) (λ f. f.tx) queue-IsFifo transfer spi
