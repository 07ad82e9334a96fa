-- ===== src/Super/Powered.antt =====
-- The supervisor from BSP_Init on: InitGPIOs, App_Init with its call of PowerOn, then the tasks.
use latentred.Prelude.{ℕ, ◌≡◌, false, List}
use latentred.Super.{Panel, called_on, on_hooks, init_gpios}
use latentred.Super.Startup.{Startup, Build, super_app_init}
use latentred.Super.Machine.{
  PowerTask, Machine, Pass, FaultIsFinal, on_hooks-IsSafe, init_gpios-IsSafe,
  run_passes-FaultIsFinal,
}

module _ {S : Type 0} (t : PowerTask S) (printf : List ℕ → List ℕ) (build : Build) where
  -- the machine when App_Init returns; PowerOn may call hooks before any task runs, and `OnFault`
  -- may be one of them
  unfoldable pub power_up : Panel → Startup S → Machine S
  unfolding super_app_init
  power_up p s = record {
    blinking = false;
    button_down = false;
    power = (super_app_init t.ctl printf build s).controller;
    panel = on_hooks (t.hooks_of_call called_on s.controller) (init_gpios p);
  }

  -- From BSP_Init on, with the power-on of App_Init, in whatever order the three tasks run,
  -- whatever the button does and whichever hooks the power controller calls: the fault LED is lit
  -- exactly if the supervisor has stopped for a fault; and it is not lit, or the LEDs that the
  -- blinking task and the other hooks drive are off and no later pass of any task changes anything.
  pub power_up-FaultIsFinal :
      (ps later : List Pass) (p : Panel) (s : Startup S)
      → p.halted ≡ false
      → FaultIsFinal t ps later (power_up p s)
  unfolding power_up
  power_up-FaultIsFinal ps later p s running = run_passes-FaultIsFinal t ps later (power_up p s) (
      on_hooks-IsSafe (t.hooks_of_call called_on s.controller) (init_gpios p)
        (init_gpios-IsSafe p running))
