-- ===== src/Tasks.antt =====
-- The task tables of firmware/lcbringup/main/globals.cpp: every task of the main loop by its name.
use latentred.Prelude.{ℕ, List, []}

-- The objects that the firmware registers: the polling task of a line card, and those of `App_Init`.
pub data Task : Type 0 where
  phy_poll : ℕ → Task
  fpga ip_aging_1hz ip_aging_10hz local_console : Task

pub record TaskTables : Type 0 where
  pub tasks : List Task
  pub timer_tasks : List Task

abbrev pub no_tasks : TaskTables
no_tasks = record { tasks = []; timer_tasks = [] }
