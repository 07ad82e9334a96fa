-- ===== src/Console.antt =====
-- firmware/lcbringup/main/LocalConsoleTask.h: the command line on the serial port.
use latentred.Prelude.{
  Bool, false, ◌++◌, ℕ, ◌≡◌, refl, true, List, [], ◌∷◌, Option, none, some, length, ==_refl,
}
use latentred.Port.{InterfaceState}
use latentred.Prelude.CString.{bytes, c_str}
use latentred.Cli.System.{World, System, Session, prompt, flush}
use latentred.Cli.Dispatch.{initialize, print_prompt}
use latentred.Cli.Spec.{saved_names}
use latentred.Ssh.{ShellOps, type_all, on_rx_shell_data}
use latentred.Ssh.Shell.{take-whole}

-- the session on the serial port; whether it starts in root mode is the base class's to say
abbrev pub local_session : Bool → Session
local_session root = record {
  root_mode = root;
  over_ssh = false;
  id = 0;
  username = bytes "localadmin";
}

module _ {W : Type 0} (w : World W) (ports : ℕ → ℕ → InterfaceState)
    (line_card : System W → System W) where
  -- The constructor: the session is initialised and prints its first prompt.
  unfoldable pub new_console : Bool → System W → System W
  unfolding initialize print_prompt
  new_console root s =
      print_prompt w ports line_card (local_session root) (initialize w ports line_card s)

  -- The first prompt of a console in root mode names the user of the serial port and the host name
  -- that is saved.
  new_console_prompt :
      (s : System W)
      → (new_console true s).out
        ≡ (s.out ++ prompt (c_str (bytes "localadmin")) (saved_names w s.world).host ∷ [])
          ++ flush ∷ []
  unfolding new_console
  new_console_prompt s = refl

module _ {C S : Type 0} (sh : ShellOps C S) where
  -- One pass: a byte that waits goes to the session, with echo.
  unfoldable pub console_iteration : Option ℕ → C → S → C × S
  console_iteration none c s = (c, s)
  console_iteration (some key) c s = sh.on_keystroke key true c s

  unfoldable pub console_run : List (Option ℕ) → C → S → C × S
  console_run [] c s = (c, s)
  console_run (input ∷ inputs) c s =
      let (c', s') = console_iteration input c s in console_run inputs c' s'

-- the bytes among the inputs of the passes
abbrev pub received : List (Option ℕ) → List ℕ
received [] = []
received (none ∷ inputs) = received inputs
received (some key ∷ inputs) = key ∷ received inputs

module _ {C S : Type 0} (sh : ShellOps C S) where
  console_run-type_all :
      (inputs : List (Option ℕ)) (c : C) (s : S)
      → console_run sh inputs c s ≡ type_all sh true (received inputs) c s
  unfolding console_run console_iteration
  console_run-type_all [] c s = refl
  console_run-type_all (none ∷ inputs) c s = console_run-type_all inputs c s
  console_run-type_all (some key ∷ inputs) c s =
      let (c', s') = sh.on_keystroke key true c s in console_run-type_all inputs c' s'

  -- The serial console and an SSH shell with the same context end with the same one, and in the
  -- same shared state, for the same bytes, whichever passes of the main loop the bytes arrive in
  -- and however the SSH client packs them.
  pub console_run_shell :
      (inputs : List (Option ℕ)) (id : ℕ) (x : (ℕ → C) × S)
      → let by_ssh = on_rx_shell_data sh id (received inputs) (length (received inputs)) x in
        let by_uart = console_run sh inputs (x.0 id) x.1 in
        (by_ssh.0 id ≡ by_uart.0) × (by_ssh.1 ≡ by_uart.1)
  unfolding on_rx_shell_data
  console_run_shell inputs id x =
      let same = console_run-type_all inputs (x.0 id) x.1 in
      (rw same (simp (take-whole, ==_refl) refl), rw same (simp take-whole refl))
