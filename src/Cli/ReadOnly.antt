-- ===== src/Cli/ReadOnly.antt =====
-- The "show" commands change nothing but the output, and what may ask for a reset.
use latentred.Prelude.{ℕ, ◌≡◌, ◌⊎◌, Bool, true, false, arith}
use latentred.Prelude.CString.{bytes, c_str, str_same_iff}
use latentred.Port.{InterfaceState}
use latentred.Cli.Grammar.{
  CommandId, Token, cmd_hardware, cmd_show, cmd_zeroize, cmd_reload, cmd_commit,
}
use latentred.Cli.System.{World, System, Session, OnlyPrints}
use latentred.Cli.Config.{
  on_commit, on_rollback, checked, on_reload, on_ip_command, on_no_command, on_ntp_server,
  on_ssh_command, set_hostname,
}
use latentred.Cli.Show.{
  on_show_command, show, on_show_flash, on_show_hardware, on_show_interface_status, on_show_version,
}
use latentred.Cli.Dispatch.{on_execute, execute}

-- Two states that differ in the output at most.
pub record SameButOutput {W : Type 0} (s t : System W) : Type 0 where
  pub world : t.world ≡ s.world
  pub hostname : t.hostname ≡ s.hostname
  pub ssh_username : t.ssh_username ≡ s.ssh_username
  pub ip : t.ip ≡ s.ip
  pub reset_requested : t.reset_requested ≡ s.reset_requested

module _ {W : Type 0} (w : World W) (ports : ℕ → ℕ → InterfaceState)
    (line_card : System W → System W) (prints : OnlyPrints line_card) where
  hardware-SameButOutput : (s : System W) → SameButOutput s (on_show_hardware line_card s)
  unfolding on_show_hardware
  hardware-SameButOutput s = record {
    world = prints.world_kept _;
    hostname = prints.hostname_kept _;
    ssh_username = prints.username_kept _;
    ip = prints.ip_kept _;
    reset_requested = prints.reset_kept _;
  }

  show-SameButOutput :
      (id : CommandId) (m : ℕ → Token) (s : System W)
      → SameButOutput s (show ports line_card id m s)
  unfolding on_show_flash on_show_interface_status on_show_version
  show-SameButOutput cmd_hardware m s = hardware-SameButOutput s
  show-SameButOutput _ m s = ground arith

  -- A "show" command leaves the flash store, the key manager, the NTP client, the names, the IP
  -- configuration and the reset request as they are, whatever follows the word "show", provided that
  -- showing the line card does no more than print.
  pub on_show_command-SameButOutput :
      (m : ℕ → Token) (s : System W) → SameButOutput s (on_show_command ports line_card m s)
  unfolding on_show_command
  on_show_command-SameButOutput m s = show-SameButOutput (m 1).command_id m s

  reset-checked :
      (f : W → Bool × W) (s : System W) → (checked w f s).reset_requested ≡ s.reset_requested
  unfolding checked
  reset-checked f s = ground arith

  reset-on_commit : (s : System W) → (on_commit w s).reset_requested ≡ s.reset_requested
  unfolding on_commit
  reset-on_commit s = grind (arith, reset-checked)

  reset-execute :
      (id : CommandId) (m : ℕ → Token) (c : Session) (s : System W)
      → s.reset_requested ≡ false
      → (execute w ports line_card id m c s).reset_requested ≡ true
      → (id ≡ cmd_reload) ⊎ ((id ≡ cmd_zeroize) × (c_str (m 1).text ≡ c_str (bytes "all")))
  unfolding on_ip_command on_no_command on_ntp_server on_ssh_command set_hostname on_rollback
      on_reload
  reset-execute cmd_commit m c s before after = ground (arith, reset-on_commit s)
  reset-execute cmd_show m c s before after =
      ground (arith, (on_show_command-SameButOutput m s).reset_requested)
  reset-execute cmd_zeroize m c s before after =
      ground (arith, str_same_iff (m 1).text (bytes "all"))
  reset-execute _ m c s before after = ground arith

  -- A command that asks for a reset, where none was asked for before, is "reload", or "zeroize"
  -- followed by exactly "all", provided that showing the line card does no more than print.
  pub on_execute_reset :
      (m : ℕ → Token) (c : Session) (s : System W)
      → s.reset_requested ≡ false
      → (on_execute w ports line_card m c s).reset_requested ≡ true
      → ((m 0).command_id ≡ cmd_reload)
        ⊎ (((m 0).command_id ≡ cmd_zeroize) × (c_str (m 1).text ≡ c_str (bytes "all")))
  unfolding on_execute
  on_execute_reset m c s before after = ground (arith, reset-execute (m 0).command_id m c s)
