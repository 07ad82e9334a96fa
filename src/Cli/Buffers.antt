-- ===== src/Cli/Buffers.antt =====
-- The two name arrays of the command line stay NUL-terminated.
use latentred.Prelude.{
  Bool-cases, inl, inr, ℕ, suc, ◌≡◌, Bool, List, Option, none, some, arith, take, length, min,
}
use latentred.Prelude.CString.{
  c_str, zeroed, IsTerminated, zeroed-IsTerminated, strncpy-IsTerminated, get_or-zeroed,
  c_str-strncpy,
}
use latentred.Port.{InterfaceState}
use latentred.Cli.Grammar.{
  CommandId, Token, cmd_commit, cmd_hostname, cmd_rollback, cmd_show, cmd_ssh, cmd_username,
}
use latentred.Cli.Show.{on_show_command}
use latentred.Cli.System.{OnlyPrints, World, System, Session}
use latentred.Cli.Config.{
  stored_or, set_hostname, set_ssh_username, on_commit, on_rollback, checked, on_ssh_command,
  on_ip_command, on_no_command, on_ntp_server, on_reload,
}
use latentred.Cli.ReadOnly.{on_show_command-SameButOutput}
use latentred.Cli.Dispatch.{initialize, print_prompt, on_execute, execute}

-- Both arrays have their sizes, 33 and 32, with a NUL at the end.
pub record NamesOk {W : Type 0} (s : System W) : Type 0 where
  pub hostname_ok : IsTerminated 32 s.hostname
  pub username_ok : IsTerminated 31 s.ssh_username

pub stored_or-IsTerminated :
    (last : ℕ) (preset : List ℕ) (found : Option (List ℕ))
    → IsTerminated last (stored_or last preset found)
stored_or-IsTerminated last preset none =
    strncpy-IsTerminated last (zeroed (suc last)) preset last (omega arith)
      (zeroed-IsTerminated last)
stored_or-IsTerminated last preset (some obj) =
    strncpy-IsTerminated last (zeroed (suc last)) obj (min (length obj) last) (omega arith)
      (zeroed-IsTerminated last)

module _ {W : Type 0} (w : World W) (ports : ℕ → ℕ → InterfaceState)
    (line_card : System W → System W) where
  names-checked :
      (f : W → Bool × W) (s : System W)
      → ((checked w f s).hostname ≡ s.hostname) × ((checked w f s).ssh_username ≡ s.ssh_username)
  unfolding checked
  names-checked f s = ground arith

  pub names-on_commit :
      (s : System W)
      → ((on_commit w s).hostname ≡ s.hostname) × ((on_commit w s).ssh_username ≡ s.ssh_username)
  unfolding on_commit
  names-on_commit s = grind (arith, names-checked)

  set_hostname-NamesOk : (t : List ℕ) (s : System W) → NamesOk s → NamesOk (set_hostname w t s)
  unfolding set_hostname
  set_hostname-NamesOk t s h = record {
    hostname_ok = strncpy-IsTerminated 32 (zeroed 33) t 32 (omega arith) (zeroed-IsTerminated 32);
    username_ok = h.username_ok;
  }

  set_ssh_username-NamesOk :
      (t : List ℕ) (s : System W) → NamesOk s → NamesOk (set_ssh_username w t s)
  unfolding set_ssh_username
  set_ssh_username-NamesOk t s h = record {
    hostname_ok = h.hostname_ok;
    username_ok = strncpy-IsTerminated 31 s.ssh_username t 31 (omega arith) h.username_ok;
  }

  on_rollback-NamesOk : (s : System W) → NamesOk (on_rollback w s)
  unfolding on_rollback
  on_rollback-NamesOk s = record {
    hostname_ok = stored_or-IsTerminated 32 _ _;
    username_ok = stored_or-IsTerminated 31 _ _;
  }

  pub greeting-NamesOk :
      (c : Session) (s : System W)
      → NamesOk s
      → NamesOk (print_prompt w ports line_card c (initialize w ports line_card s))
  unfolding initialize print_prompt
  greeting-NamesOk c s h = elim (Bool-cases c.root_mode) [
    | inl e ↦
        rw e (record { hostname_ok = stored_or-IsTerminated 32 _ _; username_ok = h.username_ok })
    | inr e ↦
        rw e (record { hostname_ok = stored_or-IsTerminated 32 _ _; username_ok = h.username_ok })
  ]

  module _ (prints : OnlyPrints line_card) where
    show-NamesOk :
        (m : ℕ → Token) (s : System W) → NamesOk s → NamesOk (on_show_command ports line_card m s)
    show-NamesOk m s h =
        let same = on_show_command-SameButOutput w ports line_card prints m s in
        record {
          hostname_ok = rw same.hostname h.hostname_ok;
          username_ok = rw same.ssh_username h.username_ok;
        }

    ssh-NamesOk :
        (id : CommandId) (t u v : Token) (s : System W)
        → NamesOk s
        → NamesOk (on_ssh_command w id t u v s)
    unfolding on_ssh_command
    ssh-NamesOk cmd_username t u v s h = set_ssh_username-NamesOk t.text s h
    ssh-NamesOk _ t u v s h = ground arith

    execute-NamesOk :
        (id : CommandId) (m : ℕ → Token) (c : Session) (s : System W)
        → NamesOk s
        → NamesOk (execute w ports line_card id m c s)
    unfolding on_reload on_ip_command on_no_command on_ntp_server
    execute-NamesOk cmd_commit m c s h = ground (arith, names-on_commit s)
    execute-NamesOk cmd_hostname m c s h = set_hostname-NamesOk (m 1).text s h
    execute-NamesOk cmd_rollback m c s h = on_rollback-NamesOk s
    execute-NamesOk cmd_show m c s h = show-NamesOk m s h
    execute-NamesOk cmd_ssh m c s h = ssh-NamesOk (m 1).command_id (m 2) (m 3) (m 4) s h
    execute-NamesOk _ m c s h = ground arith

    -- Every command keeps both name arrays terminated inside their bounds, whatever the session, the
    -- tokens, the texts and the stored objects are, provided that showing the line card only prints.
    pub on_execute-NamesOk :
        (m : ℕ → Token) (c : Session) (s : System W)
        → NamesOk s
        → NamesOk (on_execute w ports line_card m c s)
    unfolding on_execute
    on_execute-NamesOk m c s h = ground (arith, execute-NamesOk (m 0).command_id m c s h)

  -- A reader of the host name after "hostname X" sees the first 32 characters of X, and of the user
  -- name after "ssh username X" the first 31, whatever names stood in the arrays before.
  pub names_after :
      (t : List ℕ) (s : System W)
      → NamesOk s
      → (c_str (set_hostname w t s).hostname ≡ take 32 (c_str t))
        × (c_str (set_ssh_username w t s).ssh_username ≡ take 31 (c_str t))
  unfolding set_hostname set_ssh_username
  names_after t s h = (
    c_str-strncpy (zeroed 33) t 32 (get_or-zeroed 32 32 (omega arith)),
    c_str-strncpy s.ssh_username t 31 h.username_ok.nul,
  )
