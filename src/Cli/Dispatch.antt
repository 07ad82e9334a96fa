-- ===== src/Cli/Dispatch.antt =====
-- LatentRedCLISessionContext.cpp: the prompt and the dispatcher of a complete command.
use latentred.Prelude.{ℕ, List, [], get_or, if◌then◌else◌}
use latentred.Prelude.CString.{bytes, c_str, str_same}
use latentred.Port.{InterfaceState}
use latentred.Cli.Grammar.{
  CommandId, cmd_commit, cmd_exit, cmd_flash, cmd_compact, cmd_hostname, cmd_ip, cmd_no, cmd_ntp,
  cmd_server, cmd_reload, cmd_rollback, cmd_show, cmd_ssh, cmd_zeroize, invalid_command, Token,
}
use latentred.Cli.System.{printf, prompt, flush, log_error, World, System, Session, say, on_world}
use latentred.Cli.Config.{
  load_hostname, on_commit, on_rollback, on_reload, set_hostname, on_ip_command, on_ntp_server,
  on_no_command, on_ssh_command,
}
use latentred.Cli.Show.{on_show_command}

-- `m_command`: past the tokens of the line every entry is invalid.
abbrev pub command : List Token → ℕ → Token
command ts i = get_or ts i (record { command_id = invalid_command; text = [] })

module _ {W : Type 0} (w : World W) (ports : ℕ → ℕ → InterfaceState)
    (line_card : System W → System W) where
  unfoldable pub print_prompt : Session → System W → System W
  print_prompt c s =
      say flush (if c.root_mode then say (prompt (c_str c.username) (c_str s.hostname)) s else s)

  -- `Initialize` for a stream, up to the base class: the session gets the stored host name
  unfoldable pub initialize : System W → System W
  unfolding load_hostname
  initialize s = load_hostname w s

  abbrev on_exit : Session → System W → System W
  on_exit c s = let t = say flush s in if c.over_ssh then on_world (w.disconnect c.id) t else t

  abbrev on_flash : CommandId → System W → System W
  on_flash cmd_compact s =
      let (done, world) = w.compact s.world in
      let t = record s { world = world } in
      if done then t else say (log_error "Compaction failed\n") t
  on_flash _ s = s

  abbrev on_ntp : CommandId → Token → System W → System W
  on_ntp cmd_server t s = on_ntp_server w t.text s
  on_ntp _ t s = s

  abbrev on_zeroize : Token → System W → System W
  on_zeroize t s = if str_same t.text (bytes "all") then on_reload w (on_world w.wipe_all s) else s

  -- the switch over the first token
  abbrev pub execute : CommandId → (ℕ → Token) → Session → System W → System W
  execute cmd_commit m c s = on_commit w s
  execute cmd_exit m c s = on_exit c s
  execute cmd_flash m c s = on_flash (m 1).command_id s
  execute cmd_hostname m c s = set_hostname w (m 1).text s
  execute cmd_ip m c s = on_ip_command w (m 1).command_id (m 2) s
  execute cmd_no m c s = on_no_command w (m 1).command_id (m 2) (m 3) s
  execute cmd_ntp m c s = on_ntp (m 1).command_id (m 2) s
  execute cmd_reload m c s = on_reload w s
  execute cmd_rollback m c s = on_rollback w s
  execute cmd_show m c s = on_show_command ports line_card m s
  execute cmd_ssh m c s = on_ssh_command w (m 1).command_id (m 2) (m 3) (m 4) s
  execute cmd_zeroize m c s = on_zeroize (m 1) s
  execute _ m c s = say (printf "Unrecognized command\n") s

  unfoldable pub on_execute_root : (ℕ → Token) → Session → System W → System W
  unfolding on_commit set_hostname on_ip_command on_no_command on_ntp_server on_reload on_rollback
      on_show_command on_ssh_command str_same
  on_execute_root m c s = execute (m 0).command_id m c s

  unfoldable pub on_execute : (ℕ → Token) → Session → System W → System W
  unfolding on_execute_root
  on_execute m c s = say flush (if c.root_mode then on_execute_root m c s else s)
