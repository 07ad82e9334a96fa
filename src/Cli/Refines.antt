-- ===== src/Cli/Refines.antt =====
-- The commands refine the changes of Cli/Spec, one by one and over whole runs.
use latentred.Prelude.{ℕ, ◌≡◌, ◌∙◌, refl, ap, true, List, [], ◌∷◌, arith, map, Bool-cases, inl, inr}
use latentred.Prelude.CString.{bytes, str_same}
use latentred.Port.{InterfaceState}
use latentred.Cli.Grammar.{
  CommandId, Token, cmd_commit, cmd_rollback, cmd_hostname, cmd_ssh, cmd_username, cmd_no,
  cmd_flash, cmd_show, cmd_zeroize, cmd_exit, cmd_ip, cmd_ntp, cmd_address, cmd_gateway, cmd_key,
}
use latentred.Cli.System.{World, System, Session, OnlyPrints, on_world}
use latentred.Cli.Config.{
  on_commit, on_ssh_command, on_ip_command, on_no_command, on_ntp_server, on_reload,
}
use latentred.Cli.Show.{on_show_command}
use latentred.Cli.Dispatch.{on_execute, execute}
use latentred.Cli.Store.{KeepsNames, IsStore, LeavesStrings, OwnKey}
use latentred.Cli.ReadOnly.{on_show_command-SameButOutput}
use latentred.Cli.Buffers.{NamesOk, on_execute-NamesOk}
use latentred.Cli.Spec.{apply, apply_all, keep, ssh_change, no_change, meaning_of, meaning, view}
use latentred.Cli.Saved.{
  view-on_commit, view-on_rollback, view-set_hostname, view-set_ssh_username, view-on_world,
  view-remove, view-wipe,
}

-- the lines of one session, one after the other
unfoldable pub run :
    {W : Type 0}
    → World W
    → (ℕ → ℕ → InterfaceState)
    → (System W → System W)
    → List (ℕ → Token)
    → Session
    → System W
    → System W
run w ports line_card [] c s = s
run w ports line_card (m ∷ ms) c s = run w ports line_card ms c (on_execute w ports line_card m c s)

-- a command that is no commit, or a commit that prints no error
abbrev pub IsSilent : {W : Type 0} → World W → CommandId → System W → Type 0
IsSilent w id s = id ≡ cmd_commit → (on_commit w s).out ≡ s.out

abbrev pub AllSilent :
    {W : Type 0}
    → World W
    → (ℕ → ℕ → InterfaceState)
    → (System W → System W)
    → List (ℕ → Token)
    → Session
    → System W
    → Type 0
AllSilent w ports line_card [] c s = Unit
AllSilent w ports line_card (m ∷ ms) c s =
    IsSilent w (m 0).command_id s
    × AllSilent w ports line_card ms c (on_execute w ports line_card m c s)

module _ {W : Type 0} (w : World W) (store : IsStore w) (apart : LeavesStrings w)
    (keeps : KeepsNames w) (ports : ℕ → ℕ → InterfaceState) (line_card : System W → System W)
    (prints : OnlyPrints line_card) where
  -- a command that leaves the names and the two objects alone
  same_view :
      (s t : System W)
      → t.hostname ≡ s.hostname
      → t.ssh_username ≡ s.ssh_username
      → ((key : List ℕ) → OwnKey key → w.find_object t.world key ≡ w.find_object s.world key)
      → view w t ≡ apply keep (view w s)
  unfolding apply
  same_view s t hn un same = view-on_world w store apart keeps ports line_card prints s t hn un same

  view-ssh :
      (id : CommandId) (t u v : Token) (s : System W)
      → NamesOk s
      → view w (on_ssh_command w id t u v s) ≡ apply (ssh_change id t.text) (view w s)
  unfolding on_ssh_command
  view-ssh cmd_username t u v s h =
      view-set_ssh_username w store apart keeps ports line_card prints t.text s h
  view-ssh cmd_key t u v s h =
      same_view s (on_ssh_command w cmd_key t u v s) refl refl
        (λ key own. keeps.ssh_added key t.text u.text v.text s.world own)
  view-ssh id t u v s h = same_view s (on_ssh_command w id t u v s) refl refl (λ key own. refl)

  view-no :
      (id : CommandId) (t u : Token) (s : System W)
      → view w (on_no_command w id t u s) ≡ apply (no_change id t.text) (view w s)
  unfolding on_no_command
  view-no cmd_flash t u s =
      view-remove w store apart keeps ports line_card prints t.text s
        (on_no_command w cmd_flash t u s) refl refl refl
  view-no cmd_ntp t u s =
      same_view s (on_no_command w cmd_ntp t u s) refl refl
        (λ key own. keeps.ntp_off key s.world own)
  view-no cmd_ssh t u s =
      same_view s (on_no_command w cmd_ssh t u s) (ground arith) (ground arith)
        (λ key own. grind (arith, keeps.ssh_removed))
  view-no id t u s = same_view s (on_no_command w id t u s) refl refl (λ key own. refl)

  view-ip :
      (id : CommandId) (t : Token) (s : System W)
      → view w (on_ip_command w id t s) ≡ apply keep (view w s)
  unfolding on_ip_command
  view-ip cmd_address t s =
      same_view s (on_ip_command w cmd_address t s) refl refl
        (λ key own. keeps.ip_set key t.text s.ip s.world own)
  view-ip cmd_gateway t s =
      same_view s (on_ip_command w cmd_gateway t s) (ground arith) (ground arith)
        (λ key own. ground arith)
  view-ip id t s = same_view s (on_ip_command w id t s) refl refl (λ key own. refl)

  view-execute :
      (id : CommandId) (m : ℕ → Token) (c : Session) (s : System W)
      → NamesOk s
      → IsSilent w id s
      → view w (execute w ports line_card id m c s) ≡ apply (meaning_of id m) (view w s)
  unfolding on_ntp_server on_reload
  view-execute cmd_commit m c s h q =
      view-on_commit w store apart keeps ports line_card prints s h (q refl)
  view-execute cmd_rollback m c s h q =
      view-on_rollback w store apart keeps ports line_card prints s
  view-execute cmd_hostname m c s h q =
      view-set_hostname w store apart keeps ports line_card prints (m 1).text s h
  view-execute cmd_ssh m c s h q = view-ssh (m 1).command_id (m 2) (m 3) (m 4) s h
  view-execute cmd_no m c s h q = view-no (m 1).command_id (m 2) (m 3) s
  view-execute cmd_ip m c s h q = view-ip (m 1).command_id (m 2) s
  view-execute cmd_zeroize m c s h q = elim (Bool-cases (str_same (m 1).text (bytes "all"))) [
    | inl all ↦ rw all (
        view-wipe w store apart keeps ports line_card prints s (on_reload w (on_world w.wipe_all s))
          refl refl refl)
    | inr other ↦ rw other (same_view s s refl refl (λ key own. refl))
  ]
  view-execute cmd_exit m c s h q =
      same_view s (execute w ports line_card cmd_exit m c s) (ground arith) (ground arith)
        (λ key own. ground (arith, keeps.disconnected key c.id s.world own))
  view-execute cmd_flash m c s h q =
      same_view s (execute w ports line_card cmd_flash m c s) (ground arith) (ground arith)
        (λ key own. ground (arith, keeps.compacted key s.world))
  view-execute cmd_ntp m c s h q =
      same_view s (execute w ports line_card cmd_ntp m c s) (ground arith) (ground arith)
        (λ key own. grind (arith, keeps.ntp_on, keeps.ntp_server))
  view-execute cmd_show m c s h q =
      let same = on_show_command-SameButOutput w ports line_card prints m s in
      same_view s (on_show_command ports line_card m s) same.hostname same.ssh_username
        (λ key own. ap (λ (x : W). w.find_object x key) same.world)
  view-execute id m c s h q =
      same_view s (execute w ports line_card id m c s) refl refl (λ key own. refl)

  -- A command in root mode changes what a reader sees of the names, and what the next load would give,
  -- as the change that it means.
  pub view-on_execute :
      (m : ℕ → Token) (c : Session) (s : System W)
      → c.root_mode ≡ true
      → NamesOk s
      → IsSilent w (m 0).command_id s
      → view w (on_execute w ports line_card m c s) ≡ apply (meaning m) (view w s)
  unfolding on_execute
  view-on_execute m c s root h q = simp root (view-execute (m 0).command_id m c s h q)

  -- The commands refine the specification of the two names. Whatever lines a session in root mode
  -- runs, what a reader then sees of the host name and the SSH user name, and what the next load
  -- would give, is what the changes that the lines mean make of it: a name is set, cut to its
  -- array, saved by "commit", reverted by "rollback", forgotten with its object in flash or with
  -- all of them, and left alone by every other line. The names are terminated inside their arrays
  -- before, and no commit among the lines prints an error. The flash store and the other services do
  -- what they document; showing the line card only prints.
  pub view-run :
      (ms : List (ℕ → Token)) (c : Session) (s : System W)
      → c.root_mode ≡ true
      → NamesOk s
      → AllSilent w ports line_card ms c s
      → view w (run w ports line_card ms c s) ≡ apply_all (map meaning ms) (view w s)
  unfolding run apply_all
  view-run [] c s root h q = refl
  view-run (m ∷ ms) c s root h q =
      view-run ms c (on_execute w ports line_card m c s) root
        (on_execute-NamesOk w ports line_card prints m c s h) q.1
      ∙ ap (apply_all (map meaning ms)) (view-on_execute m c s root h q.0)
