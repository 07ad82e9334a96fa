-- ===== src/Cli/Examples.antt =====
-- The theorems of the command line on concrete sessions and a concrete flash store.
use latentred.Prelude.{arith, ◌≡◌, ◌⊎◌, refl, inl, inr, true, List, [], ◌∷◌, take}
use latentred.Prelude.CString.{bytes, c_str}
use latentred.Cli.Grammar.{
  Token, Follows, root_commands, cmd_ip, cmd_gateway, cmd_zeroize, cmd_reload, cmd_show, cmd_ssh,
  cmd_no, cmd_flash, freeform_token,
}
use latentred.Cli.Dispatch.{on_execute, command}
use latentred.Cli.ReadOnly.{on_execute_reset}
use latentred.Cli.Buffers.{NamesOk, on_execute-NamesOk}
use latentred.Cli.Accepted.{unrecognized, Follows-recognized}
use latentred.Cli.Spec.{apply_all, set_host, save, forget, revert, view, saved_names}
use latentred.Cli.Refines.{run, view-run}
use latentred.Cli.Sessions.{Sessions, AllOk, execute_in, execute_in-AllOk}
use latentred.Cli.Stale.{stale_commit}
use latentred.Samples.Lines.{
  ports, no_lines, no_lines-OnlyPrints, silent_commit, word, hostname_line, commit_line,
  rollback_line, two_sessions, two_sessions-AllOk,
}
use latentred.Samples.{
  lab, lab-NamesOk, world-KeepsNames, Flash, world, world-IsStore, world-LeavesStrings, session,
}

-- `ip gateway 10.2.0.1`
abbrev ip_line : List Token
ip_line =
    word cmd_ip (bytes "ip")
    ∷ word cmd_gateway (bytes "gateway")
    ∷ word freeform_token (bytes "10.2.0.1")
    ∷ []

ip_line-Follows : Follows root_commands ip_line
ip_line-Follows = inr (inr (inr (inr (inl (refl, inr (inl (refl, inl (refl, tt))))))))

Follows-recognized_example :
    unrecognized (on_execute world ports no_lines (command ip_line) session lab).out
    ≡ unrecognized lab.out
Follows-recognized_example =
    Follows-recognized world ports no_lines (λ s. refl) ip_line session lab ip_line-Follows

on_execute-NamesOk_example :
    NamesOk (on_execute world ports no_lines (command hostname_line) session lab)
on_execute-NamesOk_example =
    on_execute-NamesOk world ports no_lines no_lines-OnlyPrints (command hostname_line) session lab
      lab-NamesOk

abbrev zeroize_line : List Token
zeroize_line = word cmd_zeroize (bytes "zeroize") ∷ word freeform_token (bytes "all") ∷ []

zeroize_resets :
    (on_execute world ports no_lines (command zeroize_line) session lab).reset_requested ≡ true
unfolding on_execute
zeroize_resets = refl

on_execute_reset_example :
    (cmd_zeroize ≡ cmd_reload)
    ⊎ ((cmd_zeroize ≡ cmd_zeroize) × (c_str (bytes "all") ≡ c_str (bytes "all")))
on_execute_reset_example =
    on_execute_reset world ports no_lines no_lines-OnlyPrints (command zeroize_line) session lab
      refl zeroize_resets

abbrev show_line : List Token
show_line = word cmd_show (bytes "show") ∷ word cmd_ssh (bytes "ssh") ∷ []

-- `no flash hostname`
abbrev forget_line : List Token
forget_line =
    word cmd_no (bytes "no")
    ∷ word cmd_flash (bytes "flash")
    ∷ word freeform_token (bytes "hostname")
    ∷ []

view-run_example :
    view world (
      run world ports no_lines
        (command hostname_line
          ∷ command commit_line
          ∷ command forget_line
          ∷ command rollback_line
          ∷ [])
        session
        lab)
    ≡ apply_all
        (set_host (c_str (bytes "core")) ∷ save ∷ forget (c_str (bytes "hostname")) ∷ revert ∷ [])
        (view world lab)
view-run_example =
    view-run world world-IsStore world-LeavesStrings world-KeepsNames ports no_lines
      no_lines-OnlyPrints
      (command hostname_line
        ∷ command commit_line
        ∷ command forget_line
        ∷ command rollback_line
        ∷ [])
      session lab refl lab-NamesOk
      (
        (λ e. silent_commit _),
        ((λ e. silent_commit _), ((λ e. silent_commit _), ((λ e. silent_commit _), tt))),
      )

stale_commit_example :
    let named =
      execute_in world ports no_lines 1
        (command commit_line)
        session
        (execute_in world ports no_lines 1 (command hostname_line) session two_sessions) in
    ((saved_names world named.shared.world).host ≡ take 32 (c_str (bytes "core")))
    × ((saved_names world
          (execute_in world ports no_lines 0 (command commit_line) session named).shared.world).host
        ≡ c_str lab.hostname)
stale_commit_example =
    stale_commit world ports no_lines world-IsStore world-LeavesStrings world-KeepsNames
      no_lines-OnlyPrints 1 0 (command hostname_line) (command commit_line) session session
      two_sessions (omega arith) refl refl two_sessions-AllOk refl refl (silent_commit _)
      (silent_commit _)

-- A session whose name was set commits it, and the serial session takes it over.
abbrev renamed_session : Sessions Flash
renamed_session = execute_in world ports no_lines 1 (command hostname_line) session two_sessions

renamed_session-AllOk : AllOk renamed_session
renamed_session-AllOk =
    execute_in-AllOk world ports no_lines no_lines-OnlyPrints 1 (command hostname_line) session
      two_sessions two_sessions-AllOk
