-- ===== src/Ssh/Examples.antt =====
-- The theorems of the SSH server on a concrete key store.
use latentred.Prelude.{◌≡◌, refl, true, [], ◌∷◌, ◌++◌, none, take}
use latentred.Prelude.CString.{bytes, c_str}
use latentred.Cli.System.{prompt, flush}
use latentred.Cli.Dispatch.{command}
use latentred.Cli.Sessions.{execute_in}
use latentred.Ssh.{host_key, initialize_shell}
use latentred.Ssh.Contexts.{contexts, committed_name_greets}
use latentred.Samples.Keys.{keys, idle, users, old_context}
use latentred.Ssh.HostKey.{IsKeyStore, host_key_stable}
use latentred.Samples.Lines.{
  ports, no_lines, no_lines-OnlyPrints, silent_commit, hostname_line, commit_line, two_sessions,
  two_sessions-AllOk,
}
use latentred.Samples.{
  world, world-IsStore, world-LeavesStrings, world-KeepsNames, session, Flash, put_same, put_other,
}

keys-IsKeyStore : IsKeyStore keys
keys-IsKeyStore = record {
  stored = λ key value s done. put_same key value s;
  apart = λ key value other s ne. put_other key value other s ne;
}

abbrev empty : Flash
empty key = none

host_key_stable_example :
    let (server, s') = host_key keys empty in
    ((host_key keys s').0.public_key ≡ server.public_key)
    × ((host_key keys s').0.private_key ≡ server.private_key)
    × ((host_key keys s').1 ≡ s')
host_key_stable_example = host_key_stable keys keys-IsKeyStore empty (refl, refl)

committed_name_greets_example :
    let shared =
      (execute_in world ports no_lines 1
        (command commit_line)
        session
        (execute_in world ports no_lines 1 (command hostname_line) session two_sessions)).shared in
    (initialize_shell (contexts world ports no_lines idle users true) 2 (old_context, shared)).1.out
    ≡ (shared.out ++ prompt (c_str (users 2)) (take 32 (c_str (bytes "core"))) ∷ []) ++ flush ∷ []
committed_name_greets_example =
    committed_name_greets world ports no_lines idle users world-IsStore world-LeavesStrings
      world-KeepsNames no_lines-OnlyPrints 1 2 (command hostname_line) (command commit_line) session
      two_sessions old_context refl two_sessions-AllOk refl refl (silent_commit _)
