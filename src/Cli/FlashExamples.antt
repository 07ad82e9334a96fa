-- ===== src/Cli/FlashExamples.antt =====
-- What "commit" and "rollback" do with a concrete flash store.
use latentred.Prelude.{◌≡◌, refl, false, [], ◌++◌}
use latentred.Prelude.CString.{c_str, zeroed}
use latentred.Cli.System.{World, System}
use latentred.Cli.Config.{on_commit, on_rollback}
use latentred.Cli.Commit.{error_lines, try_all, commit_steps, on_commit-try_all}
use latentred.Cli.Persist.{on_rollback-on_commit}
use latentred.Cli.Addresses.{rollback_addresses}
use latentred.Samples.Lines.{silent_commit}
use latentred.Samples.{
  lab, lab-NamesOk, read_address, world-StoresAddresses, Flash, world, world-IsStore,
  world-LeavesStrings,
}

-- After a commit, the names are changed before the rollback.
abbrev renamed : System Flash
renamed = record lab {
  world = (on_commit world lab).world;
  hostname = zeroed 33;
  ssh_username = zeroed 32;
}

on_rollback-on_commit_example :
    (c_str (on_rollback world renamed).hostname ≡ c_str lab.hostname)
    × (c_str (on_rollback world renamed).ssh_username ≡ c_str lab.ssh_username)
on_rollback-on_commit_example =
    on_rollback-on_commit world world-IsStore world-LeavesStrings lab renamed
      lab-NamesOk.hostname_ok lab-NamesOk.username_ok (silent_commit lab) refl

-- A flash store that is full: no string is stored, while the addresses still are.
abbrev full : World Flash
full = record world { store_string = λ key cur preset s. (false, s) }

on_commit-try_all_example : on_commit full lab ≡ (
    let (n, x) = try_all (commit_steps full lab) lab.world in
    record lab { world = x; out = [] ++ error_lines n })
on_commit-try_all_example = on_commit-try_all full lab

two_errors : (try_all (commit_steps full lab) lab.world).0 ≡ 2
unfolding try_all
two_errors = refl

-- After a commit, the addresses are changed before the rollback.
abbrev at_home : System Flash
at_home = record lab { ip = record { address = 20; netmask = 255; broadcast = 63; gateway = 2 } }

abbrev moved : System Flash
moved = record lab { world = (on_commit world at_home).world }

rollback_addresses_example : (on_rollback world moved).ip ≡ at_home.ip
rollback_addresses_example =
    rollback_addresses world read_address world-StoresAddresses at_home moved
      (silent_commit at_home) refl
