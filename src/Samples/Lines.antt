-- ===== src/Samples/Lines.antt =====
-- Command lines of the concrete switch, two sessions that run them, and a sensor part that prints
-- nothing.
use latentred.Prelude.{ℕ, ◌≡◌, refl, List, [], ◌∷◌}
use latentred.Prelude.CString.{bytes}
use latentred.Port.{InterfaceState}
use latentred.Cli.Grammar.{CommandId, Token, cmd_hostname, cmd_commit, cmd_rollback, freeform_token}
use latentred.Cli.System.{System, OnlyPrints}
use latentred.Cli.Config.{on_commit, checked}
use latentred.Cli.Sessions.{Sessions, AllOk}
use latentred.Samples.{lab, lab-NamesOk, port, Flash, world}

abbrev pub ports : ℕ → ℕ → InterfaceState
ports c i = port

-- PrintLineCardInfo, here without a line
abbrev pub no_lines : System Flash → System Flash
no_lines s = s

pub no_lines-OnlyPrints : OnlyPrints no_lines
no_lines-OnlyPrints = record {
  world_kept = λ s. refl;
  hostname_kept = λ s. refl;
  username_kept = λ s. refl;
  ip_kept = λ s. refl;
  reset_kept = λ s. refl;
}

pub silent_commit : (s : System Flash) → (on_commit world s).out ≡ s.out
unfolding on_commit checked
silent_commit s = refl

abbrev pub word : CommandId → List ℕ → Token
word id text = record { command_id = id; text = text }

abbrev pub hostname_line : List Token
hostname_line = word cmd_hostname (bytes "hostname") ∷ word freeform_token (bytes "core") ∷ []

abbrev pub commit_line : List Token
commit_line = word cmd_commit (bytes "commit") ∷ []

abbrev pub rollback_line : List Token
rollback_line = word cmd_rollback (bytes "rollback") ∷ []

-- The serial session and one SSH session show the same name.
abbrev pub two_sessions : Sessions Flash
two_sessions = record { hostnames = λ i. lab.hostname; shared = lab }

pub two_sessions-AllOk : AllOk two_sessions
two_sessions-AllOk = record { ok = λ i. lab-NamesOk }
