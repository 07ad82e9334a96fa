-- ===== src/Cli/Spec.antt =====
-- What the commands promise of the two names: a running pair and a saved pair, and a handful of
-- changes.
use latentred.Prelude.{ℕ, List, [], ◌∷◌, take, if◌then◌else◌}
use latentred.Prelude.CString.{bytes, c_str, list_eq, str_same}
use latentred.Cli.Grammar.{
  CommandId, Token, cmd_commit, cmd_rollback, cmd_hostname, cmd_ssh, cmd_username, cmd_no,
  cmd_flash, cmd_zeroize,
}
use latentred.Cli.System.{
  World, System, hostname_objid, username_objid, default_hostname, default_ssh_username,
}
use latentred.Cli.Config.{stored_or}

-- the host name and the SSH user name, as a reader of their arrays sees them
pub record Names : Type 0 where
  pub host : List ℕ
  pub user : List ℕ

pub record View : Type 0 where
  pub running : Names
  pub saved : Names

abbrev pub default_names : Names
default_names = record { host = default_hostname; user = default_ssh_username }

pub data Change : Type 0 where
  set_host set_user forget : List ℕ → Change
  save revert wipe keep : Change

-- Names are cut to the length of their arrays. A name that is not saved reads as its default.
unfoldable pub apply : Change → View → View
unfolding list_eq
apply (set_host t) v = record v { running = record (v.running) { host = take 32 t } }
apply (set_user t) v = record v { running = record (v.running) { user = take 31 t } }
apply (forget key) v = record v {
  saved = record {
    host = if list_eq hostname_objid key then default_hostname else v.saved.host;
    user = if list_eq username_objid key then default_ssh_username else v.saved.user;
  };
}
apply save v = record v { saved = v.running }
apply revert v = record v { running = v.saved }
apply wipe v = record v { saved = default_names }
apply keep v = v

unfoldable pub apply_all : List Change → View → View
apply_all [] v = v
apply_all (c ∷ cs) v = apply_all cs (apply c v)

-- the change that a command means
abbrev pub ssh_change : CommandId → List ℕ → Change
ssh_change cmd_username t = set_user (c_str t)
ssh_change _ t = keep

abbrev pub no_change : CommandId → List ℕ → Change
no_change cmd_flash t = forget (c_str t)
no_change _ t = keep

abbrev pub meaning_of : CommandId → (ℕ → Token) → Change
meaning_of cmd_commit m = save
meaning_of cmd_rollback m = revert
meaning_of cmd_hostname m = set_host (c_str (m 1).text)
meaning_of cmd_ssh m = ssh_change (m 1).command_id (m 2).text
meaning_of cmd_no m = no_change (m 1).command_id (m 2).text
meaning_of cmd_zeroize m = if str_same (m 1).text (bytes "all") then wipe else keep
meaning_of _ m = keep

abbrev pub meaning : (ℕ → Token) → Change
meaning m = meaning_of (m 0).command_id m

module _ {W : Type 0} (w : World W) where
  -- what the next load would give
  abbrev pub saved_names : W → Names
  saved_names s = record {
    host = c_str (stored_or 32 default_hostname (w.find_object s hostname_objid));
    user = c_str (stored_or 31 default_ssh_username (w.find_object s username_objid));
  }

  abbrev pub running_names : System W → Names
  running_names s = record { host = c_str s.hostname; user = c_str s.ssh_username }

  abbrev pub view : System W → View
  view s = record { running = running_names s; saved = saved_names s.world }
