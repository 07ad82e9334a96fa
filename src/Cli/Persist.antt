-- ===== src/Cli/Persist.antt =====
-- Saving the configuration with "commit" and reverting to it with "rollback".
use latentred.Prelude.{
  ℕ, suc, ◌≤◌, ◌≡◌, ◌⊎◌, refl, ◌∙◌, true, false, List, Option, none, some, inl, inr, arith, length,
  min,
}
use latentred.Prelude.CString.{
  bytes, c_str, zeroed, IsTerminated, get_or-zeroed, c_str-le, c_str-strncpy, c_str_idem, take-all,
  list_eq,
}
use latentred.Cli.System.{
  World, System, hostname_objid, username_objid, default_hostname, default_ssh_username,
}
use latentred.Cli.Store.{IsStore, OwnKey, hostname, username, LeavesStrings}
use latentred.Cli.Checked.{ne_of_list_eq, after_hostname, after_username, silent}
use latentred.Cli.Config.{on_commit, on_rollback, stored_or, checked}

-- What a successful store leaves for a later load, with the preset that stands in for no object.
abbrev pub Reads : List ℕ → List ℕ → Option (List ℕ) → Type 0
Reads cur preset found = (found ≡ some cur) ⊎ ((found ≡ none) × (cur ≡ preset))

-- A reader of the loaded array sees the text that was stored.
pub c_str-stored_or :
    (last : ℕ) (a preset : List ℕ) (found : Option (List ℕ))
    → IsTerminated last a
    → Reads (c_str a) preset found
    → c_str (stored_or last preset found) ≡ c_str a
c_str-stored_or last a preset found t (inl e) =
    let n : ℕ = min (length (c_str a)) last in
    let short : length (c_str a) ≤ last = c_str-le last a t in
    rw e (
      c_str-strncpy (zeroed (suc last)) (c_str a) n (get_or-zeroed last n (omega arith))
      ∙ rw c_str_idem (take-all n (c_str a) (omega arith)))
c_str-stored_or last a preset found t (inr (e, same)) =
    rw (e, ← same)
      (c_str-strncpy (zeroed (suc last)) (c_str a) last (get_or-zeroed last last (omega arith))
        ∙ rw c_str_idem (take-all last (c_str a) (c_str-le last a t)))

module _ {W : Type 0} (w : World W) (store : IsStore w) (apart : LeavesStrings w) where
  checked_address :
      (cur preset : ℕ) (key other : List ℕ) (s : System W)
      → list_eq other key ≡ false
      → w.find_object (checked w (w.store_address cur preset key) s).world other
        ≡ w.find_object s.world other
  unfolding checked
  checked_address cur preset key other s h =
      ground (arith, store.address_apart cur preset key other s.world (ne_of_list_eq other key h))

  pub checked_string :
      (key cur preset other : List ℕ) (s : System W)
      → list_eq other key ≡ false
      → w.find_object (checked w (w.store_string key cur preset) s).world other
        ≡ w.find_object s.world other
  unfolding checked
  checked_string key cur preset other s h =
      ground (arith, store.string_apart key cur preset other s.world (ne_of_list_eq other key h))

  pub checked_stored :
      (key cur preset : List ℕ) (s : System W)
      → (w.store_string key cur preset s.world).0 ≡ true
      → Reads cur preset (w.find_object (checked w (w.store_string key cur preset) s).world key)
  unfolding checked
  checked_stored key cur preset s done = rw done (store.stored key cur preset s.world done)

  -- the saves that come after the two strings
  saved_services :
      (key : List ℕ) (s : System W)
      → OwnKey key
      → w.find_object (w.ntp_save (w.commit_keys s.world)) key ≡ w.find_object s.world key
  saved_services key s own =
      apart.ntp_save key (w.commit_keys s.world) own ∙ apart.commit_keys key s.world own

  -- the loads that come before the two strings
  pub loaded_services :
      (key : List ℕ) (s : System W)
      → OwnKey key
      → w.find_object (w.configure_ip s.ip (w.ntp_load (w.load_keys s.world))).1 key
        ≡ w.find_object s.world key
  loaded_services key s own =
      apart.configure_ip key s.ip (w.ntp_load (w.load_keys s.world)) own
      ∙ apart.ntp_load key (w.load_keys s.world) own
      ∙ apart.load_keys key s.world own

  -- The keys of the four addresses are none of the two strings'.
  apart_keys :
      (key : List ℕ)
      → OwnKey key
      → (list_eq key (bytes "ip.address") ≡ false)
        × (list_eq key (bytes "ip.netmask") ≡ false)
        × (list_eq key (bytes "ip.broadcast") ≡ false)
        × (list_eq key (bytes "ip.gateway") ≡ false)
  unfolding list_eq
  apart_keys key hostname = (refl, refl, refl, refl)
  apart_keys key username = (refl, refl, refl, refl)

  pub find-on_commit :
      (key : List ℕ) (s : System W)
      → OwnKey key
      → w.find_object (on_commit w s).world key ≡ w.find_object (after_username w s).world key
  unfolding on_commit
  find-on_commit key s own =
      let (a, b, c, d) = apart_keys key own in
      checked_address _ _ _ key _ d
      ∙ checked_address _ _ _ key _ c
      ∙ checked_address _ _ _ key _ b
      ∙ checked_address _ _ _ key _ a
      ∙ saved_services key (after_username w s) own

  pub hostname_apart : list_eq hostname_objid username_objid ≡ false
  unfolding list_eq
  hostname_apart = refl

  pub stored_hostname :
      (s : System W)
      → (on_commit w s).out ≡ s.out
      → Reads
          (c_str s.hostname)
          default_hostname
          (w.find_object (on_commit w s).world hostname_objid)
  stored_hostname s e =
      rw
        (
          find-on_commit hostname_objid s hostname,
          checked_string username_objid (c_str s.ssh_username) default_ssh_username hostname_objid
              (after_hostname w s) hostname_apart,
        )
        (checked_stored hostname_objid (c_str s.hostname) default_hostname s (silent w s e).0)

  pub unchanged_username : (s : System W) → (after_hostname w s).ssh_username ≡ s.ssh_username
  unfolding checked
  unchanged_username s = ground arith

  pub stored_username :
      (s : System W)
      → (on_commit w s).out ≡ s.out
      → Reads
          (c_str s.ssh_username)
          default_ssh_username
          (w.find_object (on_commit w s).world username_objid)
  stored_username s e = rw (find-on_commit username_objid s username) (
      checked_stored username_objid (c_str s.ssh_username) default_ssh_username (after_hostname w s)
        (silent w s e).1)

  -- If a commit reports no error, a later rollback restores the host name and the SSH user name as
  -- they read at the commit, whatever the session changed in between, as long as the flash store is
  -- the one that the commit left. The name arrays are terminated, as every command keeps them,
  -- and the flash store and the other services do what they document.
  pub on_rollback-on_commit :
      (s t : System W)
      → IsTerminated 32 s.hostname
      → IsTerminated 31 s.ssh_username
      → (on_commit w s).out ≡ s.out
      → t.world ≡ (on_commit w s).world
      → (c_str (on_rollback w t).hostname ≡ c_str s.hostname)
        × (c_str (on_rollback w t).ssh_username ≡ c_str s.ssh_username)
  unfolding on_rollback
  on_rollback-on_commit s t hn un e same = (
    rw (loaded_services hostname_objid t hostname, same)
        (c_str-stored_or 32 s.hostname default_hostname _ hn (stored_hostname s e)),
    rw (loaded_services username_objid t username, same)
        (c_str-stored_or 31 s.ssh_username default_ssh_username _ un (stored_username s e)),
  )
