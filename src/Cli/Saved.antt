-- ===== src/Cli/Saved.antt =====
-- How the operations on the names and on the flash store change the view of Cli/Spec.
use latentred.Prelude.{
  ℕ, ◌≡◌, refl, ap, Bool, true, false, List, Option, none, arith, if◌then◌else◌, Bool-cases, inl,
  inr,
}
use latentred.Prelude.CString.{c_str, list_eq, list_eq_iff, strncpy}
use latentred.Port.{InterfaceState}
use latentred.Cli.System.{
  World, System, OnlyPrints, hostname_objid, username_objid, default_hostname, default_ssh_username,
}
use latentred.Cli.Config.{stored_or, set_hostname, set_ssh_username, on_commit, on_rollback}
use latentred.Cli.Store.{KeepsNames, IsStore, LeavesStrings, OwnKey, hostname, username}
use latentred.Cli.Persist.{c_str-stored_or, loaded_services, stored_hostname, stored_username}
use latentred.Cli.Buffers.{NamesOk, names_after, names-on_commit}
use latentred.Cli.Spec.{
  Names, View, set_host, set_user, forget, save, revert, wipe, apply, saved_names, view,
}

-- Equal running and saved names make equal views.
View-ext :
    (a b : View)
    → a.running.host ≡ b.running.host
    → a.running.user ≡ b.running.user
    → a.saved.host ≡ b.saved.host
    → a.saved.user ≡ b.saved.user
    → a ≡ b
View-ext a b p q r s = ground arith

module _ {W : Type 0} (w : World W) (store : IsStore w) (apart : LeavesStrings w)
    (keeps : KeepsNames w) where
  -- Stores that agree on the two objects would load the same names.
  pub saved_eq :
      (s t : W)
      → ((key : List ℕ) → OwnKey key → w.find_object t key ≡ w.find_object s key)
      → saved_names w t ≡ saved_names w s
  saved_eq s t same = rw (same hostname_objid hostname, same username_objid username) refl

  module _ (ports : ℕ → ℕ → InterfaceState) (line_card : System W → System W)
      (prints : OnlyPrints line_card) where
    -- a commit that prints no error
    pub view-on_commit :
        (s : System W)
        → NamesOk s
        → (on_commit w s).out ≡ s.out
        → view w (on_commit w s) ≡ apply save (view w s)
    unfolding apply
    view-on_commit s h silent =
        View-ext _ _ (ap c_str (names-on_commit w ports line_card s).0)
          (ap c_str (names-on_commit w ports line_card s).1)
          (c_str-stored_or 32 s.hostname default_hostname _ h.hostname_ok
            (stored_hostname w store apart s silent))
          (c_str-stored_or 31 s.ssh_username default_ssh_username _ h.username_ok
            (stored_username w store apart s silent))

    pub view-on_rollback : (s : System W) → view w (on_rollback w s) ≡ apply revert (view w s)
    unfolding apply on_rollback
    view-on_rollback s =
        let same =
          saved_eq s.world (w.configure_ip s.ip (w.ntp_load (w.load_keys s.world))).1
            (λ key own. loaded_services w store apart key s own) in
        View-ext _ _ (ap (λ (n : Names). n.host) same) (ap (λ (n : Names). n.user) same)
          (ap (λ (n : Names). n.host) same) (ap (λ (n : Names). n.user) same)

    pub view-set_hostname :
        (t : List ℕ) (s : System W)
        → NamesOk s
        → view w (set_hostname w t s) ≡ apply (set_host (c_str t)) (view w s)
    unfolding apply set_hostname
    view-set_hostname t s h = View-ext _ _ (names_after w ports line_card t s h).0 refl refl refl

    pub view-set_ssh_username :
        (t : List ℕ) (s : System W)
        → NamesOk s
        → view w (set_ssh_username w t s) ≡ apply (set_user (c_str t)) (view w s)
    unfolding apply set_ssh_username
    view-set_ssh_username t s h =
        View-ext _ _ refl (names_after w ports line_card t s h).1 refl refl

    -- changes of the store alone
    pub view-on_world :
        (s : System W) (t : System W)
        → t.hostname ≡ s.hostname
        → t.ssh_username ≡ s.ssh_username
        → ((key : List ℕ) → OwnKey key → w.find_object t.world key ≡ w.find_object s.world key)
        → view w t ≡ view w s
    view-on_world s t hn un same =
        let e = saved_eq s.world t.world same in
        View-ext _ _ (ap c_str hn) (ap c_str un) (ap (λ (n : Names). n.host) e)
          (ap (λ (n : Names). n.user) e)

    found_after_remove :
        (key own : List ℕ) (s : W)
        → w.find_object (w.remove_flash_key key s) own
          ≡ (if list_eq own (c_str key) then none else w.find_object s own)
    found_after_remove key own s = elim (Bool-cases (list_eq own (c_str key))) [
      | inl e ↦ rw (e, (list_eq_iff own (c_str key)).0 e) (keeps.removed key s)
      | inr e ↦
          rw e (keeps.removed_apart key own s (λ p. ground (arith, list_eq_iff own (c_str key))))
    ]

    shown_default :
        (last : ℕ) (preset : List ℕ) (b : Bool) (found : Option (List ℕ)) (shown : List ℕ)
        → c_str (stored_or last preset none) ≡ shown
        → c_str (stored_or last preset (if b then none else found))
          ≡ (if b then shown else c_str (stored_or last preset found))
    shown_default last preset true found shown e = e
    shown_default last preset false found shown e = refl

    default_shown :
        (c_str (stored_or 32 default_hostname none) ≡ default_hostname)
        × (c_str (stored_or 31 default_ssh_username none) ≡ default_ssh_username)
    unfolding c_str strncpy
    default_shown = (refl, refl)

    pub view-remove :
        (key : List ℕ) (s t : System W)
        → t.hostname ≡ s.hostname
        → t.ssh_username ≡ s.ssh_username
        → t.world ≡ w.remove_flash_key key s.world
        → view w t ≡ apply (forget (c_str key)) (view w s)
    unfolding apply
    view-remove key s t hn un e =
        View-ext _ _ (ap c_str hn) (ap c_str un)
          (rw (e, found_after_remove key hostname_objid s.world)
            (shown_default 32 default_hostname _ _ _ default_shown.0))
          (rw (e, found_after_remove key username_objid s.world)
            (shown_default 31 default_ssh_username _ _ _ default_shown.1))

    pub view-wipe :
        (s t : System W)
        → t.hostname ≡ s.hostname
        → t.ssh_username ≡ s.ssh_username
        → t.world ≡ w.wipe_all s.world
        → view w t ≡ apply wipe (view w s)
    unfolding apply
    view-wipe s t hn un e =
        View-ext _ _ (ap c_str hn) (ap c_str un)
          (rw (e, keeps.wiped hostname_objid s.world) default_shown.0)
          (rw (e, keeps.wiped username_objid s.world) default_shown.1)
