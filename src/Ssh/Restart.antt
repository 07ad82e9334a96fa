-- ===== src/Ssh/Restart.antt =====
-- A restart of the SSH server on the flash store that a session left, and the first shell after it.
use latentred.Prelude.{==_refl, ℕ, ◌≡◌, ◌≢◌, ◌∙◌, refl, ap, true, false, List, [], ◌∷◌, ◌++◌, arith}
use latentred.Prelude.CString.{c_str, list_eq, list_eq_iff}
use latentred.Port.{InterfaceState}
use latentred.Cli.System.{prompt, flush, World, System}
use latentred.Cli.Dispatch.{initialize, print_prompt}
use latentred.Cli.Spec.{Names, saved_names}
use latentred.Cli.Store.{KeepsNames, IsStore, LeavesStrings, OwnKey, hostname, username}
use latentred.Cli.Saved.{saved_eq}
use latentred.Ssh.{KeyStore, hostpub_objid, hostpriv_objid, host_key, new_server, initialize_shell}
use latentred.Ssh.Contexts.{Context, Typing, contexts, initialize_shell_prompt}

-- What the flash store documents where the host key is kept in it: storing an object leaves those of
-- other names, and making a key pair stores nothing.
pub record LeavesNames {W : Type 0} (ks : KeyStore W) (w : World W) : Type 0 where
  pub stored :
      (key value other : List ℕ) (s : W)
      → other ≢ key
      → w.find_object (ks.store_object key value s).1 other ≡ w.find_object s other
  pub generated :
      (key : List ℕ) (s : W) → w.find_object (ks.generate_host_key s).2 key ≡ w.find_object s key

-- The two names are still in the flash store.
abbrev pub SameNames : {W : Type 0} → World W → W → W → Type 0
SameNames w s t = (key : List ℕ) → OwnKey key → w.find_object t key ≡ w.find_object s key

key_names_apart :
    (key : List ℕ)
    → OwnKey key
    → (list_eq key hostpub_objid ≡ false) × (list_eq key hostpriv_objid ≡ false)
unfolding list_eq
key_names_apart key hostname = (refl, refl)
key_names_apart key username = (refl, refl)

module _ {W : Type 0} (ks : KeyStore W) (w : World W) (leaves : LeavesNames ks w) where
  ne_key : (key other : List ℕ) → list_eq key other ≡ false → key ≢ other
  ne_key key other h e = ground (arith, (list_eq_iff key other).1 e)

  find-host_key : (s : W) → SameNames w s (host_key ks s).1
  unfolding host_key
  find-host_key s key own =
      let (apart_pub, apart_priv) = key_names_apart key own in
      let (public, private, s1) = ks.generate_host_key s in
      let s2 = (ks.store_object hostpub_objid public s1).1 in
      ground (
        arith,
        leaves.generated key s,
        leaves.stored hostpub_objid public key s1 (ne_key key hostpub_objid apart_pub),
        leaves.stored hostpriv_objid private key s2 (ne_key key hostpriv_objid apart_priv),
      )

module _ {W L : Type 0} (ks : KeyStore W) (w : World W) (ports : ℕ → ℕ → InterfaceState)
    (line_card : System W → System W) (typing : Typing W L) (usernames : ℕ → List ℕ) where
  -- The constructor, then the shell of connection `id`.
  abbrev pub restart : ℕ → (ℕ → Context L) → System W → (ℕ → Context L) × System W
  restart id cs s =
      initialize_shell (contexts w ports line_card typing usernames true) id
        (cs, (new_server ks w s).1)

  -- the names that the shell and the logins then use
  abbrev pub names_in_use : ℕ → (ℕ → Context L) × System W → Names
  names_in_use id x = record { host = c_str (x.0 id).hostname; user = c_str x.1.ssh_username }

  -- The new shell and the logins use the names `saved`, which are still saved, and the prompt of the
  -- shell shows the host name among them.
  abbrev pub Restarts : ℕ → (ℕ → Context L) → System W → Names → Type 0
  Restarts id cs t saved =
      let after = restart id cs t in
      (names_in_use id after ≡ saved)
      × (saved_names w after.1.world ≡ saved)
      × (after.1.out ≡ (t.out ++ prompt (c_str (usernames id)) saved.host ∷ []) ++ flush ∷ [])

  open_shell_names :
      (id : ℕ) (cs : ℕ → Context L) (s : System W)
      → let after =
          initialize_shell (contexts w ports line_card typing usernames true) id (cs, s) in
        (names_in_use id after
          ≡ record { host = (saved_names w s.world).host; user = c_str s.ssh_username })
        × (after.1.world ≡ s.world)
  unfolding initialize_shell initialize print_prompt
  open_shell_names id cs s = (simp ==_refl refl, refl)

  module _ (leaves : LeavesNames ks w) (store : IsStore w) (apart : LeavesStrings w)
      (keeps : KeepsNames w) where
    server_saved :
        (s : System W)
        → let server = (new_server ks w s).1 in
          (c_str server.ssh_username ≡ (saved_names w s.world).user)
          × (saved_names w server.world ≡ saved_names w s.world)
    unfolding new_server
    server_saved s =
        let x = (host_key ks s.world).1 in
        let found = saved_eq w store apart keeps s.world x (find-host_key ks w leaves s.world) in
        let loaded =
          saved_eq w store apart keeps x (w.load_keys x) (λ key own. apart.load_keys key x own) in
        (ap (λ (n : Names). n.user) found, loaded ∙ found)

    -- A restart brings back the saved names.
    pub restart-Restarts :
        (id : ℕ) (cs : ℕ → Context L) (t : System W) (saved : Names)
        → saved_names w t.world ≡ saved
        → Restarts id cs t saved
    unfolding new_server
    restart-Restarts id cs t saved as_left =
        let (user, kept) = server_saved t in
        let server = (new_server ks w t).1 in
        let (in_use, world) = open_shell_names id cs server in
        (
          in_use
              ∙ ap (λ (n : Names). record { host = n.host; user = c_str server.ssh_username }) kept
              ∙ ap (λ (u : List ℕ). record { host = (saved_names w t.world).host; user = u }) user
              ∙ as_left,
          ap (saved_names w) world ∙ kept ∙ as_left,
          initialize_shell_prompt w ports line_card typing usernames id cs server
              ∙ ap
                  (λ (n : Names).
                    (t.out ++ prompt (c_str (usernames id)) n.host ∷ []) ++ flush ∷ [])
                  (kept ∙ as_left),
        )
