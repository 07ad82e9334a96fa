-- ===== src/Ssh/HostKey.antt =====
-- The host key over restarts.
use latentred.Prelude.{ℕ, ◌≡◌, ◌≢◌, ◌⊎◌, true, false, List, none, some, arith}
use latentred.Prelude.CString.{list_eq, list_eq_iff}
use latentred.Ssh.{KeyStore, host_key, hostpub_objid, hostpriv_objid}

-- What the flash store documents: a store that succeeds can be read back, and no store touches an
-- object of another name.
pub record IsKeyStore {W : Type 0} (ks : KeyStore W) : Type 0 where
  pub stored :
      (key value : List ℕ) (s : W)
      → (ks.store_object key value s).0 ≡ true
      → ks.read_object key (ks.store_object key value s).1 ≡ some value
  pub apart :
      (key value other : List ℕ) (s : W)
      → other ≢ key
      → ks.read_object other (ks.store_object key value s).1 ≡ ks.read_object other s

keys_apart : hostpub_objid ≢ hostpriv_objid
unfolding list_eq
keys_apart e = ground (arith, (list_eq_iff hostpub_objid hostpriv_objid).1 e)

module _ {W : Type 0} (ks : KeyStore W) (law : IsKeyStore ks) where
  -- Where the flash store accepts both halves of a newly made key pair, a server that starts again
  -- has the key pair of its last start, and then leaves the flash store as it is; this holds for a
  -- key that was found and for one that was made, also where only one half had been in the store.
  pub host_key_stable :
      (s : W)
      → (let (public, private, s1) = ks.generate_host_key s in
          ((ks.store_object hostpub_objid public s1).0 ≡ true)
          × ((ks.store_object hostpriv_objid private (ks.store_object hostpub_objid public s1).1).0
              ≡ true))
      → let (server, s') = host_key ks s in
        ((host_key ks s').0.public_key ≡ server.public_key)
        × ((host_key ks s').0.private_key ≡ server.private_key)
        × ((host_key ks s').1 ≡ s')
  unfolding host_key
  host_key_stable s (h, h') =
      let (public, private, s1) = ks.generate_host_key s in
      let s2 = (ks.store_object hostpub_objid public s1).1 in
      ground (
        arith,
        h,
        h',
        law.stored hostpub_objid public s1 h,
        law.stored hostpriv_objid private s2 h',
        law.apart hostpriv_objid private hostpub_objid s2 keys_apart,
      )

  -- Password logins are never enabled and key logins always are; the pair in use is the stored one
  -- exactly if both halves are stored, and otherwise a new one, even if storing it fails.
  pub host_key_choice :
      (s : W)
      → let server = (host_key ks s).0 in
        (server.password_auth ≡ false)
        × (server.pubkey_auth ≡ true)
        × ((p q : List ℕ)
            → ks.read_object hostpub_objid s ≡ some p
            → ks.read_object hostpriv_objid s ≡ some q
            → (server.public_key ≡ p) × (server.private_key ≡ q) × ((host_key ks s).1 ≡ s))
        × ((ks.read_object hostpub_objid s ≡ none) ⊎ (ks.read_object hostpriv_objid s ≡ none)
            → (server.public_key ≡ (ks.generate_host_key s).0)
              × (server.private_key ≡ (ks.generate_host_key s).1))
  unfolding host_key
  host_key_choice s =
      (ground arith, ground arith, λ p q hp hq. ground arith, λ missing. ground arith)
