-- ===== src/Cli/Addresses.antt =====
-- Saving the IP configuration with "commit" and reverting to it with "rollback".
use latentred.Prelude.{
  ℕ, ◌≡◌, ◌≢◌, ◌∙◌, refl, sym, ap, true, false, List, Option, none, some, arith,
}
use latentred.Prelude.CString.{bytes, list_eq}
use latentred.Cli.System.{IpConfig, World, System}
use latentred.Cli.Config.{on_commit, on_rollback, checked}
use latentred.Cli.Checked.{ne_of_list_eq, before_addresses, store_of, silent}

-- the objects of the four addresses
pub data AddressKey : List ℕ → Type 0 where
  address : AddressKey (bytes "ip.address")
  netmask : AddressKey (bytes "ip.netmask")
  broadcast : AddressKey (bytes "ip.broadcast")
  gateway : AddressKey (bytes "ip.gateway")

abbrev pub or_default : ℕ → Option ℕ → ℕ
or_default preset none = preset
or_default preset (some a) = a

-- What the flash store and ConfigureIP document of the addresses; `read` is the address in an object.
-- A store that succeeds leaves the value readable, or leaves no object if the value is the default;
-- ConfigureIP takes each address from its object, or the default where there is none.
pub record StoresAddresses {W : Type 0} (w : World W) (read : W → List ℕ → Option ℕ) : Type 0 where
  pub stored :
      (cur preset : ℕ) (key : List ℕ) (s : W)
      → (w.store_address cur preset key s).0 ≡ true
      → or_default preset (read (w.store_address cur preset key s).1 key) ≡ cur
  pub apart :
      (cur preset : ℕ) (key other : List ℕ) (s : W)
      → other ≢ key
      → read (w.store_address cur preset key s).1 other ≡ read s other
  pub load_keys : (key : List ℕ) (s : W) → AddressKey key → read (w.load_keys s) key ≡ read s key
  pub ntp_load : (key : List ℕ) (s : W) → AddressKey key → read (w.ntp_load s) key ≡ read s key
  pub configured :
      (c : IpConfig) (s : W)
      → (w.configure_ip c s).0 ≡ record {
        address = or_default w.default_config.address (read s (bytes "ip.address"));
        netmask = or_default w.default_config.netmask (read s (bytes "ip.netmask"));
        broadcast = or_default w.default_config.broadcast (read s (bytes "ip.broadcast"));
        gateway = or_default w.default_config.gateway (read s (bytes "ip.gateway"));
      }

IpConfig-ext :
    (a b : IpConfig)
    → a.address ≡ b.address
    → a.netmask ≡ b.netmask
    → a.broadcast ≡ b.broadcast
    → a.gateway ≡ b.gateway
    → a ≡ b
IpConfig-ext a b p q r s = ground arith

module _ {W : Type 0} (w : World W) (read : W → List ℕ → Option ℕ)
    (store : StoresAddresses w read) where
  store_of-other :
      (cur preset : ℕ) (key other : List ℕ) (s : System W)
      → list_eq other key ≡ false
      → read (store_of w cur preset key s).world other ≡ read s.world other
  unfolding checked
  store_of-other cur preset key other s h =
      ground (arith, store.apart cur preset key other s.world (ne_of_list_eq other key h))

  store_of-own :
      (cur preset : ℕ) (key : List ℕ) (s : System W)
      → (w.store_address cur preset key s.world).0 ≡ true
      → or_default preset (read (store_of w cur preset key s).world key) ≡ cur
  unfolding checked
  store_of-own cur preset key s done = rw done (store.stored cur preset key s.world done)

  -- after a silent commit, ConfigureIP finds what was in use
  read_back :
      (s : System W)
      → (on_commit w s).out ≡ s.out
      → (w.configure_ip s.ip (on_commit w s).world).0 ≡ s.ip
  unfolding on_commit list_eq
  read_back s e =
      let done = silent w s e in
      let d = w.default_config in
      let s3 = before_addresses w s in
      let s4 = store_of w s.ip.address d.address (bytes "ip.address") s3 in
      let s5 = store_of w s.ip.netmask d.netmask (bytes "ip.netmask") s4 in
      let s6 = store_of w s.ip.broadcast d.broadcast (bytes "ip.broadcast") s5 in
      let a : or_default d.address (read s4.world (bytes "ip.address")) ≡ s.ip.address =
        store_of-own s.ip.address d.address (bytes "ip.address") s3 done.2 in
      let b : or_default d.netmask (read s5.world (bytes "ip.netmask")) ≡ s.ip.netmask =
        store_of-own s.ip.netmask d.netmask (bytes "ip.netmask") s4 done.3 in
      let c : or_default d.broadcast (read s6.world (bytes "ip.broadcast")) ≡ s.ip.broadcast =
        store_of-own s.ip.broadcast d.broadcast (bytes "ip.broadcast") s5 done.4 in
      store.configured s.ip (on_commit w s).world
      ∙ IpConfig-ext _ _
          (ap (or_default d.address) (
              store_of-other _ _ (bytes "ip.gateway") (bytes "ip.address") s6 refl
              ∙ store_of-other _ _ (bytes "ip.broadcast") (bytes "ip.address") s5 refl
              ∙ store_of-other _ _ (bytes "ip.netmask") (bytes "ip.address") s4 refl)
            ∙ a)
          (ap (or_default d.netmask) (
              store_of-other _ _ (bytes "ip.gateway") (bytes "ip.netmask") s6 refl
              ∙ store_of-other _ _ (bytes "ip.broadcast") (bytes "ip.netmask") s5 refl)
            ∙ b)
          (ap (or_default d.broadcast)
              (store_of-other _ _ (bytes "ip.gateway") (bytes "ip.broadcast") s6 refl)
            ∙ c)
          (store_of-own s.ip.gateway d.gateway (bytes "ip.gateway") s6 done.5)

  -- the loads before ConfigureIP leave the addresses alone
  kept :
      (key : List ℕ) (s : W) → AddressKey key → read (w.ntp_load (w.load_keys s)) key ≡ read s key
  kept key s own = store.ntp_load key (w.load_keys s) own ∙ store.load_keys key s own

  -- If a commit reports no error, a later rollback restores the IP address, the netmask, the broadcast
  -- address and the gateway that were in use at the commit, whatever was configured in between, as
  -- long as the flash store is the one that the commit left. The flash store keeps addresses as it
  -- documents, and ConfigureIP takes each from its object or its default.
  pub rollback_addresses :
      (s t : System W)
      → (on_commit w s).out ≡ s.out
      → t.world ≡ (on_commit w s).world
      → (on_rollback w t).ip ≡ s.ip
  unfolding on_rollback
  rollback_addresses s t e same =
      store.configured t.ip (w.ntp_load (w.load_keys t.world))
      ∙ IpConfig-ext _ _
          (ap (or_default w.default_config.address) (kept (bytes "ip.address") t.world address))
          (ap (or_default w.default_config.netmask) (kept (bytes "ip.netmask") t.world netmask))
          (ap (or_default w.default_config.broadcast)
            (kept (bytes "ip.broadcast") t.world broadcast))
          (ap (or_default w.default_config.gateway) (kept (bytes "ip.gateway") t.world gateway))
      ∙ sym (store.configured s.ip t.world)
      ∙ ap (λ (v : W). (w.configure_ip s.ip v).0) same
      ∙ read_back s e
