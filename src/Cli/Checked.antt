-- ===== src/Cli/Checked.antt =====
-- One checked store: `if(!store) Printf("KVS write error\n")` in OnCommit.
use latentred.Prelude.{
  ℕ, ◌+◌, ◌≡◌, ◌≢◌, Bool, true, false, List, [], ◌∷◌, ap, arith, length, if◌then◌else◌, Bool-cases,
  inl, inr, length-append,
}
use latentred.Prelude.CString.{bytes, c_str, list_eq, list_eq_iff}
use latentred.Cli.System.{
  Output, printf, World, System, on_world, hostname_objid, username_objid, default_hostname,
  default_ssh_username,
}
use latentred.Cli.Config.{on_commit, checked}

pub ne_of_list_eq : (s t : List ℕ) → list_eq s t ≡ false → s ≢ t
ne_of_list_eq s t h e = ground (arith, list_eq_iff s t)

module _ {W : Type 0} (w : World W) where
  pub length-checked :
      (f : W → Bool × W) (s : System W)
      → length (checked w f s).out ≡ length s.out + (if (f s.world).0 then 0 else 1)
  unfolding checked
  length-checked f s = elim (Bool-cases (f s.world).0) [
    | inl done ↦ rw done (omega arith)
    | inr failed ↦ rw failed (length-append s.out (printf "KVS write error\n" ∷ []))
  ]

  -- the states between the stores of a commit
  abbrev pub after_hostname : System W → System W
  after_hostname s = checked w (w.store_string hostname_objid (c_str s.hostname) default_hostname) s

  abbrev pub after_username : System W → System W
  after_username s =
      checked w (w.store_string username_objid (c_str s.ssh_username) default_ssh_username)
        (after_hostname s)

  abbrev pub before_addresses : System W → System W
  before_addresses s = on_world w.ntp_save (on_world w.commit_keys (after_username s))

  abbrev pub store_of : ℕ → ℕ → List ℕ → System W → System W
  store_of cur preset key s = checked w (w.store_address cur preset key) s

  -- In a commit that prints nothing all six stores have succeeded.
  pub silent :
      (s : System W)
      → (on_commit w s).out ≡ s.out
      → let d = w.default_config in
        let s1 = after_hostname s in
        let s3 = before_addresses s in
        let s4 = store_of s.ip.address d.address (bytes "ip.address") s3 in
        let s5 = store_of s.ip.netmask d.netmask (bytes "ip.netmask") s4 in
        let s6 = store_of s.ip.broadcast d.broadcast (bytes "ip.broadcast") s5 in
        ((w.store_string hostname_objid (c_str s.hostname) default_hostname s.world).0 ≡ true)
        × ((w.store_string username_objid (c_str s.ssh_username) default_ssh_username s1.world).0
            ≡ true)
        × ((w.store_address s.ip.address d.address (bytes "ip.address") s3.world).0 ≡ true)
        × ((w.store_address s.ip.netmask d.netmask (bytes "ip.netmask") s4.world).0 ≡ true)
        × ((w.store_address s.ip.broadcast d.broadcast (bytes "ip.broadcast") s5.world).0 ≡ true)
        × ((w.store_address s.ip.gateway d.gateway (bytes "ip.gateway") s6.world).0 ≡ true)
  unfolding on_commit
  silent s e =
      let d = w.default_config in
      let f1 = w.store_string hostname_objid (c_str s.hostname) default_hostname in
      let f2 = w.store_string username_objid (c_str s.ssh_username) default_ssh_username in
      let s3 = before_addresses s in
      let f4 = w.store_address s.ip.address d.address (bytes "ip.address") in
      let s4 = checked w f4 s3 in
      let f5 = w.store_address s.ip.netmask d.netmask (bytes "ip.netmask") in
      let s5 = checked w f5 s4 in
      let f6 = w.store_address s.ip.broadcast d.broadcast (bytes "ip.broadcast") in
      let s6 = checked w f6 s5 in
      let f7 = w.store_address s.ip.gateway d.gateway (bytes "ip.gateway") in
      ground (
        arith,
        ap (λ (o : List Output). length o) e,
        length-checked f1 s,
        length-checked f2 (after_hostname s),
        length-checked f4 s3,
        length-checked f5 s4,
        length-checked f6 s5,
        length-checked f7 s6,
      )
