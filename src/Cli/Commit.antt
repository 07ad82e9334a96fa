-- ===== src/Cli/Commit.antt =====
-- Errors of "commit": OnCommit of LatentRedCLISessionContext.cpp goes on after a store that fails.
use latentred.Prelude.{
  ℕ, zero, suc, ◌≡◌, ◌∙◌, refl, sym, ap, Bool, true, List, [], ◌∷◌, ◌++◌, append-nil, append_assoc,
  if◌then◌else◌, Bool-cases, inl, inr,
}
use latentred.Prelude.CString.{bytes, c_str}
use latentred.Cli.System.{
  Output, printf, World, System, hostname_objid, username_objid, default_hostname,
  default_ssh_username,
}
use latentred.Cli.Config.{on_commit, checked}

-- the line that each failed store prints
abbrev pub error_lines : ℕ → List Output
error_lines zero = []
error_lines (suc n) = printf "KVS write error\n" ∷ error_lines n

module _ {W : Type 0} where
  -- All stores in turn, whatever came of those before: how many of them failed, and what is left.
  unfoldable pub try_all : List (W → Bool × W) → W → ℕ × W
  try_all [] x = (0, x)
  try_all (f ∷ fs) x =
      let (done, y) = f x in let (n, z) = try_all fs y in (if done then n else suc n, z)

module _ {W : Type 0} (w : World W) where
  -- what a commit saves, in its order; the keys and the NTP client keep objects of their own
  abbrev pub commit_steps : System W → List (W → Bool × W)
  commit_steps s =
      let d = w.default_config in
      w.store_string hostname_objid (c_str s.hostname) default_hostname
      ∷ w.store_string username_objid (c_str s.ssh_username) default_ssh_username
      ∷ (λ x. (true, w.ntp_save (w.commit_keys x)))
      ∷ w.store_address s.ip.address d.address (bytes "ip.address")
      ∷ w.store_address s.ip.netmask d.netmask (bytes "ip.netmask")
      ∷ w.store_address s.ip.broadcast d.broadcast (bytes "ip.broadcast")
      ∷ w.store_address s.ip.gateway d.gateway (bytes "ip.gateway")
      ∷ []

  abbrev after_stores : List (W → Bool × W) → System W → System W
  after_stores fs s =
      let (n, x) = try_all fs s.world in record s { world = x; out = s.out ++ error_lines n }

  check_all : List (W → Bool × W) → System W → System W
  check_all [] s = s
  check_all (f ∷ fs) s = check_all fs (checked w f s)

  check_all-after_stores :
      (fs : List (W → Bool × W)) (s : System W) → check_all fs s ≡ after_stores fs s
  unfolding check_all try_all checked
  check_all-after_stores [] s =
      ap (λ (o : List Output). record s { out = o }) (sym (append-nil s.out))
  check_all-after_stores (f ∷ fs) s = elim (Bool-cases (f s.world).0) [
    | inl done ↦ rw done (rw (check_all-after_stores fs (record s { world = (f s.world).1 })) refl)
    | inr failed ↦ rw failed (
        check_all-after_stores fs
          (record s { world = (f s.world).1; out = s.out ++ printf "KVS write error\n" ∷ [] })
        ∙ ap (λ (o : List Output). record s { world = (try_all fs (f s.world).1).1; out = o })
            (append_assoc s.out (printf "KVS write error\n" ∷ []) _))
  ]

  -- A commit tries all its stores, whichever of them fail: it leaves the flash store that they
  -- leave one after the other, with the keys and the NTP configuration saved in between, prints
  -- "KVS write error" once for each that failed and nothing else, and changes nothing else.
  pub on_commit-try_all :
      (s : System W)
      → on_commit w s ≡ (
          let (n, x) = try_all (commit_steps s) s.world in
          record s { world = x; out = s.out ++ error_lines n })
  unfolding on_commit check_all checked
  on_commit-try_all s = check_all-after_stores (commit_steps s) s
