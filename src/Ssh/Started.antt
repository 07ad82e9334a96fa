-- ===== src/Ssh/Started.antt =====
-- The SSH server as its constructor leaves it.
use latentred.Prelude.{
  dec_lt, ==_refl, ◌∙◌, ◌⊎◌, inl, inr, ℕ, zero, suc, ◌+◌, ◌≤◌, ◌<◌, ◌≡◌, refl, true, false, Option,
  none, some, arith, update, length,
}
use latentred.Prelude.CString.{c_str, IsTerminated}
use latentred.Config.{stack_config}
use latentred.Cli.System.{World, System, default_ssh_username, username_objid}
use latentred.Cli.Buffers.{stored_or-IsTerminated}
use latentred.Cli.Spec.{saved_names}
use latentred.Ssh.{KeyStore, host_key, init_engines, new_server}

init_engines-lt : (i n j : ℕ) (crypto : ℕ → Option ℕ) → j < i → init_engines i n crypto j ≡ crypto j
init_engines-lt i zero j crypto h = refl
init_engines-lt i (suc n) j crypto h =
    let rest = init_engines-lt (suc i) n j (update crypto i (some i)) (omega arith) in
    ground (arith, rest)

init_engines-own :
    (i n j : ℕ) (crypto : ℕ → Option ℕ) → i ≤ j → j < i + n → init_engines i n crypto j ≡ some j
init_engines-own i zero j crypto low high = absurd (omega arith)
init_engines-own i (suc n) j crypto low high = elim (dec_lt i j) [
  | yes past ↦ init_engines-own (suc i) n j (update crypto i (some i)) past (omega arith)
  | no here ↦
      let e : i ≡ j = omega arith in
      rw (← e)
        (init_engines-lt (suc i) n i (update crypto i (some i)) (omega arith) ∙ simp ==_refl refl)
]

init_engines-past :
    (i n j : ℕ) (crypto : ℕ → Option ℕ) → i + n ≤ j → init_engines i n crypto j ≡ crypto j
init_engines-past i zero j crypto h = refl
init_engines-past i (suc n) j crypto h =
    let rest = init_engines-past (suc i) n j (update crypto i (some i)) (omega arith) in
    ground (arith, rest)

module _ {W : Type 0} (ks : KeyStore W) (w : World W) where
  key_logins :
      (s : W) → ((host_key ks s).0.password_auth ≡ false) × ((host_key ks s).0.pubkey_auth ≡ true)
  unfolding host_key
  key_logins s = (ground arith, ground arith)

  engines :
      (i : ℕ)
      → let crypto = init_engines 0 stack_config.ssh_table_size (λ j. none) in
        ((i < stack_config.ssh_table_size) × (crypto i ≡ some i))
        ⊎ ((stack_config.ssh_table_size ≤ i) × (crypto i ≡ none))
  engines i = elim (dec_lt i stack_config.ssh_table_size) [
    | yes inside ↦ inl (inside, init_engines-own 0 2 i (λ j. none) (omega arith) inside)
    | no past ↦ inr (omega arith, init_engines-past 0 2 i (λ j. none) (omega arith))
  ]

  -- Each connection of the table has an engine of its own and no other has one; logins are by key
  -- only; the user name is the saved one, or the default, terminated inside its array.
  pub new_server_ready :
      (s : System W) (i : ℕ)
      → let (server, s') = new_server ks w s in
        (((i < stack_config.ssh_table_size) × (server.crypto i ≡ some i))
          ⊎ ((stack_config.ssh_table_size ≤ i) × (server.crypto i ≡ none)))
        × (server.host.password_auth ≡ false)
        × (server.host.pubkey_auth ≡ true)
        × (c_str s'.ssh_username ≡ (saved_names w (host_key ks s.world).1).user)
        × (length s'.ssh_username ≡ stack_config.cli_username_max)
        × IsTerminated 31 s'.ssh_username
  unfolding new_server
  new_server_ready s i =
      let (password, pubkey) = key_logins s.world in
      let name =
        stored_or-IsTerminated 31 default_ssh_username
          (w.find_object (host_key ks s.world).1 username_objid) in
      (engines i, password, pubkey, refl, name.sized, name)
