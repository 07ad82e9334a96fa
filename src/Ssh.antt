-- ===== src/Ssh.antt =====
-- firmware/lcbringup/main/LatentRedSSHTransportServer.cpp and .h: the host key, the authenticators and
-- the shells of the SSH server.
pub mod HostKey
pub mod Shell
pub mod Contexts
pub mod Started
pub mod Exec
pub mod Restart
mod Examples
mod ExecExamples
use Prim.Native.String.{String}
use latentred.Prelude.{
  zero, suc, map, ℕ, ◌&&◌, Bool, true, false, List, [], ◌∷◌, ◌++◌, Option, none, some, update, take,
  if◌then◌else◌,
}
use latentred.Prelude.CString.{bytes}
use latentred.Config.{stack_config}
use latentred.Cli.System.{World, System}
use latentred.Cli.Config.{load_username}

-- The flash store and the crypto engine, as the constructor uses them.
pub record KeyStore (W : Type 0) : Type 0 where
  -- ReadObject(key, buffer, ECDSA_KEY_SIZE): the bytes, if there is such an object
  pub read_object : List ℕ → W → Option (List ℕ)
  pub store_object : List ℕ → List ℕ → W → Bool × W
  -- GenerateHostKey: the public and the private key
  pub generate_host_key : W → List ℕ × List ℕ × W
  -- GetHostKeyFingerprint, of the public key
  pub fingerprint : List ℕ → List ℕ

-- What the setup of the host key leaves: the key pair of the engine, the authenticators that the
-- constructor sets, and what is logged of the key.
pub record Server : Type 0 where
  pub public_key : List ℕ
  pub private_key : List ℕ
  pub password_auth : Bool
  pub pubkey_auth : Bool
  pub log : List String

abbrev pub hostpub_objid : List ℕ
hostpub_objid = bytes "ssh.hostpub"

abbrev pub hostpriv_objid : List ℕ
hostpriv_objid = bytes "ssh.hostpriv"

module _ {W : Type 0} (ks : KeyStore W) where
  abbrev complaint : Bool → String → List String
  complaint done text = if done then [] else text ∷ []

  -- Both keys are stored, each with its own error line.
  unfoldable pub create_host_key : W → Server × W
  create_host_key s =
      let (public, private, s1) = ks.generate_host_key s in
      let (pub_ok, s2) = ks.store_object hostpub_objid public s1 in
      let (priv_ok, s3) = ks.store_object hostpriv_objid private s2 in
      (
        record {
          public_key = public;
          private_key = private;
          password_auth = false;
          pubkey_auth = true;
          log =
              "No SSH host key in flash, generating new key pair\n"
              ∷ (complaint pub_ok "Unable to store SSH host public key to flash\n"
                  ++ complaint priv_ok "Unable to store SSH host private key to flash\n");
        },
        s3,
      )

  abbrev use_or_create : Option (List ℕ) → Option (List ℕ) → W → Server × W
  use_or_create (some public) (some private) s = (
    record {
      public_key = public;
      private_key = private;
      password_auth = false;
      pubkey_auth = true;
      log = "Using existing SSH host key\n" ∷ [];
    },
    s,
  )
  use_or_create _ _ s = create_host_key s

  -- The constructor, up to the loads at its end: a key pair is used only if both halves are there.
  unfoldable pub host_key : W → Server × W
  unfolding create_host_key
  host_key s = use_or_create (ks.read_object hostpub_objid s) (ks.read_object hostpriv_objid s) s

-- What the constructor logs.
pub data Entry : Type 0 where
  text : String → Entry
  fingerprint : List ℕ → Entry

-- The server that the constructor leaves: the host key, the engine that `m_crypto` of each connection
-- points to, if any, and the whole log.
pub record Transport : Type 0 where
  pub host : Server
  pub crypto : ℕ → Option ℕ
  pub log : List Entry

-- `m_state[i].m_crypto = &m_engine[i]`, from `i` over the next `n`
abbrev pub init_engines : ℕ → ℕ → (ℕ → Option ℕ) → ℕ → Option ℕ
init_engines i zero crypto = crypto
init_engines i (suc n) crypto = init_engines (suc i) n (update crypto i (some i))

module _ {W : Type 0} (ks : KeyStore W) where
  -- The whole constructor, on the state that the command line shares: the engines, the key pair, then
  -- the user name and the authorized keys.
  unfoldable pub new_server : World W → System W → Transport × System W
  unfolding host_key load_username
  new_server w s =
      let (host, world) = host_key ks s.world in
      let t = load_username w (record s { world = world }) in
      (
        record {
          host = host;
          crypto = init_engines 0 stack_config.ssh_table_size (λ i. none);
          log =
              text "Initializing SSH server\n"
              ∷ (map text host.log ++ fingerprint (ks.fingerprint host.public_key) ∷ []);
        },
        record t { world = w.load_keys t.world },
      )

-- The shells: `m_context` with a session context `C` for each connection, and the state `S` that
-- all of them share, such as the flash store and what was printed.
pub record ShellOps (C S : Type 0) : Type 0 where
  -- Initialize(id, …, m_state[id].m_username)
  pub initialize : ℕ → C → S → C × S
  pub print_prompt : C → S → S
  -- OnKeystroke(c, echo)
  pub on_keystroke : ℕ → Bool → C → S → C × S
  pub silent_execute : C → S → C × S

module _ {C S : Type 0} where
  -- a call on `m_context[id]`
  abbrev pub on_context : ℕ → (C → S → C × S) → (ℕ → C) × S → (ℕ → C) × S
  on_context id f x = let (c, s) = f (x.0 id) x.1 in (update x.0 id c, s)

module _ {C S : Type 0} (sh : ShellOps C S) where
  abbrev pub type_all : Bool → List ℕ → C → S → C × S
  type_all echo [] c s = (c, s)
  type_all echo (key ∷ keys) c s =
      let (c', s') = sh.on_keystroke key echo c s in type_all echo keys c' s'

  abbrev pub greet : ℕ → C → S → C × S
  greet id c s = let (c', s') = sh.initialize id c s in (c', sh.print_prompt c' s')

  unfoldable pub initialize_shell : ℕ → (ℕ → C) × S → (ℕ → C) × S
  initialize_shell id = on_context id (greet id)

  -- the first `len` bytes of `data`, one at a time
  unfoldable pub on_rx_shell_data : ℕ → List ℕ → ℕ → (ℕ → C) × S → (ℕ → C) × S
  on_rx_shell_data id bytes len = on_context id (type_all true (take len bytes))

  abbrev pub execute_silently : ℕ → List ℕ → C → S → C × S
  execute_silently id cmd c s =
      let (c1, s1) = sh.initialize id c s in
      let (c2, s2) = type_all false cmd c1 s1 in sh.silent_execute c2 s2

  unfoldable pub do_exec_request : ℕ → List ℕ → ℕ → (ℕ → C) × S → (ℕ → C) × S
  do_exec_request id cmd len = on_context id (execute_silently id (take len cmd))
