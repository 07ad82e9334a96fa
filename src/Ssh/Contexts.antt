-- ===== src/Ssh/Contexts.antt =====
-- `m_context` of the SSH server with the session contexts of LatentRedCLISessionContext.cpp: what the
-- shells share is the state that the commands work on.
use latentred.Prelude.{arith, suc, ℕ, ◌≡◌, ◌∙◌, refl, ap, Bool, true, List, [], ◌∷◌, ◌++◌, take}
use latentred.Prelude.CString.{c_str}
use latentred.Port.{InterfaceState}
use latentred.Cli.Grammar.{Token, cmd_hostname, cmd_commit}
use latentred.Cli.System.{prompt, flush, World, System, Session, OnlyPrints}
use latentred.Cli.Dispatch.{initialize, print_prompt}
use latentred.Cli.Spec.{saved_names}
use latentred.Cli.Store.{KeepsNames, IsStore, LeavesStrings}
use latentred.Cli.Sessions.{Sessions, AllOk, open_shell, CommitsSilently, execute_in}
use latentred.Cli.Stale.{committed_name}
use latentred.Ssh.{ShellOps, initialize_shell}

-- A LatentRedCLISessionContext: its host name, and what its base class keeps, with the line that is
-- being typed as an `L`.
pub record Context (L : Type 0) : Type 0 where
  pub hostname : List ℕ
  pub session : Session
  pub line : L

-- What the base class begins with, and what it does with a key and at the end of an exec request.
pub record Typing (W L : Type 0) : Type 0 where
  pub empty_line : L
  pub on_keystroke : ℕ → Bool → Context L → System W → Context L × System W
  pub silent_execute : Context L → System W → Context L × System W

module _ {W L : Type 0} (w : World W) (ports : ℕ → ℕ → InterfaceState)
    (line_card : System W → System W) (typing : Typing W L) (usernames : ℕ → List ℕ)
    (root : Bool) where
  -- Initialize(id, …, m_state[id].m_username); whether a new session is in root mode is the base
  -- class's to say
  abbrev pub initialize_context : ℕ → Context L → System W → Context L × System W
  initialize_context id c s =
      let t = initialize w ports line_card (record s { hostname = c.hostname }) in
      (
        record {
          hostname = t.hostname;
          session = record { root_mode = root; over_ssh = true; id = id; username = usernames id };
          line = typing.empty_line;
        },
        t,
      )

  abbrev pub contexts : ShellOps (Context L) (System W)
  contexts = record {
    initialize = initialize_context;
    print_prompt =
        λ c s. print_prompt w ports line_card c.session (record s { hostname = c.hostname });
    on_keystroke = typing.on_keystroke;
    silent_execute = typing.silent_execute;
  }

module _ {W L : Type 0} (w : World W) (ports : ℕ → ℕ → InterfaceState)
    (line_card : System W → System W) (typing : Typing W L) (usernames : ℕ → List ℕ) where
  -- A new shell in root mode prints the prompt with its user and the saved host name.
  pub initialize_shell_prompt :
      (j : ℕ) (cs : ℕ → Context L) (s : System W)
      → (initialize_shell (contexts w ports line_card typing usernames true) j (cs, s)).1.out
        ≡ (s.out ++ prompt (c_str (usernames j)) (saved_names w s.world).host ∷ []) ++ flush ∷ []
  unfolding initialize_shell initialize print_prompt
  initialize_shell_prompt j cs s = refl

  -- It is the opening of a shell among the sessions of Cli/Sessions.
  initialize_shell-open_shell :
      (root : Bool) (id : ℕ) (cs : ℕ → Context L) (x : Sessions W)
      → let c : Session = record {
        root_mode = root;
        over_ssh = true;
        id = id;
        username = usernames id;
      } in
        let (opened, shared) =
          initialize_shell (contexts w ports line_card typing usernames root) id (cs, x.shared) in
        (shared ≡ (open_shell w ports line_card c x).shared)
        × ((opened id).hostname ≡ (open_shell w ports line_card c x).hostnames (suc id))
  unfolding initialize_shell initialize print_prompt open_shell
  initialize_shell-open_shell root id cs x = (ground arith, ground arith)

  module _ (store : IsStore w) (apart : LeavesStrings w) (keeps : KeepsNames w)
      (prints : OnlyPrints line_card) where
    -- A host name that one session sets and commits is what a shell that is opened afterwards greets
    -- with, cut to 32 characters and whatever the shell's context held before: its first prompt has
    -- the name of its user and that host name. The committing session and the new shell are in root
    -- mode, the names of all sessions are terminated inside their arrays, and the commit prints no
    -- error. The flash store and the other services do what they document; showing the line card
    -- only prints.
    pub committed_name_greets :
        (i j : ℕ) (m n : ℕ → Token) (c : Session) (x : Sessions W) (cs : ℕ → Context L)
        → c.root_mode ≡ true
        → AllOk x
        → (m 0).command_id ≡ cmd_hostname
        → (n 0).command_id ≡ cmd_commit
        → CommitsSilently w ports line_card i (execute_in w ports line_card i m c x)
        → let shared =
            (execute_in w ports line_card i n c (execute_in w ports line_card i m c x)).shared in
          (initialize_shell (contexts w ports line_card typing usernames true) j (cs, shared)).1.out
          ≡ (shared.out ++ prompt (c_str (usernames j)) (take 32 (c_str (m 1).text)) ∷ [])
            ++ flush ∷ []
    committed_name_greets i j m n c x cs root h is_hostname is_commit silent =
        let shared =
          (execute_in w ports line_card i n c (execute_in w ports line_card i m c x)).shared in
        initialize_shell_prompt j cs shared
        ∙ ap
            (λ (name : List ℕ).
              (shared.out ++ prompt (c_str (usernames j)) name ∷ []) ++ flush ∷ [])
            (committed_name w ports line_card store apart keeps prints i m n c x root h is_hostname
              is_commit silent)
