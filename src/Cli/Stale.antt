-- ===== src/Cli/Stale.antt =====
-- What one session sees of another: commits and rollbacks in turn.
use latentred.Prelude.{ℕ, ◌≡◌, ◌≢◌, ◌∙◌, refl, sym, ap, true, arith, take, ==_refl}
use latentred.Prelude.CString.{c_str}
use latentred.Port.{InterfaceState}
use latentred.Cli.Grammar.{CommandId, Token, cmd_hostname, cmd_commit, cmd_rollback}
use latentred.Cli.System.{World, System, Session, OnlyPrints}
use latentred.Cli.Dispatch.{initialize}
use latentred.Cli.Store.{KeepsNames, IsStore, LeavesStrings}
use latentred.Cli.Spec.{Names, View, save, apply, meaning_of, saved_names}
use latentred.Cli.Refines.{view-on_execute, IsSilent}
use latentred.Cli.Sessions.{
  Sessions, in_session, AllOk, open_session, execute_in, view_of, CommitsSilently, execute_in-AllOk,
}

Names-ext : (a b : Names) → a.host ≡ b.host → a.user ≡ b.user → a ≡ b
Names-ext a b p q = ground arith

module _ {W : Type 0} (w : World W) (ports : ℕ → ℕ → InterfaceState)
    (line_card : System W → System W) where
  module _ (store : IsStore w) (apart : LeavesStrings w) (keeps : KeepsNames w)
      (prints : OnlyPrints line_card) where
    view_of-own :
        (i : ℕ) (id : CommandId) (m : ℕ → Token) (c : Session) (x : Sessions W)
        → (m 0).command_id ≡ id
        → c.root_mode ≡ true
        → AllOk x
        → IsSilent w id (in_session i x)
        → view_of w ports line_card i (execute_in w ports line_card i m c x)
          ≡ apply (meaning_of id m) (view_of w ports line_card i x)
    unfolding execute_in
    view_of-own i id m c x is_id root h silent =
        simp (==_refl) (
          view-on_execute w store apart keeps ports line_card prints m c (in_session i x) root
            (h.ok i) (rw is_id silent))
        ∙ ap (λ id'. apply (meaning_of id' m) (view_of w ports line_card i x)) is_id

    execute_in-other :
        (i j : ℕ) (m : ℕ → Token) (c : Session) (x : Sessions W)
        → j ≢ i
        → (execute_in w ports line_card i m c x).hostnames j ≡ x.hostnames j
    unfolding execute_in
    execute_in-other i j m c x ne = ground arith

    apply-save : (v : View) → apply save v ≡ record v { saved = v.running }
    unfolding apply
    apply-save v = refl

    after_commit :
        (i : ℕ) (m : ℕ → Token) (c : Session) (x : Sessions W)
        → c.root_mode ≡ true
        → AllOk x
        → (m 0).command_id ≡ cmd_commit
        → CommitsSilently w ports line_card i x
        → let after = view_of w ports line_card i (execute_in w ports line_card i m c x) in
          (after.saved ≡ (view_of w ports line_card i x).running)
          × (after.running ≡ (view_of w ports line_card i x).running)
    unfolding apply
    after_commit i m c x root h is_commit silent =
        let own = view_of-own i cmd_commit m c x is_commit root h (λ e. silent) in
        (ap (λ (v : View). v.saved) own, ap (λ (v : View). v.running) own)

    after_hostname :
        (i : ℕ) (m : ℕ → Token) (c : Session) (x : Sessions W)
        → c.root_mode ≡ true
        → AllOk x
        → (m 0).command_id ≡ cmd_hostname
        → (view_of w ports line_card i (execute_in w ports line_card i m c x)).running.host
          ≡ take 32 (c_str (m 1).text)
    unfolding apply
    after_hostname i m c x root h is_hostname =
        ap (λ (v : View). v.running.host)
          (view_of-own i cmd_hostname m c x is_hostname root h (λ e. cc))

    after_rollback :
        (i : ℕ) (m : ℕ → Token) (c : Session) (x : Sessions W)
        → c.root_mode ≡ true
        → AllOk x
        → (m 0).command_id ≡ cmd_rollback
        → (view_of w ports line_card i (execute_in w ports line_card i m c x)).running
          ≡ (view_of w ports line_card i x).saved
    unfolding apply
    after_rollback i m c x root h is_rollback =
        ap (λ (v : View). v.running) (view_of-own i cmd_rollback m c x is_rollback root h (λ e. cc))

    -- A rollback is how a session takes over what another one has committed: after a commit in
    -- session `i` and a rollback in session `j`, both show the host name and the SSH user name that
    -- session `i` showed at its commit. Both sessions are in root mode, and the names of all
    -- sessions are terminated inside their arrays; the commit prints no error. The flash store and
    -- the other services do what they document; showing the line card only prints.
    rollback_elsewhere :
        (i j : ℕ) (m n : ℕ → Token) (c d : Session) (x : Sessions W)
        → j ≢ i
        → c.root_mode ≡ true
        → d.root_mode ≡ true
        → AllOk x
        → (m 0).command_id ≡ cmd_commit
        → (n 0).command_id ≡ cmd_rollback
        → CommitsSilently w ports line_card i x
        → let committed = execute_in w ports line_card i m c x in
          let shared = execute_in w ports line_card j n d committed in
          ((view_of w ports line_card j shared).running ≡ (view_of w ports line_card i x).running)
          × ((view_of w ports line_card i shared).running ≡ (view_of w ports line_card i x).running)
    rollback_elsewhere i j m n c d x ne root root' h is_commit is_rollback silent =
        let b = execute_in w ports line_card i m c x in
        let taken : (view_of w ports line_card j (execute_in w ports line_card j n d b)).running
            ≡ (view_of w ports line_card i x).running =
          after_rollback j n d b root' (execute_in-AllOk w ports line_card prints i m c x h)
            is_rollback
          ∙ (after_commit i m c x root h is_commit silent).0 in
        (
          taken,
          Names-ext _ _
              (ap c_str (execute_in-other j i n d b (λ e. ne (sym e)))
                ∙ ap (λ (v : Names). v.host) (after_commit i m c x root h is_commit silent).1)
              (ap (λ (v : Names). v.user) taken),
        )

    -- the saved name after session `i` has set a name and committed it
    pub committed_name :
        (i : ℕ) (m n : ℕ → Token) (c : Session) (x : Sessions W)
        → c.root_mode ≡ true
        → AllOk x
        → (m 0).command_id ≡ cmd_hostname
        → (n 0).command_id ≡ cmd_commit
        → CommitsSilently w ports line_card i (execute_in w ports line_card i m c x)
        → (saved_names w
            (execute_in w ports line_card i n c
              (execute_in w ports line_card i m c x)).shared.world).host
          ≡ take 32 (c_str (m 1).text)
    committed_name i m n c x root h is_hostname is_commit silent =
        let a = execute_in w ports line_card i m c x in
        ap (λ v. v.host)
          (after_commit i n c a root (execute_in-AllOk w ports line_card prints i m c x h) is_commit
            silent).0
        ∙ after_hostname i m c x root h is_hostname

    -- A commit in one session undoes the host name that another one has saved: after session `i`
    -- has set a name and committed it, the saved name is that one, and after a commit in session
    -- `j`, in which no name was set, it is the name that session `j` had before. Both sessions are
    -- in root mode, and the names of all sessions are terminated inside their arrays; neither commit
    -- prints an error. The flash store and the other services do what they document; showing the
    -- line card only prints.
    pub stale_commit :
        (i j : ℕ) (m n : ℕ → Token) (c d : Session) (x : Sessions W)
        → j ≢ i
        → c.root_mode ≡ true
        → d.root_mode ≡ true
        → AllOk x
        → (m 0).command_id ≡ cmd_hostname
        → (n 0).command_id ≡ cmd_commit
        → CommitsSilently w ports line_card i (execute_in w ports line_card i m c x)
        → CommitsSilently w ports line_card j
            (execute_in w ports line_card i n c (execute_in w ports line_card i m c x))
        → let named = execute_in w ports line_card i n c (execute_in w ports line_card i m c x) in
          ((saved_names w named.shared.world).host ≡ take 32 (c_str (m 1).text))
          × ((saved_names w (execute_in w ports line_card j n d named).shared.world).host
              ≡ c_str (x.hostnames j))
    stale_commit i j m n c d x ne root root' h is_hostname is_commit silent silent' =
        let a = execute_in w ports line_card i m c x in
        let ha = execute_in-AllOk w ports line_card prints i m c x h in
        let b = execute_in w ports line_card i n c a in
        let hb = execute_in-AllOk w ports line_card prints i n c a ha in
        (
          committed_name i m n c x root h is_hostname is_commit silent,
          ap (λ v. v.host) (after_commit j n d b root' hb is_commit silent').0
              ∙ ap c_str (execute_in-other i j n c a ne ∙ execute_in-other i j m c x ne),
        )

    -- A session that is opened shows the saved host name, and the commands of other sessions never
    -- change the name that a session shows.
    open_session_name :
        (i j : ℕ) (m : ℕ → Token) (c : Session) (x : Sessions W)
        → ((view_of w ports line_card i (open_session w ports line_card i x)).running.host
            ≡ (view_of w ports line_card i x).saved.host)
          × (j ≢ i → (execute_in w ports line_card i m c x).hostnames j ≡ x.hostnames j)
    unfolding open_session initialize
    open_session_name i j m c x = (simp ==_refl refl, execute_in-other i j m c x)
