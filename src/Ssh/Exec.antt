-- ===== src/Ssh/Exec.antt =====
-- DoExecRequest with the commands of the command line: `ssh host command`.
use latentred.Prelude.{ℕ, ◌≤◌, ◌<◌, ◌≡◌, ◌∙◌, refl, ap, Bool, true, false, List, take, All}
use latentred.Prelude.CString.{c_str, IsTerminated}
use latentred.Port.{InterfaceState}
use latentred.Cli.Grammar.{CommandId, Token, cmd_commit}
use latentred.Cli.System.{World, System, OnlyPrints, default_hostname, hostname_objid}
use latentred.Cli.Config.{on_commit}
use latentred.Cli.Dispatch.{initialize, on_execute}
use latentred.Cli.Spec.{View, apply, meaning, meaning_of, saved_names, view}
use latentred.Cli.Store.{KeepsNames, IsStore, LeavesStrings}
use latentred.Cli.Buffers.{stored_or-IsTerminated}
use latentred.Cli.Refines.{IsSilent, view-on_execute}
use latentred.Ssh.{type_all, do_exec_request}
use latentred.Ssh.Contexts.{Context, Typing, contexts, initialize_context}

-- printable characters only, with no end of line among them
abbrev pub IsPlain : List ℕ → Type 0
IsPlain cmd = All (λ (b : ℕ). (32 ≤ b) × (b < 127)) cmd

-- the names as the session of an exec request sees them: its host name is the saved one
abbrev pub fresh_view : {W : Type 0} → World W → System W → View
fresh_view w s = record (view w s) {
  running = record { host = (saved_names w s.world).host; user = c_str s.ssh_username };
}

module _ {W L : Type 0} (w : World W) (ports : ℕ → ℕ → InterfaceState)
    (line_card : System W → System W) (typing : Typing W L) (usernames : ℕ → List ℕ) (root : Bool)
    (parse : List ℕ → ℕ → Token) where
  abbrev pub ended : Context L → System W → Context L × System W
  ended c s = (record c { hostname = s.hostname; line = typing.empty_line }, s)

  -- What the base class documents: keys that are typed into an empty line do nothing but fill it, and
  -- SilentExecute runs OnExecute on the line's tokens.
  pub record RunsLines : Type 0 where
    pub runs :
        (cmd : List ℕ) (c : Context L) (s : System W)
        → IsPlain cmd
        → c.line ≡ typing.empty_line
        → let (c', s') =
            type_all (contexts w ports line_card typing usernames root) false cmd c s in
          typing.silent_execute c' s'
          ≡ ended c (
              on_execute w ports line_card
                (parse cmd)
                c.session
                (record s { hostname = c.hostname }))

module _ {W L : Type 0} (w : World W) (ports : ℕ → ℕ → InterfaceState)
    (line_card : System W → System W) (typing : Typing W L) (usernames : ℕ → List ℕ)
    (parse : List ℕ → ℕ → Token) (runs : RunsLines w ports line_card typing usernames true parse)
    (store : IsStore w) (apart : LeavesStrings w) (keeps : KeepsNames w)
    (prints : OnlyPrints line_card) where
  -- An exec request is a new session that runs the one command: what a reader then sees of the host
  -- name and the SSH user name, and what the next load would give, is what the change that the
  -- command means makes of the saved host name and the user name in use, whatever the context of
  -- the connection held before. The command is of printable characters, the user name is terminated
  -- inside its array, new sessions are in root mode, and a command that is a commit prints no
  -- error. The base class, the flash store and the other services do what they document; showing
  -- the line card only prints.
  pub do_exec_request-view :
      (id len : ℕ) (cmd : List ℕ) (cs : ℕ → Context L) (s : System W)
      → IsPlain (take len cmd)
      → IsTerminated 31 s.ssh_username
      → IsSilent w (parse (take len cmd) 0).command_id (initialize w ports line_card s)
      → view w
          (do_exec_request (contexts w ports line_card typing usernames true) id cmd len (cs, s)).1
        ≡ apply (meaning (parse (take len cmd))) (fresh_view w s)
  unfolding do_exec_request initialize
  do_exec_request-view id len cmd cs s plain ok silent =
      let (c1, s1) = initialize_context w ports line_card typing usernames true id (cs id) s in
      ap (λ (r : Context L × System W). view w r.1) (runs.runs (take len cmd) c1 s1 plain refl)
      ∙ view-on_execute w store apart keeps ports line_card prints (parse (take len cmd)) c1.session
          s1 refl
          (record {
            hostname_ok =
                stored_or-IsTerminated 32 default_hostname (w.find_object s.world hostname_objid);
            username_ok = ok;
          })
          silent

  -- So "commit" as an exec request never undoes a saved host name, as in an older session it may.
  exec_commit :
      (id len : ℕ) (cmd : List ℕ) (cs : ℕ → Context L) (s : System W)
      → IsPlain (take len cmd)
      → IsTerminated 31 s.ssh_username
      → (parse (take len cmd) 0).command_id ≡ cmd_commit
      → (on_commit w (initialize w ports line_card s)).out ≡ (initialize w ports line_card s).out
      → let after =
          (do_exec_request
            (contexts w ports line_card typing usernames true)
            id
            cmd
            len
            (cs, s)).1 in
        ((saved_names w after.world).host ≡ (saved_names w s.world).host)
        × ((saved_names w after.world).user ≡ c_str s.ssh_username)
  unfolding apply
  exec_commit id len cmd cs s plain ok is_commit silent =
      let whole =
        do_exec_request-view id len cmd cs s plain ok (λ e. silent)
        ∙ ap (λ (i : CommandId). apply (meaning_of i (parse (take len cmd))) (fresh_view w s))
            is_commit in
      (ap (λ (v : View). v.saved.host) whole, ap (λ (v : View). v.saved.user) whole)
