-- ===== src/Cli/Sessions.antt =====
-- Several sessions at once, one on the serial port and one in each SSH shell: every session has its
-- own `m_hostname` (LatentRedCLISessionContext.h), while the flash store, the SSH user name and the
-- IP configuration are shared.
use latentred.Prelude.{if◌then◌else◌, suc, ℕ, ◌≡◌, List, arith, update}
use latentred.Port.{InterfaceState}
use latentred.Cli.Grammar.{Token}
use latentred.Cli.System.{World, System, Session, OnlyPrints}
use latentred.Cli.Dispatch.{on_execute, initialize, print_prompt}
use latentred.Cli.Buffers.{NamesOk, on_execute-NamesOk, greeting-NamesOk}
use latentred.Cli.Spec.{View, view}
use latentred.Cli.Config.{on_commit}

-- The field `hostname` of the shared state is that of the session that ran last.
pub record Sessions (W : Type 0) : Type 0 where
  pub hostnames : ℕ → List ℕ
  pub shared : System W

-- the place of a session's context: the serial port's, then those of the SSH shells
abbrev pub context_of : Session → ℕ
context_of c = if c.over_ssh then suc c.id else 0

module _ {W : Type 0} where
  -- the state that session `i` works on
  abbrev pub in_session : ℕ → Sessions W → System W
  in_session i x = record (x.shared) { hostname = x.hostnames i }

  abbrev pub leave : ℕ → Sessions W → System W → Sessions W
  leave i x s = record { hostnames = update x.hostnames i s.hostname; shared = s }

  pub record AllOk (x : Sessions W) : Type 0 where
    pub ok : (i : ℕ) → NamesOk (in_session i x)

module _ {W : Type 0} (w : World W) (ports : ℕ → ℕ → InterfaceState)
    (line_card : System W → System W) where
  unfoldable pub open_session : ℕ → Sessions W → Sessions W
  open_session i x = leave i x (initialize w ports line_card (in_session i x))

  -- a shell that is opened: Initialize, then the first prompt
  unfoldable pub open_shell : Session → Sessions W → Sessions W
  unfolding initialize
  open_shell c x = leave (context_of c) x (
      print_prompt w ports line_card c (initialize w ports line_card (in_session (context_of c) x)))

  unfoldable pub execute_in : ℕ → (ℕ → Token) → Session → Sessions W → Sessions W
  execute_in i m c x = leave i x (on_execute w ports line_card m c (in_session i x))

  -- what session `i` sees
  abbrev pub view_of : ℕ → Sessions W → View
  view_of i x = view w (in_session i x)

  -- a commit in session `i` prints no error
  abbrev pub CommitsSilently : ℕ → Sessions W → Type 0
  CommitsSilently i x = (on_commit w (in_session i x)).out ≡ x.shared.out

  pub open_shell-AllOk : (c : Session) (x : Sessions W) → AllOk x → AllOk (open_shell c x)
  unfolding open_shell
  open_shell-AllOk c x h = record {
    ok = λ j.
        let r =
          greeting-NamesOk w ports line_card c (in_session (context_of c) x)
            (h.ok (context_of c)) in
        let q = h.ok j in ground (arith, r, q);
  }

  module _ (prints : OnlyPrints line_card) where
    pub execute_in-AllOk :
        (i : ℕ) (m : ℕ → Token) (c : Session) (x : Sessions W)
        → AllOk x
        → AllOk (execute_in i m c x)
    unfolding execute_in
    execute_in-AllOk i m c x h = record {
      ok = λ j.
          let r = on_execute-NamesOk w ports line_card prints m c (in_session i x) (h.ok i) in
          let q = h.ok j in ground (arith, r, q);
    }
