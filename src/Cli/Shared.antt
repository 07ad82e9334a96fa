-- ===== src/Cli/Shared.antt =====
-- What several sessions promise together: each has a host name of its own, the user name and the flash
-- store are shared.
use mathlib.Core.Path.{fun_ext}
use latentred.Prelude.{
  ℕ, ◌≡◌, ◌∙◌, refl, ap, false, List, arith, update, if◌then◌else◌, ◌==◌, Bool-cases, inl, inr,
}
use latentred.Prelude.CString.{c_str}
use latentred.Port.{InterfaceState}
use latentred.Cli.Grammar.{Token, cmd_commit}
use latentred.Cli.System.{World, System, Session, OnlyPrints}
use latentred.Cli.Config.{load_hostname}
use latentred.Cli.Dispatch.{on_execute, initialize, print_prompt}
use latentred.Cli.Spec.{Names, View, Change, keep, apply, meaning, saved_names, view}
use latentred.Cli.Store.{KeepsNames, IsStore, LeavesStrings}
use latentred.Cli.Buffers.{NamesOk}
use latentred.Cli.Refines.{IsSilent, view-on_execute}
use latentred.Cli.Sessions.{
  Sessions, context_of, in_session, leave, AllOk, open_shell, execute_in, CommitsSilently,
}

pub record Views : Type 0 where
  pub hosts : ℕ → List ℕ
  pub user : List ℕ
  pub saved : Names

-- session `i` alone, and what it has changed
abbrev pub seen_by : ℕ → Views → View
seen_by i v = record { running = record { host = v.hosts i; user = v.user }; saved = v.saved }

abbrev pub put_back : ℕ → View → Views → Views
put_back i own v = record {
  hosts = update v.hosts i own.running.host;
  user = own.running.user;
  saved = own.saved;
}

-- A session that is not in root mode has no commands.
abbrev pub meaning_in : Session → (ℕ → Token) → Change
meaning_in c m = if c.root_mode then meaning m else keep

abbrev pub line_in : Session → (ℕ → Token) → Views → Views
line_in c m v = put_back (context_of c) (apply (meaning_in c m) (seen_by (context_of c) v)) v

-- A new shell starts with the saved host name.
abbrev pub shell_in : Session → Views → Views
shell_in c v = record v { hosts = update v.hosts (context_of c) v.saved.host }

abbrev pub views : {W : Type 0} → World W → Sessions W → Views
views w x = record {
  hosts = λ i. c_str (x.hostnames i);
  user = c_str x.shared.ssh_username;
  saved = saved_names w x.shared.world;
}

c_str-update :
    (names : ℕ → List ℕ) (i j : ℕ) (name : List ℕ)
    → c_str (update names i name j) ≡ update (λ k. c_str (names k)) i (c_str name) j
c_str-update names i j name = elim (Bool-cases (i == j)) [
  | inl e ↦ simp e refl
  | inr e ↦ simp e refl
]

Views-ext :
    (a b : Views) → ((i : ℕ) → a.hosts i ≡ b.hosts i) → a.user ≡ b.user → a.saved ≡ b.saved → a ≡ b
Views-ext a b p q r = let e : a.hosts ≡ b.hosts = fun_ext p in ground arith

module _ {W : Type 0} (w : World W) (ports : ℕ → ℕ → InterfaceState)
    (line_card : System W → System W) where
  views-leave :
      (i : ℕ) (x : Sessions W) (s : System W)
      → views w (leave i x s) ≡ put_back i (view w s) (views w x)
  views-leave i x s =
      Views-ext (views w (leave i x s)) (put_back i (view w s) (views w x))
        (λ j. c_str-update x.hostnames i j s.hostname) refl refl

  view-print_prompt :
      (c : Session) (s : System W) → view w (print_prompt w ports line_card c s) ≡ view w s
  unfolding print_prompt
  view-print_prompt c s = elim (Bool-cases c.root_mode) [
    | inl e ↦ simp e refl
    | inr e ↦ simp e refl
  ]

  pub views-open_shell :
      (c : Session) (x : Sessions W)
      → views w (open_shell w ports line_card c x) ≡ shell_in c (views w x)
  unfolding open_shell initialize load_hostname
  views-open_shell c x =
      let i = context_of c in
      let s = initialize w ports line_card (in_session i x) in
      views-leave i x (print_prompt w ports line_card c s)
      ∙ ap (λ v. put_back i v (views w x)) (view-print_prompt c s)

  module _ (store : IsStore w) (apart : LeavesStrings w) (keeps : KeepsNames w)
      (prints : OnlyPrints line_card) where
    not_root_view :
        (m : ℕ → Token) (c : Session) (s : System W)
        → c.root_mode ≡ false
        → view w (on_execute w ports line_card m c s) ≡ apply (meaning_in c m) (view w s)
    unfolding on_execute apply
    not_root_view m c s other = simp other refl

    own_view :
        (m : ℕ → Token) (c : Session) (s : System W)
        → NamesOk s
        → IsSilent w (m 0).command_id s
        → view w (on_execute w ports line_card m c s) ≡ apply (meaning_in c m) (view w s)
    own_view m c s h silent = elim (Bool-cases c.root_mode) [
      | inl root ↦
          let as_meant : meaning m ≡ meaning_in c m = simp root refl in
          view-on_execute w store apart keeps ports line_card prints m c s root h silent
          ∙ ap (λ (change : Change). apply change (view w s)) as_meant
      | inr other ↦ not_root_view m c s other
    ]

    pub views-execute_in :
        (m : ℕ → Token) (c : Session) (x : Sessions W)
        → AllOk x
        → ((m 0).command_id ≡ cmd_commit → CommitsSilently w ports line_card (context_of c) x)
        → views w (execute_in w ports line_card (context_of c) m c x) ≡ line_in c m (views w x)
    unfolding execute_in
    views-execute_in m c x h silent =
        let i = context_of c in
        views-leave i x (on_execute w ports line_card m c (in_session i x))
        ∙ ap (λ v. put_back i v (views w x)) (own_view m c (in_session i x) (h.ok i) silent)
