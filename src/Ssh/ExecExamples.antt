-- ===== src/Ssh/ExecExamples.antt =====
-- An exec request with a tokenizer that knows one word.
use latentred.Prelude.{
  ℕ, ◌≡◌, ◌∙◌, refl, ap, true, false, List, [], ◌∷◌, ◌++◌, arith, append-nil, append_assoc,
  if◌then◌else◌,
}
use latentred.Prelude.CString.{bytes, list_eq}
use latentred.Cli.Grammar.{Token}
use latentred.Cli.System.{System}
use latentred.Cli.Spec.{apply, meaning, view}
use latentred.Cli.Dispatch.{command, on_execute}
use latentred.Ssh.{type_all, do_exec_request}
use latentred.Ssh.Contexts.{Context, Typing, contexts}
use latentred.Ssh.Exec.{RunsLines, fresh_view, do_exec_request-view}
use latentred.Samples.{
  lab, lab-NamesOk, Flash, world, world-IsStore, world-LeavesStrings, world-KeepsNames, session,
}
use latentred.Samples.Lines.{ports, no_lines, no_lines-OnlyPrints, silent_commit, commit_line}

abbrev parse : List ℕ → ℕ → Token
parse cmd = if list_eq cmd (bytes "commit") then command commit_line else command []

-- The line so far is kept as its bytes.
abbrev keys : Typing Flash (List ℕ)
keys = record {
  empty_line = [];
  on_keystroke = λ key echo c s. (record c { line = c.line ++ key ∷ [] }, s);
  silent_execute = λ c s.
      let t =
        on_execute world ports no_lines (parse c.line) c.session
          (record s { hostname = c.hostname }) in
      (record c { hostname = t.hostname; line = [] }, t);
}

abbrev users : ℕ → List ℕ
users id = bytes "admin"

type_all-keys :
    (cmd : List ℕ) (c : Context (List ℕ)) (s : System Flash)
    → type_all (contexts world ports no_lines keys users true) false cmd c s
      ≡ (record c { line = c.line ++ cmd }, s)
type_all-keys [] c s = rw (append-nil c.line) refl
type_all-keys (key ∷ cmd) c s =
    type_all-keys cmd (record c { line = c.line ++ key ∷ [] }) s
    ∙ rw (append_assoc c.line (key ∷ []) cmd) refl

keys-RunsLines : RunsLines world ports no_lines keys users true parse
keys-RunsLines = record {
  runs = λ cmd c s plain empty.
      ap (λ (r : Context (List ℕ) × System Flash). keys.silent_execute r.0 r.1)
        (type_all-keys cmd c s)
      ∙ rw empty refl;
}

abbrev old_context : ℕ → Context (List ℕ)
old_context id = record { hostname = bytes "old"; session = session; line = bytes "half" }

do_exec_request-view_example :
    view world
      (do_exec_request
        (contexts world ports no_lines keys users true)
        1
        (bytes "commit")
        6
        (old_context, lab)).1
    ≡ apply (meaning (parse (bytes "commit"))) (fresh_view world lab)
do_exec_request-view_example =
    do_exec_request-view world ports no_lines keys users parse keys-RunsLines world-IsStore
      world-LeavesStrings world-KeepsNames no_lines-OnlyPrints 1 6 (bytes "commit") old_context lab
      (omega arith) lab-NamesOk.username_ok (λ e. silent_commit _)
