-- ===== src/Ssh/Shell.antt =====
-- The shells of the SSH server.
use latentred.Prelude.{ℕ, ◌≡◌, ◌≢◌, refl, Bool, List, [], ◌∷◌, ◌++◌, arith, length, take, ==_refl}
use latentred.Prelude.CString.{take-all}
use latentred.Ssh.{
  ShellOps, on_context, type_all, greet, execute_silently, initialize_shell, on_rx_shell_data,
  do_exec_request,
}

pub take-whole : (s : List ℕ) → take (length s) s ≡ s
take-whole s = take-all (length s) s (omega arith)

module _ {C S : Type 0} where
  on_context-other :
      (id other : ℕ) (f : C → S → C × S) (x : (ℕ → C) × S)
      → other ≢ id
      → (on_context id f x).0 other ≡ x.0 other
  on_context-other id other f x apart = ground arith

module _ {C S : Type 0} (sh : ShellOps C S) where
  type_all-append :
      (echo : Bool) (xs ys : List ℕ) (c : C) (s : S)
      → type_all sh echo (xs ++ ys) c s
        ≡ type_all sh echo ys (type_all sh echo xs c s).0 (type_all sh echo xs c s).1
  type_all-append echo [] ys c s = refl
  type_all-append echo (x ∷ xs) ys c s =
      let (c', s') = sh.on_keystroke x echo c s in type_all-append echo xs ys c' s'

  -- How the shell data of a connection is cut into packets makes no difference: two packets leave
  -- every shell, and what the shells share, as one packet with the bytes of both does.
  pub on_rx_shell_data-append :
      (id : ℕ) (xs ys : List ℕ) (x : (ℕ → C) × S) (i : ℕ)
      → let two = on_rx_shell_data sh id ys (length ys) (on_rx_shell_data sh id xs (length xs) x) in
        let one = on_rx_shell_data sh id (xs ++ ys) (length (xs ++ ys)) x in
        (two.0 i ≡ one.0 i) × (two.1 ≡ one.1)
  unfolding on_rx_shell_data
  on_rx_shell_data-append id xs ys x i = (
    simp (take-whole, type_all-append, ==_refl) (ground arith),
    simp (take-whole, type_all-append, ==_refl) refl,
  )

  -- A connection reaches its own shell alone: opening one, shell data and an exec request of one
  -- session leave the contexts of all others as they are.
  pub shells_apart :
      (id other len : ℕ) (data' : List ℕ) (x : (ℕ → C) × S)
      → other ≢ id
      → ((initialize_shell sh id x).0 other ≡ x.0 other)
        × ((on_rx_shell_data sh id data' len x).0 other ≡ x.0 other)
        × ((do_exec_request sh id data' len x).0 other ≡ x.0 other)
  unfolding initialize_shell on_rx_shell_data do_exec_request
  shells_apart id other len data' x apart = (
    on_context-other id other (greet sh id) x apart,
    on_context-other id other (type_all sh _ (take len data')) x apart,
    on_context-other id other (execute_silently sh id (take len data')) x apart,
  )
