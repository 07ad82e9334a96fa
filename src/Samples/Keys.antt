-- ===== src/Samples/Keys.antt =====
-- A key store beside the concrete flash store, and the base class of a session without a tokenizer.
use latentred.Prelude.{ℕ, List, [], ◌∷◌, refl, true}
use latentred.Prelude.CString.{bytes}
use latentred.Ssh.{KeyStore}
use latentred.Ssh.Contexts.{Context, Typing}
use latentred.Ssh.Restart.{LeavesNames}
use latentred.Samples.{lab, session, Flash, world, put, put_other}

abbrev pub keys : KeyStore Flash
keys = record {
  read_object = λ key s. s key;
  store_object = λ key value s. (true, put key value s);
  fingerprint = λ key. key;
  generate_host_key = λ s. (1 ∷ 2 ∷ [], 3 ∷ 4 ∷ [], s);
}

-- The base class, here without a tokenizer.
abbrev pub idle : Typing Flash Unit
idle = record {
  empty_line = tt;
  on_keystroke = λ key echo c s. (c, s);
  silent_execute = λ c s. (c, s);
}

abbrev pub users : ℕ → List ℕ
users id = bytes "admin"

abbrev pub old_context : ℕ → Context Unit
old_context id = record { hostname = lab.hostname; session = session; line = tt }

pub keys-LeavesNames : LeavesNames keys world
keys-LeavesNames = record {
  stored = λ key value other s ne. put_other key value other s ne;
  generated = λ key s. refl;
}
