-- ===== src/Samples/Quiet.antt =====
-- No commit on the concrete flash store prints an error.
use latentred.Prelude.{List, [], ◌∷◌, Option, none, some}
use latentred.Platform.{Constants, CooperativeMutex}
use latentred.Sensors.{Hardware}
use latentred.Switch.{Switch, Event, pass, line, shell, happen}
use latentred.Switch.Names.{IsQuiet, Holds, AllQuiet}
use latentred.Samples.{Flash, world}
use latentred.Samples.Lines.{silent_commit}

module _ {B M : Type 0} (k : Constants) (mutex : CooperativeMutex M) (hw : Hardware B) where
  quiet : (e : Event) (x : Switch Flash B M) → IsQuiet k mutex world hw e x
  quiet (pass due io) x = tt
  quiet (line ms m c) x = λ e. silent_commit _
  quiet (shell c) x = tt

  everywhere :
      (p : Switch Flash B M → Type 0)
      → ((y : Switch Flash B M) → p y)
      → (r : Option (Switch Flash B M)) → Holds k mutex world hw p r
  everywhere p all none = tt
  everywhere p all (some y) = all y

  pub all_quiet : (es : List Event) (x : Switch Flash B M) → AllQuiet k mutex world hw es x
  all_quiet [] x = tt
  all_quiet (e ∷ es) x = (
    quiet e x,
    everywhere (AllQuiet k mutex world hw es) (λ y. all_quiet es y) (happen k mutex world hw e x),
  )
