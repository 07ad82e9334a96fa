-- ===== src/PhyPoll/Speeds.antt =====
-- The speed of a port is an index into the table of the speeds' names (g_linkSpeedNamesLong), which
-- LatentRedPhyPollTask.cpp and OnShowInterfaceStatus print from.
use latentred.Prelude.{ℕ, ◌<◌, Bool, List, [], ◌∷◌, Option, none, some, arith, Bool-cases, inl, inr}
use latentred.Platform.{Constants, CooperativeMutex, Mdio}
use latentred.Port.{InterfaceState, LineCard}
use latentred.PhyPoll.{Effect, speed_of, iteration}
use latentred.PhyPoll.Sharing.{cli_try_lock}
use latentred.PhyPoll.Waiting.{Moment, wait_lock, prepend}

-- one of the four speeds
abbrev pub IsNamed : InterfaceState → Type 0
IsNamed p = p.speed < 4

abbrev pub AreNamed : (ℕ → InterfaceState) → Type 0
AreNamed ports = (i : ℕ) → IsNamed (ports i)

speed_of-lt : (ext : ℕ) → speed_of ext < 4
unfolding speed_of
speed_of-lt ext = omega arith

module _ {M : Type 0} (k : Constants) (x : CooperativeMutex M) where
  pub iteration-AreNamed :
      (due : Bool) (io : Mdio) (c : LineCard M)
      → AreNamed c.ports
      → AreNamed (iteration k x due io c).0.ports
  unfolding iteration
  iteration-AreNamed due io c h i = let now = h i in ground (arith, now, speed_of-lt io.value)

  abbrev pub EndsNamed : Option (LineCard M × List Effect) → Type 0
  EndsNamed none = Unit
  EndsNamed (some (c, es)) = AreNamed c.ports

  EndsNamed-prepend :
      (es : List Effect) (r : Option (LineCard M × List Effect))
      → EndsNamed r
      → EndsNamed (prepend es r)
  EndsNamed-prepend es none h = h
  EndsNamed-prepend es (some (c, fs)) h = h

  pub wait_lock-EndsNamed :
      (ms : List Moment) (c : LineCard M) → AreNamed c.ports → EndsNamed (wait_lock k x ms c)
  unfolding wait_lock cli_try_lock
  wait_lock-EndsNamed [] c h = elim (Bool-cases (cli_try_lock k x c).0) [
    | inl got ↦ rw got h
    | inr refused ↦ rw refused tt
  ]
  wait_lock-EndsNamed (m ∷ ms) c h =
      let c' = (cli_try_lock k x c).1 in
      let (c'', es) = iteration k x m.due m.io c' in
      elim (Bool-cases (cli_try_lock k x c).0) [
        | inl got ↦ rw got h
        | inr refused ↦ rw refused (
            EndsNamed-prepend es (wait_lock k x ms c'')
              (wait_lock-EndsNamed ms c'' (iteration-AreNamed m.due m.io c' h)))
      ]
