-- ===== src/Mgmt/Link.antt =====
-- The link events of the management interface.
use latentred.Prelude.{
  if◌then◌else◌, ◌&&◌, not, ℕ, suc, ◌+◌, ◌≡◌, refl, Bool, true, false, List, [], ◌∷◌, ◌++◌, arith,
  All,
}
use latentred.Platform.{Constants}
use latentred.Mgmt.{Event, link_up, link_down, Mgmt, Inputs, iteration, run}

abbrev pub ups : List Event → ℕ
ups [] = 0
ups (link_up ∷ es) = suc (ups es)
ups (e ∷ es) = ups es

abbrev pub downs : List Event → ℕ
downs [] = 0
downs (link_down ∷ es) = suc (downs es)
downs (e ∷ es) = downs es

ups-append : (xs ys : List Event) → ups (xs ++ ys) ≡ ups xs + ups ys
ups-append [] ys = omega arith
ups-append (link_up ∷ xs) ys = omega (arith, ups-append xs ys)
ups-append (e ∷ xs) ys = ups-append xs ys

downs-append : (xs ys : List Event) → downs (xs ++ ys) ≡ downs xs + downs ys
downs-append [] ys = omega arith
downs-append (link_down ∷ xs) ys = omega (arith, downs-append xs ys)
downs-append (e ∷ xs) ys = downs-append xs ys

-- The pin keeps its level during the pass.
abbrev pub IsStable : Inputs → Type 0
IsStable i = (i.pin_up ≡ i.pin_down) × (i.pin_down ≡ i.pin_last)

-- The rises and the falls of the pin over the passes, from the level `b`.
abbrev pub rises : Bool → List Inputs → ℕ
rises b [] = 0
rises b (i ∷ is) = (if i.pin_last && not b then 1 else 0) + rises i.pin_last is

abbrev pub falls : Bool → List Inputs → ℕ
falls b [] = 0
falls b (i ∷ is) = (if not i.pin_last && b then 1 else 0) + falls i.pin_last is

-- The last level of the pin, or the level before any pass.
abbrev pub last_level : Bool → List Inputs → Bool
last_level b [] = b
last_level b (i ∷ is) = last_level i.pin_last is

module _ (k : Constants) where
  iteration_stable :
      (i : Inputs) (s : Mgmt)
      → IsStable i
      → ((iteration k i s).0.link ≡ i.pin_last)
        × (ups (iteration k i s).1 ≡ (if i.pin_last && not s.link then 1 else 0))
        × (downs (iteration k i s).1 ≡ (if not i.pin_last && s.link then 1 else 0))
  unfolding iteration
  iteration_stable i s h = ground arith

  -- Over any passes in which the pin keeps its level during each, the stack is told of every change
  -- and of nothing else: the flag ends as the last level of the pin, there is one link-up call for
  -- each rise of the pin from the flag's first value on, and one link-down call for each fall.
  pub run_stable :
      (is : List Inputs) (s : Mgmt)
      → All IsStable is
      → ((run k is s).0.link ≡ last_level s.link is)
        × (ups (run k is s).1 ≡ rises s.link is)
        × (downs (run k is s).1 ≡ falls s.link is)
  unfolding run
  run_stable [] s h = (refl, refl, refl)
  run_stable (i ∷ is) s h =
      let s1 = (iteration k i s).0 in
      let now = iteration_stable i s h.0 in
      let later = run_stable is s1 h.1 in
      ground (
        arith,
        now,
        later,
        ups-append (iteration k i s).1 (run k is s1).1,
        downs-append (iteration k i s).1 (run k is s1).1,
      )

  -- While the flag and the pin are up, nothing is said of the link.
  abbrev StaysUp : Inputs → Type 0
  StaysUp j = (j.pin_up ≡ true) × (j.pin_down ≡ true) × (j.pin_last ≡ true)

  calm :
      (i : Inputs) (s : Mgmt)
      → s.link ≡ true
      → StaysUp i
      → ((iteration k i s).0.link ≡ true)
        × ((iteration k i s).0.speed ≡ s.speed)
        × (ups (iteration k i s).1 ≡ 0)
  unfolding iteration
  calm i s h up = ground arith

  missed :
      (i : Inputs) (s : Mgmt)
      → s.link ≡ false
      → i.pin_up ≡ false
      → i.pin_last ≡ true
      → ((iteration k i s).0.link ≡ true)
        × ((iteration k i s).0.speed ≡ s.speed)
        × (ups (iteration k i s).1 ≡ 0)
  unfolding iteration
  missed i s down first last_read = ground arith

  stays_up :
      (is : List Inputs) (s : Mgmt)
      → s.link ≡ true
      → All StaysUp is
      → ((run k is s).0.link ≡ true) × ((run k is s).0.speed ≡ s.speed) × (ups (run k is s).1 ≡ 0)
  unfolding run
  stays_up [] s h up = (h, refl, refl)
  stays_up (i ∷ is) s h up =
      let s1 = (iteration k i s).0 in
      let now = calm i s h up.0 in
      ground (arith, now, stays_up is s1 now.0 up.1, ups-append (iteration k i s).1 (run k is s1).1)

  -- A link that was down and comes up between the first and the last read of the pin in one pass is
  -- missed: the flag says up, the speed stays as it was and the stack gets no link-up call, neither
  -- in that pass nor in any later ones while the pin stays up.
  pub iteration_misses_rise :
      (i : Inputs) (s : Mgmt) (is : List Inputs)
      → s.link ≡ false
      → i.pin_up ≡ false
      → i.pin_last ≡ true
      → All StaysUp is
      → ((run k (i ∷ is) s).0.link ≡ true)
        × ((run k (i ∷ is) s).0.speed ≡ s.speed)
        × (ups (run k (i ∷ is) s).1 ≡ 0)
  unfolding run
  iteration_misses_rise i s is down first last_read up =
      let s1 = (iteration k i s).0 in
      let now = missed i s down first last_read in
      ground (arith, now, stays_up is s1 now.0 up, ups-append (iteration k i s).1 (run k is s1).1)
