-- ===== src/Mgmt/Examples.antt =====
-- The theorems of the management link on concrete passes.
use latentred.Prelude.{◌≡◌, refl, Bool, true, false, List, [], ◌∷◌, none}
use latentred.Mgmt.{Mgmt, Inputs, run}
use latentred.Mgmt.Link.{ups, downs, rises, falls, last_level, run_stable, iteration_misses_rise}
use latentred.Samples.{constants}

abbrev level : Bool → Inputs
level b = record { irq = false; frame = none; pin_up = b; pin_down = b; pin_last = b }

-- The pin rises between the first and the second read.
abbrev rising : Inputs
rising = record { irq = false; frame = none; pin_up = false; pin_down = true; pin_last = true }

abbrev link_down_state : Mgmt
link_down_state = record { link = false; speed = 0 }

abbrev up_and_down : List Inputs
up_and_down = level true ∷ level true ∷ level false ∷ []

run_stable_example :
    ((run constants up_and_down link_down_state).0.link ≡ last_level false up_and_down)
    × (ups (run constants up_and_down link_down_state).1 ≡ rises false up_and_down)
    × (downs (run constants up_and_down link_down_state).1 ≡ falls false up_and_down)
run_stable_example =
    run_stable constants up_and_down link_down_state
      ((refl, refl), ((refl, refl), ((refl, refl), tt)))

iteration_misses_rise_example :
    ((run constants (rising ∷ level true ∷ []) link_down_state).0.link ≡ true)
    × ((run constants (rising ∷ level true ∷ []) link_down_state).0.speed ≡ 0)
    × (ups (run constants (rising ∷ level true ∷ []) link_down_state).1 ≡ 0)
iteration_misses_rise_example =
    iteration_misses_rise constants rising link_down_state (level true ∷ []) refl refl refl
      ((refl, refl, refl), tt)
