-- ===== src/Mgmt.antt =====
-- firmware/lcbringup/bsp/FPGATask.cpp and .h: the task that takes frames from the FPGA and follows the
-- link state of the management interface.
pub mod Link
mod Examples
use latentred.Prelude.{
  ℕ, Bool, true, false, not, ◌&&◌, List, [], ◌∷◌, ◌++◌, Option, none, some, if◌then◌else◌,
}
use latentred.Platform.{Constants}

-- What the task calls: the Ethernet stack and the log.
pub data Event : Type 0 where
  rx_frame : ℕ → Event
  link_up link_down : Event
  log_up : (speed : ℕ) → Event
  log_down : Event

-- g_basetLinkUp and g_basetLinkSpeed
pub record Mgmt : Type 0 where
  pub link : Bool
  pub speed : ℕ

-- What one pass reads: the interrupt line, the frame that waits, if any, and the link pin, which the
-- code reads anew at each of its three uses.
pub record Inputs : Type 0 where
  pub irq : Bool
  pub frame : Option ℕ
  pub pin_up : Bool
  pub pin_down : Bool
  pub pin_last : Bool

abbrev receive : Bool → Option ℕ → List Event
receive true (some f) = rx_frame f ∷ []
receive _ _ = []

module _ (k : Constants) where
  abbrev go_up : Bool → Mgmt → Mgmt × List Event
  go_up pin s =
      if pin && not s.link
      then (record s { speed = k.link_speed_10g }, log_up k.link_speed_10g ∷ link_up ∷ [])
      else (s, [])

  abbrev go_down : Bool → Mgmt → Mgmt × List Event
  go_down pin s =
      if not pin && s.link
      then (record s { speed = k.link_speed_10m }, log_down ∷ link_down ∷ [])
      else (s, [])

  unfoldable pub iteration : Inputs → Mgmt → Mgmt × List Event
  iteration i s =
      let (s1, up) = go_up i.pin_up s in
      let (s2, down) = go_down i.pin_down s1 in
      (record s2 { link = i.pin_last }, receive i.irq i.frame ++ (up ++ down))

  -- the passes of the main loop, with all that they call
  unfoldable pub run : List Inputs → Mgmt → Mgmt × List Event
  run [] s = (s, [])
  run (i ∷ is) s =
      let (s1, now) = iteration i s in let (s2, later) = run is s1 in (s2, now ++ later)
