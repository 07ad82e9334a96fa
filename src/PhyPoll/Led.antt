-- ===== src/PhyPoll/Led.antt =====
-- The LED1 update of `PollPHYs`, and the timer's restart of a round.
use latentred.Prelude.{
  ℕ, suc, ◌/◌, ◌%◌, ◌≤◌, ◌<◌, ◌≡◌, ◌≢◌, refl, Bool, true, false, ◌&&◌, not, List, [], ◌∷◌, arith,
  ltb, ◌==◌, ◌↔◌, holds_below, holds_below_sound,
}
use latentred.Platform.{Constants, CooperativeMutex, Mdio}
use latentred.Port.{poll_ext_stat, LineCard, port_count}
use latentred.PhyPoll.{
  Effect, write_register, poll_phys, iteration, led_phy, led_mode, report_change,
}

led_phy_table :
    holds_below 24 (λ p.
      ltb (led_phy p) 24
      && (led_phy (led_phy p) == p)
      && not (led_phy p == p)
      && (led_phy p / 12 == p / 12))
    ≡ true
unfolding holds_below led_phy
led_phy_table = refl

-- For each of the 24 ports, the register write for LED1 goes to another port of the same 12-port PHY
-- chip, and the assignment is its own inverse, so no two ports share a target.
pub led_phy_pairs :
    (p : ℕ)
    → p < port_count
    → (led_phy p < port_count)
      × (led_phy (led_phy p) ≡ p)
      × (led_phy p ≢ p)
      × (led_phy p / 12 ≡ p / 12)
led_phy_pairs p h = ground (arith, holds_below_sound 24 _ p led_phy_table h)

-- The LED mode has bit 4 set exactly if the link is up below gigabit speed, and its other bits never
-- change.
pub led_mode_bit :
    (k : Constants) (speed : ℕ) (up : Bool)
    → ((led_mode k speed up / 0x10 % 2 ≡ 1) ↔ ((up ≡ true) × (speed < k.link_speed_1000m)))
      × (led_mode k speed up / 0x20 ≡ 0x80e0 / 0x20)
      × (led_mode k speed up % 0x10 ≡ 0)
unfolding led_mode
led_mode_bit k speed up = ground arith

abbrev pub register_writes : List Effect → ℕ
register_writes [] = 0
register_writes (write_register p r v ∷ es) = suc (register_writes es)
register_writes (e ∷ es) = register_writes es

module _ {M : Type 0} (k : Constants) (x : CooperativeMutex M) where
  -- A pass writes to a PHY's LED register exactly if it ends the poll of a PHY below 24 whose link
  -- state changed, with the transceiver ready; it then writes once.
  pub register_writes-poll_phys :
      (io : Mdio) (c : LineCard M)
      → let n = register_writes (poll_phys k x io c).1 in
        (n ≤ 1)
        × ((n ≡ 1) ↔ (
            (c.task.current_phy < port_count)
            × (c.task.poll_state ≡ poll_ext_stat)
            × (io.status ≡ 0)
            × (c.task.link_state_changed ≡ true)))
  unfolding poll_phys report_change
  register_writes-poll_phys io c = ground arith

  -- A round that has ended starts again at PHY 0 on the first pass in which the timer is due, and
  -- until then the task does nothing at all, whatever the transceiver answers.
  pub iteration_restarts :
      (io : Mdio) (c : LineCard M)
      → port_count ≤ c.task.current_phy
      → (iteration k x false io c ≡ (c, []))
        × ((iteration k x true io c).0.task.current_phy ≡ 0)
        × ((iteration k x true io c).0.task.link_state_changed ≡ false)
        × ((iteration k x true io c).0.ports ≡ c.ports)
  unfolding iteration
  iteration_restarts io c h = ground arith
