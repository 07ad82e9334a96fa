-- ===== src/PhyPoll/Frame.antt =====
-- What one pass of the polling task changes, and when it changes nothing.
use latentred.Prelude.{ℕ, ◌<◌, ◌≡◌, ◌≢◌, Bool, [], arith}
use latentred.Platform.{Constants, CooperativeMutex, Mdio}
use latentred.Port.{poll_idle, LineCard, port_count}
use latentred.PhyPoll.{iteration, poll_phys}

module _ {M : Type 0} (k : Constants) (x : CooperativeMutex M) where
  -- A pass changes the state of no port but the one being polled, and of that one neither the names
  -- nor the autonegotiation flag, whatever the transceiver answers.
  pub poll_phys_frame :
      (io : Mdio) (c : LineCard M) (i : ℕ)
      → let after = (poll_phys k x io c).0.ports i in
        (i ≢ c.task.current_phy → after ≡ c.ports i)
        × (after.ifname ≡ (c.ports i).ifname)
        × (after.friendly_name ≡ (c.ports i).friendly_name)
        × (after.autoneg ≡ (c.ports i).autoneg)
  unfolding poll_phys
  poll_phys_frame io c i = ((λ other. ground arith), ground arith, ground arith, ground arith)

  -- While the transceiver is busy, a poll in progress waits: the pass changes nothing and writes
  -- nothing.
  pub poll_phys_busy :
      (io : Mdio) (c : LineCard M)
      → c.task.poll_state ≢ poll_idle
      → io.status ≢ 0
      → poll_phys k x io c ≡ (c, [])
  unfolding poll_phys
  poll_phys_busy io c active busy = ground arith

  -- A due timer does not disturb a round in progress.
  pub iteration_due :
      (due : Bool) (io : Mdio) (c : LineCard M)
      → c.task.current_phy < port_count
      → iteration k x due io c ≡ poll_phys k x io c
  unfolding iteration
  iteration_due due io c running = ground arith
