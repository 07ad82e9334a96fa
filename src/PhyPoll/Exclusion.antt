-- ===== src/PhyPoll/Exclusion.antt =====
-- Mutual exclusion on the MDIO interface.
use latentred.Prelude.{◌≡◌, Bool, true, false, [], arith}
use latentred.Platform.{Constants, CooperativeMutex, IsMutex, Mdio}
use latentred.PhyPoll.{iteration}
use latentred.PhyPoll.Sharing.{
  Shared, cli_try_lock, cli_unlock, Step, poll, lock, unlock, Reach, here, next, IsExclusive,
}

module _ {M : Type 0} (k : Constants) (x : CooperativeMutex M) (law : IsMutex x) where
  pub poll-IsExclusive :
      (s : Shared M) (due : Bool) (io : Mdio)
      → IsExclusive k x s
      → IsExclusive k x (record s { card = (iteration k x due io s.card).0 })
  unfolding iteration
  poll-IsExclusive s due io h = ground (
    arith,
    law.lock_free s.card.mutex,
    law.lock_taken s.card.mutex,
    law.unlock_frees s.card.mutex,
  )

  lock-IsExclusive :
      (s : Shared M)
      → s.cli_holds ≡ false
      → IsExclusive k x s
      → IsExclusive k x
          (record { card = (cli_try_lock k x s.card).1; cli_holds = (cli_try_lock k x s.card).0 })
  unfolding cli_try_lock
  lock-IsExclusive s out h = ground (arith, law.lock_free s.card.mutex, law.lock_taken s.card.mutex)

  unlock-IsExclusive :
      (s : Shared M)
      → s.cli_holds ≡ true
      → IsExclusive k x s
      → IsExclusive k x (record { card = cli_unlock k x s.card; cli_holds = false })
  unfolding cli_unlock
  unlock-IsExclusive s inside h = ground (arith, law.unlock_frees s.card.mutex)

  Step-IsExclusive : {s t : Shared M} → Step k x s t → IsExclusive k x s → IsExclusive k x t
  Step-IsExclusive {s} (poll due io) h = poll-IsExclusive s due io h
  Step-IsExclusive {s} (lock out) h = lock-IsExclusive s out h
  Step-IsExclusive {s} (unlock inside) h = unlock-IsExclusive s inside h

  -- Whatever the polling task and the command line do, in any order and with any answers of the
  -- transceiver, from a state in which the mutex is taken exactly by who is inside: the PHY index
  -- stays within the 24 ports, a poll in progress holds the mutex while the command line does not,
  -- and while the task rests the mutex is locked exactly if the command line holds it.
  pub Reach-IsExclusive : {s t : Shared M} → IsExclusive k x s → Reach k x s t → IsExclusive k x t
  Reach-IsExclusive h here = h
  Reach-IsExclusive h (next r st) = Step-IsExclusive st (Reach-IsExclusive h r)

  quiet :
      (s : Shared M) (due : Bool) (io : Mdio)
      → IsExclusive k x s
      → s.cli_holds ≡ true
      → ((iteration k x due io s.card).1 ≡ [])
        × ((iteration k x due io s.card).0.ports ≡ s.card.ports)
        × ((iteration k x due io s.card).0.mutex ≡ s.card.mutex)
  unfolding iteration
  quiet s due io h inside = ground (arith, law.lock_taken s.card.mutex)

  -- In every reachable state in which the command line holds the mutex, a pass of the polling task
  -- writes nothing to the MDIO bus or the log, and leaves the ports and the mutex as they are.
  pub Reach-quiet :
      {s t : Shared M} (due : Bool) (io : Mdio)
      → IsExclusive k x s
      → Reach k x s t
      → t.cli_holds ≡ true
      → ((iteration k x due io t.card).1 ≡ [])
        × ((iteration k x due io t.card).0.ports ≡ t.card.ports)
        × ((iteration k x due io t.card).0.mutex ≡ t.card.mutex)
  Reach-quiet {t} due io h r inside = quiet t due io (Reach-IsExclusive h r) inside
