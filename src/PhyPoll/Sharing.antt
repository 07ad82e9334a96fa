-- ===== src/PhyPoll/Sharing.antt =====
-- The MDIO interface is shared by the polling task and by the command line
-- (LatentRedCLISessionContext.cpp, PrintLineCardInfo), in any order of their steps.
use latentred.Prelude.{◌≤◌, ◌<◌, ◌≡◌, ◌≢◌, Bool, true, false}
use latentred.Platform.{Constants, CooperativeMutex, Mdio}
use latentred.Port.{poll_idle, LineCard, port_count}
use latentred.PhyPoll.{iteration}

-- A line card, and whether the command line is between its `TryLock` and its `Unlock`.
pub record Shared (M : Type 0) : Type 0 where
  pub card : LineCard M
  pub cli_holds : Bool

module _ {M : Type 0} (k : Constants) (x : CooperativeMutex M) where
  -- the test of the `while` in `PrintLineCardInfo`
  unfoldable pub cli_try_lock : LineCard M → Bool × LineCard M
  cli_try_lock c = let (got, m) = x.try_lock c.mutex in (got, record c { mutex = m })

  unfoldable pub cli_unlock : LineCard M → LineCard M
  cli_unlock c = record c { mutex = x.unlock c.mutex }

  pub data Step (s : Shared M) : Shared M → Type 0 where
    poll : (due : Bool) (io : Mdio) → Step s (record s { card = (iteration k x due io s.card).0 })
    lock :
        s.cli_holds ≡ false
        → Step s (record { card = (cli_try_lock s.card).1; cli_holds = (cli_try_lock s.card).0 })
    unlock : s.cli_holds ≡ true → Step s (record { card = cli_unlock s.card; cli_holds = false })

  pub data Reach (s : Shared M) : Shared M → Type 0 where
    here : Reach s s
    next : {t u : Shared M} → Reach s t → Step t u → Reach s u

  -- The mutex is taken exactly by who is inside: the task between a request and its last answer, or
  -- the command line.
  pub record IsExclusive (s : Shared M) : Type 0 where
    pub in_range : s.card.task.current_phy ≤ port_count
    pub polling :
        s.card.task.poll_state ≢ poll_idle
        → (s.card.task.current_phy < port_count)
          × (x.locked s.card.mutex ≡ true)
          × (s.cli_holds ≡ false)
    pub resting : s.card.task.poll_state ≡ poll_idle → x.locked s.card.mutex ≡ s.cli_holds
