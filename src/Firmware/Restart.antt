-- ===== src/Firmware/Restart.antt =====
-- A reset of the running firmware, and the SSH server after it.
use latentred.Prelude.{ℕ, ◌≡◌, ◌∙◌, ap, true, false, List, Option, none, some, All}
use latentred.Platform.{Constants, CooperativeMutex, IsMutex}
use latentred.Port.{InterfaceState}
use latentred.Cli.System.{World, System}
use latentred.Cli.Store.{KeepsNames, IsStore, LeavesStrings}
use latentred.Cli.Saved.{saved_eq}
use latentred.Cli.Sessions.{Sessions, AllOk}
use latentred.Cli.Shared.{Views, views}
use latentred.Mgmt.{Mgmt}
use latentred.Net.{Ports}
use latentred.Boot.{Devices, Board}
use latentred.Boot.Bsp.{bsp_init}
use latentred.Ssh.{KeyStore}
use latentred.Ssh.Contexts.{Context, Typing}
use latentred.Ssh.Restart.{LeavesNames, SameNames, Restarts, restart-Restarts}
use latentred.Switch.{Switch}
use latentred.Switch.Runs.{IsServed}
use latentred.Switch.Started.{started}
use latentred.Switch.Names.{Shows, AllQuiet, name_steps}
use latentred.Firmware.{Turn, then_run, run_turns, powered}
use latentred.Firmware.Parts.{events_of}
use latentred.Firmware.Polling.{switch_of}
use latentred.Firmware.Names.{bsp_init-Shows}

module _ {W B M L : Type 0} (k : Constants) (mutex : CooperativeMutex M) (free : M)
    (printf : List ℕ → List ℕ → List ℕ) (w : World W) (d : Devices B) (p : Ports) (ks : KeyStore W)
    (ports : ℕ → ℕ → InterfaceState) (line_card : System W → System W) (typing : Typing W L)
    (usernames : ℕ → List ℕ) (boot : W → System W) where
  -- `boot` is what the SSH server finds after a reset: the flash store that the switch left, if it
  -- got that far, with the memory cleared.
  abbrev pub RestartShows : ℕ → (ℕ → Context L) → Views → Option (Switch W B M) → Type 0
  RestartShows id cs v none = ⊥
  RestartShows id cs v (some x) =
      Restarts ks w ports line_card typing usernames id cs (boot x.sessions.shared.world) v.saved

  module _ (leaves : LeavesNames ks w) (store : IsStore w) (apart : LeavesStrings w)
      (keeps : KeepsNames w) (kept : (s : W) → SameNames w s (boot s).world) where
    shown-RestartShows :
        (id : ℕ) (cs : ℕ → Context L) (v : Views) (o : Option (Switch W B M))
        → Shows k mutex w d.hardware v o
        → RestartShows id cs v o
    shown-RestartShows id cs v none h = h
    shown-RestartShows id cs v (some x) h =
        let s = x.sessions.shared.world in
        restart-Restarts ks w ports line_card typing usernames leaves store apart keeps id cs
          (boot s) v.saved
          (saved_eq w store apart keeps s (boot s).world (kept s) ∙ ap (λ (u : Views). u.saved) h)

    -- Whatever happened before a reset, the names after it are those that the specification says
    -- were saved: the firmware runs from a reset on, with its tasks in whatever order; then it is
    -- reset, the SSH server is constructed anew and makes a host key if it has none, and a shell is
    -- opened. Its host name and the user name of the logins are the saved ones that the lines of the
    -- console and the lines and opened shells over SSH mean, they are still saved, and the prompt
    -- shows that host name. BSP_Init returns, the mutex is constructed unlocked, the names are
    -- terminated inside their arrays to begin with, each line finds the transceiver ready at least
    -- three times while it waits, no commit prints an error, the flash store keeps the two names
    -- over the reset, and the new shell is in root mode. The mutex, the flash store, the other
    -- services and the making of a host key do what they document.
    pub bsp_init-RestartShows :
        (b : Board B M) (s : Sessions W) (m : Mgmt) (ts : List Turn) (id : ℕ) (cs : ℕ → Context L)
        → IsMutex mutex
        → mutex.locked free ≡ false
        → AllOk s
        → All IsServed (events_of ts)
        → AllQuiet k mutex w d.hardware
            (events_of ts)
            (started k free printf s (bsp_init d k free printf b).1.devices)
        → (bsp_init d k free printf b).0 ≡ true
        → RestartShows id cs (name_steps (events_of ts) (views w s)) (
            switch_of (
              then_run k mutex w d.hardware p
                (run_turns k mutex w d.hardware p ts)
                (powered s m (bsp_init d k free printf b).1)))
    bsp_init-RestartShows b s m ts id cs law unlocked names served quiet up =
        shown-RestartShows id cs _ _ (
          bsp_init-Shows k mutex free printf w d p store apart keeps b s m ts law unlocked names
            served quiet up)
