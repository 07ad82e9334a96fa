-- ===== src/PhyPoll/Round.antt =====
-- A full polling round against a transceiver that answers each command from a register file.
use latentred.Prelude.{
  ◌∙◌, ℕ, zero, suc, ◌+◌, ◌*◌, ◌≤◌, ◌<◌, ◌≡◌, refl, append_assoc, append-nil, false, ◌&&◌, List, [],
  ◌∷◌, ◌++◌, arith, ltb, leb, if◌then◌else◌, update,
}
use latentred.Platform.{Constants, CooperativeMutex, IsMutex}
use latentred.Port.{InterfaceState, poll_idle, LineCard, port_count}
use latentred.PhyPoll.{
  Effect, cmd_addr, poll_phys, command, link_of, duplex_of, speed_of, report_change, differs,
}

-- The command that the transceiver works on: the last one written to `cmd_addr`. (A write through
-- MDIODevice comes only when no answer is awaited, and is left out.)
abbrev pub last_command : ℕ → List Effect → ℕ
last_command a [] = a
last_command a (cmd_addr b ∷ es) = last_command b es
last_command a (e ∷ es) = last_command a es

-- A line card with its bus, and all that was written so far.
pub record Bus (M : Type 0) : Type 0 where
  pub card : LineCard M
  pub last : ℕ
  pub written : List Effect

module _ {M : Type 0} (k : Constants) (x : CooperativeMutex M) (regs : ℕ → ℕ) where
  -- One pass; `regs` gives the answer to each command word.
  unfoldable pub pass : Bus M → Bus M
  pass s =
      let (card, es) = poll_phys k x (record { status = 0; value = regs s.last }) s.card in
      record { card = card; last = last_command s.last es; written = s.written ++ es }

  -- what a pass writes
  emitted : Bus M → List Effect
  emitted s = (poll_phys k x (record { status = 0; value = regs s.last }) s.card).1

  written-pass : (s : Bus M) → (pass s).written ≡ s.written ++ emitted s
  unfolding pass emitted
  written-pass s = refl

  unfoldable pub passes : ℕ → Bus M → Bus M
  passes zero s = s
  passes (suc n) s = passes n (pass s)

  -- What the registers of a PHY say of its port.
  unfoldable pub polled : ℕ → InterfaceState → InterfaceState
  polled phy port = record port {
    link_up = link_of (regs (command k.reg_basic_status phy));
    full_duplex = duplex_of (regs (command k.reg_vsc8512_aux_ctrl_stat phy));
    speed = speed_of (regs (command k.reg_vsc8512_aux_ctrl_stat phy));
  }

  -- The task rests at a PHY and nobody holds the mutex.
  pub record RestsAt (phy : ℕ) (c : LineCard M) : Type 0 where
    pub index : c.task.current_phy ≡ phy
    pub idle : c.task.poll_state ≡ poll_idle
    pub free : x.locked c.mutex ≡ false

  -- What is written while one PHY is polled: three commands, and a report if the link changed.
  unfoldable pub poll_effects : ℕ → InterfaceState → List Effect
  unfolding polled
  poll_effects phy port =
      cmd_addr (command k.reg_basic_status phy)
      ∷ cmd_addr (command k.reg_basic_control phy)
      ∷ cmd_addr (command k.reg_vsc8512_aux_ctrl_stat phy)
      ∷ (if differs port.link_up (polled phy port).link_up
          then report_change k phy (polled phy port) (polled phy port).speed
          else [])

  -- The ports and the writes of a round from PHY `p` over the next `n`, PHY by PHY.
  unfoldable pub round_effects : ℕ → ℕ → (ℕ → InterfaceState) → List Effect
  round_effects p zero ports = []
  round_effects p (suc n) ports = poll_effects p (ports p) ++ round_effects (suc p) n ports

  module _ (law : IsMutex x) where
    four_passes :
        (s : Bus M) (p : ℕ)
        → p < port_count
        → RestsAt p s.card
        → let t = pass (pass (pass (pass s))) in
          RestsAt (suc p) t.card
          × ((i : ℕ) → t.card.ports i ≡ update s.card.ports p (polled p (s.card.ports p)) i)
    unfolding pass poll_phys polled
    four_passes s p h r = (
      ground (arith, law.lock_free s.card.mutex, law.unlock_frees (x.try_lock s.card.mutex).1),
      λ i. ground (arith, law.lock_free s.card.mutex),
    )

    emitted_four :
        (s : Bus M) (p : ℕ)
        → p < port_count
        → RestsAt p s.card
        → emitted s
            ++ (emitted (pass s) ++ (emitted (pass (pass s)) ++ emitted (pass (pass (pass s)))))
          ≡ poll_effects p (s.card.ports p)
    unfolding emitted pass poll_phys poll_effects
    emitted_four s p h r = ground (arith, law.lock_free s.card.mutex)

    four_passes_written :
        (s : Bus M) (p : ℕ)
        → p < port_count
        → RestsAt p s.card
        → (pass (pass (pass (pass s)))).written ≡ s.written ++ poll_effects p (s.card.ports p)
    four_passes_written s p h r = rw (← emitted_four s p h r) (simp (written-pass, append_assoc))

  round_effects_eq :
      (p n : ℕ) (f g : ℕ → InterfaceState)
      → ((i : ℕ) → p ≤ i → f i ≡ g i)
      → round_effects p n f ≡ round_effects p n g
  unfolding round_effects
  round_effects_eq p zero f g same = refl
  round_effects_eq p (suc n) f g same =
      rw (same p (omega arith)) (rw (round_effects_eq (suc p) n f g (λ i h. same i (omega arith))))

  -- The port table after the PHYs from `p` on, `n` of them, were polled.
  abbrev pub polled_range : ℕ → ℕ → (ℕ → InterfaceState) → ℕ → InterfaceState
  polled_range p n ports i = if leb p i && ltb i (p + n) then polled i (ports i) else ports i

  module _ (law : IsMutex x) where
    -- From a state in which the task rests at PHY `p` with the mutex free, 4 n passes poll the next
    -- `n` PHYs, as long as these are among the 24: the task then rests behind them with the mutex
    -- free, their ports show the link, duplex and speed bits that the transceiver answered to the
    -- right commands, every other port is as before, and the writes are those of each PHY in turn:
    -- three commands, and a log line with an LED update exactly if its link state changed.
    pub passes_round :
        (n p : ℕ) (s : Bus M)
        → p + n ≤ port_count
        → RestsAt p s.card
        → RestsAt (p + n) (passes (4 * n) s).card
          × ((i : ℕ) → (passes (4 * n) s).card.ports i ≡ polled_range p n s.card.ports i)
          × ((passes (4 * n) s).written ≡ s.written ++ round_effects p n s.card.ports)
    unfolding passes round_effects
    passes_round zero p s h r = (
      record { index = omega (arith, r.index); idle = r.idle; free = r.free },
      λ i. ground arith,
      rw append-nil,
    )
    passes_round (suc n) p s h r =
        let t = pass (pass (pass (pass s))) in
        let four = four_passes law s p (omega arith) r in
        let rest = passes_round n (suc p) t (omega arith) four.0 in
        let e : 4 * suc n ≡ suc (suc (suc (suc (4 * n)))) = omega arith in
        rw e (
          record { index = omega (arith, rest.0.index); idle = rest.0.idle; free = rest.0.free },
          λ i. rest.1 i ∙ ground (arith, four.1 i),
          rest.2
              ∙ rw (four_passes_written law s p (omega arith) r) (
                  rw
                    (round_effects_eq (suc p) n t.card.ports s.card.ports
                      (λ i k. four.1 i ∙ ground arith))
                    (append_assoc s.written (poll_effects p (s.card.ports p))
                      (round_effects (suc p) n s.card.ports))),
        )
