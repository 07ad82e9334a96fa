-- ===== src/PhyPoll/Chips.antt =====
-- The two PHY chips of line card 0 in firmware/lcbringup/bsp/hwinit.cpp, and the addresses that the
-- polling task uses on their bus.
use latentred.Prelude.{
  ℕ, ◌+◌, ◌/◌, ◌%◌, ◌≤◌, ◌<◌, ◌≡◌, ◌≢◌, refl, List, [], ◌∷◌, some, arith, All, Bool-cases, inl, inr,
  leb, get_elem?, dec_lt, ◌==◌,
}
use latentred.Platform.{Constants, CooperativeMutex, Mdio}
use latentred.Port.{
  InterfaceState, PollState, poll_idle, poll_status, poll_ctrl, poll_ext_stat, LineCard,
}
use latentred.PhyPoll.{
  Effect, cmd_addr, write_register, poll_phys, dispatch, command, led_phy, report_change,
}
use latentred.PhyPoll.Led.{led_phy_pairs}

-- g_linecard0_phys: the first address of each chip on FMDIO
abbrev pub linecard0_phys : List ℕ
linecard0_phys = 0 ∷ 12 ∷ []

-- A VSC8512 has 12 ports, at the 12 addresses from its first one on.
abbrev pub Serves : ℕ → ℕ → Type 0
Serves i address =
    (base : ℕ) × (get_elem? linecard0_phys i ≡ some base) × (base ≤ address) × (address < base + 12)

abbrev pub SameChip : ℕ → ℕ → Type 0
SameChip a b = (i : ℕ) × Serves i a × Serves i b

-- What a pass that polls a port may do on the bus: command the port itself, or write a register of
-- another port of its chip.
abbrev pub Reaches : ℕ → Effect → Type 0
Reaches phy (cmd_addr v) = (v % 0x100 ≡ phy) × SameChip phy phy
Reaches phy (write_register p r v) = (p ≢ phy) × SameChip p phy
Reaches phy _ = Unit

same_chip : (a b : ℕ) → a < 24 → b < 24 → a / 12 ≡ b / 12 → SameChip a b
same_chip a b ha hb h = elim (dec_lt a 12) [
  | yes p ↦ (0, (0, refl, omega arith, omega arith), (0, refl, omega arith, omega arith))
  | no p ↦ (1, (12, refl, omega arith, omega arith), (12, refl, omega arith, omega arith))
]

command-reaches : (reg phy : ℕ) → phy < 24 → (command reg phy % 0x100 ≡ phy) × SameChip phy phy
unfolding command
command-reaches reg phy h = (omega arith, same_chip phy phy h h refl)

led_phy-reaches : (phy : ℕ) → phy < 24 → (led_phy phy ≢ phy) × SameChip (led_phy phy) phy
led_phy-reaches phy h =
    let (inside, twice, other, chip) = led_phy_pairs phy h in
    (other, same_chip (led_phy phy) phy inside h chip)

report_change-Reaches :
    (k : Constants) (phy : ℕ) (port : InterfaceState) (speed : ℕ)
    → phy < 24
    → All (Reaches phy) (report_change k phy port speed)
unfolding report_change
report_change-Reaches k phy port speed h = elim (Bool-cases port.link_up) [
  | inl up ↦ rw up (tt, (led_phy-reaches phy h, tt))
  | inr down ↦ rw down (tt, (led_phy-reaches phy h, tt))
]

module _ {M : Type 0} (k : Constants) (x : CooperativeMutex M) where
  dispatch-Reaches :
      (s : PollState) (io : Mdio) (c : LineCard M)
      → c.task.current_phy < 24
      → All (Reaches c.task.current_phy) (dispatch k x s io c).1
  dispatch-Reaches poll_idle io c h = elim (Bool-cases (x.try_lock c.mutex).0) [
    | inl taken ↦ rw taken (command-reaches k.reg_basic_status c.task.current_phy h, tt)
    | inr busy ↦ rw busy tt
  ]
  dispatch-Reaches poll_status io c h = elim (Bool-cases (io.status == 0)) [
    | inl ready ↦ rw ready (command-reaches k.reg_basic_control c.task.current_phy h, tt)
    | inr busy ↦ rw busy tt
  ]
  dispatch-Reaches poll_ctrl io c h = elim (Bool-cases (io.status == 0)) [
    | inl ready ↦ rw ready (command-reaches k.reg_vsc8512_aux_ctrl_stat c.task.current_phy h, tt)
    | inr busy ↦ rw busy tt
  ]
  dispatch-Reaches poll_ext_stat io c h = elim (Bool-cases (io.status == 0)) [
    | inl ready ↦ elim (Bool-cases c.task.link_state_changed) [
      | inl changed ↦ rw (ready, changed) (report_change-Reaches k c.task.current_phy _ _ h)
      | inr same ↦ rw (ready, same) tt
    ]
    | inr busy ↦ rw busy tt
  ]

  -- Whatever the task's state and the transceiver's answer, a pass that polls a port commands no
  -- other address than the port's, which is that of a port of one of the two PHY chips; and the
  -- register that it writes for the LED is that of another port of the same chip.
  pub poll_phys-Reaches :
      (io : Mdio) (c : LineCard M) → All (Reaches c.task.current_phy) (poll_phys k x io c).1
  unfolding poll_phys
  poll_phys-Reaches io c = elim (Bool-cases (leb 24 c.task.current_phy)) [
    | inl over ↦ rw over tt
    | inr running ↦ rw running (dispatch-Reaches c.task.poll_state io c (ground (arith, running)))
  ]
