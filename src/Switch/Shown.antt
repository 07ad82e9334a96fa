-- ===== src/Switch/Shown.antt =====
-- From the registers of the PHYs to the table on the screen.
use latentred.Prelude.{length, ℕ, ◌+◌, ◌*◌, ◌<◌, ◌≡◌, ◌∙◌, ap, [], ◌++◌, some, arith, get_elem?}
use latentred.Platform.{Constants, CooperativeMutex, IsMutex}
use latentred.Port.{InterfaceState}
use latentred.PhyPoll.Round.{passes, RestsAt, polled, passes_round}
use latentred.Cli.Show.{row_of, all_rows, on_show_interface_status}
use latentred.Cli.Status.{rows, on_show_interface_status-rows}
use latentred.Cli.Sessions.{in_session}
use latentred.Switch.{Switch, port_of}

module _ {W B M : Type 0} (k : Constants) (mutex : CooperativeMutex M) (regs : ℕ → ℕ) where
  -- the switch after a round of the polling task
  abbrev pub polled_switch : Switch W B M → Switch W B M
  polled_switch x = record x {
    card = (passes k mutex regs 96 (record { card = x.card; last = 0; written = [] })).card;
  }

  round_port :
      (law : IsMutex mutex) (x : Switch W B M) (i : ℕ)
      → RestsAt k mutex regs 0 x.card
      → i < 24
      → (polled_switch x).card.ports i ≡ polled k mutex regs i (x.card.ports i)
  round_port law x i rest small =
      (passes_round k mutex regs law 24 0 (record { card = x.card; last = 0; written = [] })
          (omega arith) rest).1
        i
      ∙ ground arith

  -- "show interface status" of any session, after a round of the polling task, prints 48 rows: for
  -- each port of line card 0, of whichever state it was, its names with the link, duplex and speed
  -- that the registers of its PHY gave in that round; for each port of line card 1, which has no
  -- transceiver, the state that it had. The round starts with the task at rest at the first PHY and
  -- the mutex free.
  pub shown_round :
      (law : IsMutex mutex) (x : Switch W B M) (j : ℕ)
      → RestsAt k mutex regs 0 x.card
      → let y = polled_switch x in
        let printed = all_rows (port_of y) 0 2 in
        (rows (on_show_interface_status (port_of y) (in_session j y.sessions)).out
          ≡ rows x.sessions.shared.out ++ printed)
        × (length printed ≡ 48)
        × ((i : ℕ)
            → i < 24
            → (get_elem? printed i ≡ some (row_of (polled k mutex regs i (x.card.ports i))))
              × (get_elem? printed (24 + i) ≡ some (row_of (x.other_ports i))))
  shown_round law x j rest =
      let y = polled_switch x in
      let shown = on_show_interface_status-rows (port_of y) (in_session j y.sessions) in
      (
        shown.0,
        shown.1,
        λ i small. (
          (let e : i ≡ 24 * 0 + i = omega arith in
              ap (get_elem? (all_rows (port_of y) 0 2)) e
              ∙ shown.2 0 i (omega arith) small
              ∙ ap (λ (p : InterfaceState). some (row_of p)) (round_port law x i rest small)),
          (let e : 24 + i ≡ 24 * 1 + i = omega arith in
              ap (get_elem? (all_rows (port_of y) 0 2)) e ∙ shown.2 1 i (omega arith) small),
        ),
      )
