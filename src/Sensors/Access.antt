-- ===== src/Sensors/Access.antt =====
-- Who holds the MDIO mutex around `show hardware`, and the setup of the temperature sensors.
use Prim.Native.String.{String}
use latentred.Prelude.{
  ℕ, ◌≤◌, ◌≡◌, ◌⊎◌, ◌↔◌, refl, true, false, List, [], ◌∷◌, Option, none, some, arith,
}
use latentred.Platform.{Constants, CooperativeMutex, IsMutex}
use latentred.Port.{LineCard, poll_idle, port_count}
use latentred.PhyPoll.{Effect}
use latentred.PhyPoll.Sharing.{IsExclusive, cli_unlock}
use latentred.PhyPoll.Waiting.{
  Moment, wait_lock, wait_lock_ends, ready_moments, passes_left, Acquired,
}
use latentred.Sensors.{
  Hardware, Line, card_title, sensor_ready, sensor_failed, print_line_card_info, init_temp_sensor,
  with_lock,
}

module _ {B M : Type 0} (hw : Hardware B) (k : Constants) (x : CooperativeMutex M) where
  -- The command has come to its end: it names the card first, and the mutex is free again.
  abbrev pub Finished : ℕ → Option (List Line × LineCard M × B) → Type 0
  Finished ncard none = ⊥
  Finished ncard (some (lines, c, b)) =
      ((rest : List Line) × (lines ≡ card_title ncard ∷ rest))
      × (x.locked c.mutex ≡ false)
      × (c.task.poll_state ≡ poll_idle)
      × (c.task.current_phy ≤ port_count)

  with_lock-Finished :
      IsMutex x
      → (ncard : ℕ) (b : B) (r : Option (LineCard M × List Effect)) → Acquired k x r
      → Finished ncard (with_lock hw k x ncard b r)
  unfolding cli_unlock
  with_lock-Finished law ncard b none h = h
  with_lock-Finished law ncard b (some (c, es)) h = ((_, refl), law.unlock_frees c.mutex, h.1, h.2)

  -- Where the polling task and the command line share the mutex properly and the transceiver answers
  -- the commands of the poll in progress, "show hardware" gets through the line card: it ends with the
  -- MDIO mutex released and the polling task at rest, whatever the sensors answer.
  pub print_line_card_info_ends :
      IsMutex x
      → (ncard : ℕ) (ms : List Moment) (c : LineCard M) (b : B)
      → IsExclusive k x (record { card = c; cli_holds = false })
      → passes_left c.task.poll_state ≤ ready_moments ms
      → Finished ncard (print_line_card_info hw k x ncard ms c b)
  unfolding print_line_card_info
  print_line_card_info_ends law ncard ms c b h enough =
      with_lock-Finished law ncard b (wait_lock k x ms c) (wait_lock_ends k x law ms c h enough)

module _ {B : Type 0} (hw : Hardware B) where
  -- The setup of a temperature sensor reports a reading exactly if all three transfers succeed, the
  -- one that was read; otherwise it reports the failure, and after the first transfer that fails the
  -- bus is left alone.
  pub init_temp_sensor_report :
      (addr : ℕ) (name : String) (b : B)
      → let first = hw.blocking_write addr (0x01 ∷ 0x60 ∷ 0x00 ∷ []) b in
        let second = hw.blocking_write8 addr 0x00 first.1 in
        let third = hw.blocking_read16 addr second.1 in
        let result = init_temp_sensor hw addr name b in
        ((t : ℕ)
          → (result.0 ≡ sensor_ready name t)
            ↔ ((first.0 ≡ true) × (second.0 ≡ true) × (third.0 ≡ some t)))
        × ((result.0 ≡ sensor_failed name addr)
            ↔ ((first.0 ≡ false) ⊎ (second.0 ≡ false) ⊎ (third.0 ≡ none)))
        × (first.0 ≡ false → result.1 ≡ first.1)
        × (first.0 ≡ true → second.0 ≡ false → result.1 ≡ second.1)
  unfolding init_temp_sensor
  init_temp_sensor_report addr name b =
      (λ t. ground arith, ground arith, ground arith, ground arith)
