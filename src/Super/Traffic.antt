-- ===== src/Super/Traffic.antt =====
-- The bytes on the management SPI bus over any sequence of interrupts (SPI1_Handler and
-- SPI_CSHandler of firmware/linecard/super/bsp/common-vectors.cpp).
use latentred.Prelude.{
  ℕ, ◌+◌, ◌%◌, ◌^◌, ◌≡◌, ◌∙◌, refl, sym, ap, Bool, true, false, List, [], ◌∷◌, ◌++◌, Option, none,
  some, arith, length, append_assoc, if◌then◌else◌, Bool-cases, inl, inr,
}
use latentred.Super.Isr.{
  SpiDriver, SpiReads, Spi, receive, transmit_next, spi1_handler, spi_cs_handler,
}

-- What the driver documents of its two buffers: a byte that it accepts is appended, one that it
-- refuses changes nothing, and bytes to send leave in their order. A change of the chip select
-- keeps both.
pub record IsFifo {F : Type 0} (d : SpiDriver F) (rx tx : F → List ℕ) : Type 0 where
  pub accepts :
      (b : ℕ) (f : F)
      → (d.on_irq_rx_data b f).0 ≡ true
      → (rx (d.on_irq_rx_data b f).1 ≡ rx f ++ b ∷ []) × (tx (d.on_irq_rx_data b f).1 ≡ tx f)
  pub refuses :
      (b : ℕ) (f : F)
      → (d.on_irq_rx_data b f).0 ≡ false
      → (rx (d.on_irq_rx_data b f).1 ≡ rx f) × (tx (d.on_irq_rx_data b f).1 ≡ tx f)
  pub sends :
      (f : F) (b : ℕ)
      → (d.next_tx_byte f).0 ≡ some b
      → (tx f ≡ b ∷ tx (d.next_tx_byte f).1) × (rx (d.next_tx_byte f).1 ≡ rx f)
  pub idles :
      (f : F)
      → (d.next_tx_byte f).0 ≡ none
      → (tx (d.next_tx_byte f).1 ≡ tx f) × (rx (d.next_tx_byte f).1 ≡ rx f)
  pub selects :
      (rising : Bool) (f : F)
      → (rx (d.on_cs_edge rising f) ≡ rx f) × (tx (d.on_cs_edge rising f) ≡ tx f)

pub data Interrupt : Type 0 where
  data_irq : SpiReads → Interrupt
  cs_irq : Interrupt

-- the bytes that have arrived
abbrev pub arrived : List Interrupt → ℕ
arrived [] = 0
arrived (data_irq r ∷ is) = (if r.rx_not_empty then 1 else 0) + arrived is
arrived (cs_irq ∷ is) = arrived is

module _ {F : Type 0} (d : SpiDriver F) where
  unfoldable pub interrupts : List Interrupt → Spi F → Spi F
  unfolding spi1_handler spi_cs_handler
  interrupts [] s = s
  interrupts (data_irq r ∷ is) s = interrupts is (spi1_handler d r s)
  interrupts (cs_irq ∷ is) s = interrupts is (spi_cs_handler d s)

  module _ (rx tx : F → List ℕ) (fifo : IsFifo d rx tx) where
    -- bytes sent, with those that wait
    abbrev pub outgoing : Spi F → List ℕ
    outgoing s = s.sent ++ tx s.driver

    -- bytes kept and bytes counted as lost
    abbrev pub incoming : Spi F → ℕ
    incoming s = s.overflows + length (rx s.driver)

    length-snoc : (xs : List ℕ) (b : ℕ) → length (xs ++ b ∷ []) ≡ length xs + 1
    length-snoc [] b = refl
    length-snoc (x ∷ xs) b = let h = length-snoc xs b in omega (arith, h)

    -- one byte that arrives is kept or counted
    receive-incoming :
        (r : SpiReads) (s : Spi F)
        → incoming (receive d r s) % 2 ^ 32
          ≡ (incoming s + (if r.rx_not_empty then 1 else 0)) % 2 ^ 32
    receive-incoming r s =
        let snoc = length-snoc (rx s.driver) r.dr in
        elim (Bool-cases r.rx_not_empty) [
          | inr none_there ↦ simp none_there (omega arith)
          | inl there ↦ elim (Bool-cases (d.on_irq_rx_data r.dr s.driver).0) [
            | inl kept ↦
                let e = ap (λ (l : List ℕ). length l) (fifo.accepts r.dr s.driver kept).0 in
                simp (there, kept) (omega (arith, e, snoc))
            | inr lost ↦
                let e = ap (λ (l : List ℕ). length l) (fifo.refuses r.dr s.driver lost).0 in
                simp (there, lost) (omega (arith, e))
          ]
        ]

    receive-outgoing : (r : SpiReads) (s : Spi F) → outgoing (receive d r s) ≡ outgoing s
    receive-outgoing r s = elim (Bool-cases r.rx_not_empty) [
      | inr none_there ↦ simp none_there refl
      | inl there ↦ elim (Bool-cases (d.on_irq_rx_data r.dr s.driver).0) [
        | inl kept ↦
            simp there (ap (λ (l : List ℕ). s.sent ++ l) (fifo.accepts r.dr s.driver kept).1)
        | inr lost ↦
            simp there (ap (λ (l : List ℕ). s.sent ++ l) (fifo.refuses r.dr s.driver lost).1)
      ]
    ]

    transmit-next :
        (s : Spi F) (o : Option ℕ)
        → (d.next_tx_byte s.driver).0 ≡ o
        → let t = transmit_next d (o, (d.next_tx_byte s.driver).1) s in
          (outgoing t ≡ outgoing s) × (incoming t ≡ incoming s)
    transmit-next s none e = (
      ap (λ (l : List ℕ). s.sent ++ l) (fifo.idles s.driver e).0,
      ap (λ (l : List ℕ). s.overflows + length l) (fifo.idles s.driver e).1,
    )
    transmit-next s (some b) e = (
      append_assoc s.sent (b ∷ []) (tx (d.next_tx_byte s.driver).1)
          ∙ ap (λ (l : List ℕ). s.sent ++ l) (sym (fifo.sends s.driver b e).0),
      ap (λ (l : List ℕ). s.overflows + length l) (fifo.sends s.driver b e).1,
    )

    handler :
        (r : SpiReads) (s : Spi F)
        → let t = spi1_handler d r s in
          (outgoing t ≡ outgoing s)
          × (incoming t % 2 ^ 32 ≡ (incoming s + (if r.rx_not_empty then 1 else 0)) % 2 ^ 32)
    unfolding spi1_handler
    handler r s =
        let t = receive d r s in
        let next = transmit-next t (d.next_tx_byte t.driver).0 refl in
        elim (Bool-cases r.tx_empty) [
          | inl empty ↦ simp empty (
            next.0 ∙ receive-outgoing r s,
            ap (λ (n : ℕ). n % 2 ^ 32) next.1 ∙ receive-incoming r s,
          )
          | inr full ↦ simp full (receive-outgoing r s, receive-incoming r s)
        ]

    -- Over any interrupts no byte to send is lost, doubled or put out of order: the bytes that were
    -- sent, followed by those that wait, are what they were before. And no byte that arrives is
    -- lost without a count: the bytes in the receive buffer and the overflow counter together grow
    -- by one for each, up to the counter's wrap-around at 2^32. The driver's buffers are what it
    -- documents.
    pub interrupts_accounts :
        (is : List Interrupt) (s : Spi F)
        → let t = interrupts is s in
          (outgoing t ≡ outgoing s) × (incoming t % 2 ^ 32 ≡ (incoming s + arrived is) % 2 ^ 32)
    unfolding interrupts
    interrupts_accounts [] s = (refl, omega arith)
    interrupts_accounts (data_irq r ∷ is) s =
        let now = handler r s in
        let later = interrupts_accounts is (spi1_handler d r s) in
        (later.0 ∙ now.0, omega (arith, later.1, now.1))
    interrupts_accounts (cs_irq ∷ is) s =
        let same = fifo.selects false s.driver in
        let later = interrupts_accounts is (spi_cs_handler d s) in
        (
          later.0 ∙ ap (λ (l : List ℕ). s.sent ++ l) same.1,
          later.1 ∙ ap (λ (l : List ℕ). (s.overflows + length l + arrived is) % 2 ^ 32) same.0,
        )
