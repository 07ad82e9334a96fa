-- ===== src/Super/Isr.antt =====
-- firmware/linecard/super/bsp/common-vectors.cpp and firmware/lcbringup/bsp/common-vectors.cpp: the
-- interrupt handlers of the serial ports and of the SPI bus.
use latentred.Prelude.{
  ℕ, ◌+◌, ◌%◌, ◌^◌, ◌≤◌, ◌<◌, ◌≡◌, ◌⊎◌, ◌↔◌, Bool, true, false, List, [], ◌∷◌, ◌++◌, Option, none,
  some, arith, if◌then◌else◌,
}

-- The SPI driver's buffers; `F` is their state.
pub record SpiDriver (F : Type 0) : Type 0 where
  pub on_irq_rx_data : ℕ → F → Bool × F
  pub next_tx_byte : F → Option ℕ × F
  pub on_cs_edge : Bool → F → F

-- The bits that the handler reads of SPI1, and its receive data register.
pub record SpiReads : Type 0 where
  pub rx_not_empty : Bool
  pub tx_empty : Bool
  pub dr : ℕ

pub record Spi (F : Type 0) : Type 0 where
  pub driver : F
  pub overflows : ℕ  -- g_spiRxFifoOverflows, uint32_t
  pub tx_irq : Bool  -- the bit SPI_TXEIE of CR2
  pub sent : List ℕ  -- what was written to DR
  pub pending : Bool  -- the pending bit of EXTI line 4

module _ {F : Type 0} (d : SpiDriver F) where
  abbrev pub receive : SpiReads → Spi F → Spi F
  receive r s =
      let (kept, f) = d.on_irq_rx_data r.dr s.driver in
      if r.rx_not_empty
      then record s {
        driver = f;
        overflows = if kept then s.overflows else (s.overflows + 1) % 2 ^ 32;
      }
      else s

  abbrev pub transmit_next : Option ℕ × F → Spi F → Spi F
  transmit_next (some byte, f) s = record s { driver = f; sent = s.sent ++ byte ∷ [] }
  transmit_next (none, f) s = record s { driver = f; tx_irq = false }

  -- SPI1_Handler. `HasNextTxByte` and `GetNextTxByte` are one operation here, which gives no byte if
  -- there is none.
  unfoldable pub spi1_handler : SpiReads → Spi F → Spi F
  spi1_handler r s =
      let t = receive r s in
      let next = transmit_next (d.next_tx_byte t.driver) t in if r.tx_empty then next else t

  -- SPI_CSHandler: only falling edges interrupt
  unfoldable pub spi_cs_handler : Spi F → Spi F
  spi_cs_handler s = record s { driver = d.on_cs_edge false s.driver; pending = false }

  -- A byte is never lost without a count: in one interrupt the overflow counter, unless it is at
  -- its limit of 2^32 - 1, rises by one exactly if a byte was waiting and the buffer refused it.
  -- The transmit interrupt is switched off exactly if the transmitter is empty and no byte is left
  -- to send, and never switched on; otherwise an empty transmitter gets the next byte.
  pub spi1_handler_accounts :
      (r : SpiReads) (s : Spi F)
      → s.overflows + 1 < 2 ^ 32
      → let t = spi1_handler r s in
        let kept = (d.on_irq_rx_data r.dr s.driver).0 in
        let before = if r.rx_not_empty then (d.on_irq_rx_data r.dr s.driver).1 else s.driver in
        ((t.overflows ≡ s.overflows + 1) ↔ ((r.rx_not_empty ≡ true) × (kept ≡ false)))
        × (s.overflows ≤ t.overflows)
        × ((t.tx_irq ≡ false)
            ↔ ((s.tx_irq ≡ false) ⊎ ((r.tx_empty ≡ true) × ((d.next_tx_byte before).0 ≡ none))))
        × ((b : ℕ)
            → r.tx_empty ≡ true
            → (d.next_tx_byte before).0 ≡ some b
            → t.sent ≡ s.sent ++ b ∷ [])
  unfolding spi1_handler
  spi1_handler_accounts r s room = (ground arith, ground arith, ground arith, λ b. ground arith)

-- The calls of the UART driver in an interrupt.
pub data UartCall : Type 0 where
  rx_data tx_empty_call : UartCall

-- UART4_Handler of the management controller: `ISR & RXNE`, then `ISR & TXE`, each read anew
unfoldable pub uart4_handler : (rxne txe : Bool) → List UartCall
uart4_handler rxne txe =
    (if rxne then rx_data ∷ [] else []) ++ (if txe then tx_empty_call ∷ [] else [])

-- USART1_Handler of the supervisor, in the other order
unfoldable pub usart1_handler : (rxne txe : Bool) → List UartCall
usart1_handler rxne txe =
    (if txe then tx_empty_call ∷ [] else []) ++ (if rxne then rx_data ∷ [] else [])
