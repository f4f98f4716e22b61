-- ===== src/Trf/Contract.antt =====
-- What drivers/trf797x relies on in the reader chip and in ChibiOS while a message is sent and its
-- answer received: interrupts that bring bytes into the FIFO, and registers that are read over SPI.
use nfcee_fw.Base.{
  ℕ, ◌≤◌, ◌≡◌, true, false, Option, List, ◌∷◌, ◌++◌, bit_and, ◌==◌, length, take, drop, get_or,
}
use nfcee_fw.Trf.{Hal}
use nfcee_fw.Trf.Registers.{irq_status, fifo_status, fifo, fifo_size, event_stop}
use nfcee_fw.Trf.Spi.{read_byte}

-- An interrupt: the status that it sets, and the bytes that have come into the FIFO by then.
pub record Signal : Type 0 where
  pub irq : ℕ
  pub arrived : List ℕ

-- What of the chip matters to an exchange: the bytes that were sent to it, the interrupt status, the
-- received bytes that the FIFO holds, and the interrupts to come.
pub record Seen : Type 0 where
  pub sent : List ℕ
  pub irq : ℕ
  pub held : List ℕ
  pub signals : List Signal

-- The chip and the operating system as the data sheet and the documentation have them. `mask` is the
-- event that the interrupts are announced by; no stop is requested.
pub record Contract {W : Type 0} (hal : Hal W) (mask : ℕ) : Type 0 where
  pub seen : W → Seen
  -- The byte that has opened the transfer.
  pub opened : W → ℕ
  pub on_exchange :
      (b : ℕ) (w : W) → (opened (hal.exchange b w) ≡ b) × (seen (hal.exchange b w) ≡ seen w)
  pub on_send :
      (bytes : List ℕ) (w : W)
      → seen (hal.send bytes w) ≡ record (seen w) { sent = (seen w).sent ++ bytes }
  pub on_select : (w : W) → seen (hal.select w) ≡ seen w
  pub on_unselect : (w : W) → seen (hal.unselect w) ≡ seen w
  pub on_acquire : (w : W) → seen (hal.acquire w) ≡ seen w
  pub on_release : (w : W) → seen (hal.release w) ≡ seen w
  pub on_delay : (n : ℕ) (w : W) → seen (hal.delay_ns n w) ≡ seen w
  pub on_flags :
      (w : W)
      → ((bit_and (hal.get_flags w).0 event_stop == 0) ≡ true) × (seen (hal.get_flags w).1 ≡ seen w)
  -- A wait ends with the next interrupt.
  pub on_wait :
      (timeout : Option ℕ) (w : W) (s : Signal) (ss : List Signal)
      → (seen w).signals ≡ s ∷ ss
      → (((hal.wait_event mask timeout w).0 == 0) ≡ false)
        × (seen (hal.wait_event mask timeout w).1
            ≡ record (seen w) { irq = s.irq; held = (seen w).held ++ s.arrived; signals = ss })
  -- The interrupt status, read with a dummy byte, is cleared.
  pub on_irq :
      (w : W)
      → opened w ≡ read_byte irq_status 2
      → (get_or (hal.receive 2 w).0 0 0 ≡ (seen w).irq)
        × (seen (hal.receive 2 w).1 ≡ record (seen w) { irq = 0 })
  -- The FIFO status has the number of bytes in its low seven bits.
  pub on_status :
      (w : W)
      → opened w ≡ read_byte fifo_status 1
      → length (seen w).held ≤ fifo_size
      → (bit_and (get_or (hal.receive 1 w).0 0 0) 0x7F ≡ length (seen w).held)
        × (seen (hal.receive 1 w).1 ≡ seen w)
  -- The FIFO gives its bytes in order.
  pub on_fifo :
      (n : ℕ) (w : W)
      → opened w ≡ read_byte fifo n
      → n ≤ length (seen w).held
      → ((hal.receive n w).0 ≡ take n (seen w).held)
        × (seen (hal.receive n w).1 ≡ record (seen w) { held = drop n (seen w).held })
  pub on_ignore :
      (n : ℕ) (w : W)
      → opened w ≡ read_byte fifo n
      → n ≤ length (seen w).held
      → seen (hal.ignore n w) ≡ record (seen w) { held = drop n (seen w).held }
