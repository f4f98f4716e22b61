-- ===== src/Trf/Exchange/Reads.antt =====
-- What the register reads of drivers/trf797x/trf797x_lld.c give with a chip that keeps its contract.
use nfcee_fw.Base.{
  ℕ, zero, suc, ◌-◌, ◌≤◌, ◌≡◌, refl, ap, ◌∙◌, inl, inr, arith, true, false, min, [], ltb,
  if◌then◌else◌, length, take, drop, Bool-cases, length-drop, take-min-length, drop-of_le,
}
use nfcee_fw.Trf.{Hal}
use nfcee_fw.Trf.Registers.{irq_status, fifo_status, fifo, fifo_size}
use nfcee_fw.Trf.Spi.{
  toggle_chip_select, acquire_bus, release_bus, toggle_after, read_byte, read_transfer,
  register_read, register_read1,
}
use nfcee_fw.Trf.Fifo.{read_fifo_bytes, fifo_drain}
use nfcee_fw.Trf.Contract.{Seen, Contract}

module _ {W : Type 0} (hal : Hal W) {mask : ℕ} (chip : Contract hal mask) where
  open chip use {
    seen, opened, on_exchange, on_select, on_unselect, on_acquire, on_release, on_delay, on_irq,
    on_status, on_fifo, on_ignore,
  }

  pub toggle-seen : (w : W) → seen (toggle_chip_select hal w) ≡ seen w
  unfolding toggle_chip_select
  toggle-seen w = simp (on_delay, on_select, on_unselect)

  pub acquire_bus-seen : (w : W) → seen (acquire_bus hal w) ≡ seen w
  unfolding acquire_bus
  acquire_bus-seen w = simp (on_delay, on_select, on_acquire)

  pub release_bus-seen : (w : W) → seen (release_bus hal w) ≡ seen w
  unfolding release_bus
  release_bus-seen w = simp (on_delay, on_unselect, on_release)

  toggle_after-seen : (len : ℕ) (w : W) → seen (toggle_after hal len w) ≡ seen w
  toggle_after-seen len w = elim (Bool-cases (ltb 1 len)) [
    | inl e ↦ rw e (toggle-seen w)
    | inr e ↦ rw e refl
  ]

  -- The interrupt status, and the chip after it was read.
  pub read_irq-seen :
      (w : W)
      → ((register_read1 hal irq_status w).0 ≡ (seen w).irq)
        × (seen (register_read1 hal irq_status w).1 ≡ record (seen w) { irq = 0 })
  unfolding register_read1 register_read read_transfer
  read_irq-seen w =
      let before = on_exchange (read_byte irq_status 2) w in
      let read = on_irq (hal.exchange (read_byte irq_status 2) w) before.0 in
      (
        read.0 ∙ ap (λ (s : Seen). s.irq) before.1,
        toggle_after-seen 2 _ ∙ read.1 ∙ ap (λ (s : Seen). record s { irq = 0 }) before.1,
      )

  pub read_fifo_bytes-seen :
      (w : W)
      → length (seen w).held ≤ fifo_size
      → ((read_fifo_bytes hal w).0 ≡ length (seen w).held)
        × (seen (read_fifo_bytes hal w).1 ≡ seen w)
  unfolding read_fifo_bytes register_read1 register_read read_transfer
  read_fifo_bytes-seen w h =
      let before = on_exchange (read_byte fifo_status 1) w in
      let small : length (seen (hal.exchange (read_byte fifo_status 1) w)).held ≤ fifo_size =
        rw before.1 h in
      let read = on_status (hal.exchange (read_byte fifo_status 1) w) before.0 small in
      (read.0 ∙ ap (λ (s : Seen). length s.held) before.1, read.1 ∙ before.1)

  -- Bytes from the front of the FIFO, stored or dropped.
  read_fifo-seen :
      (n : ℕ) (w : W)
      → n ≤ length (seen w).held
      → ((register_read hal fifo true n w).0 ≡ take n (seen w).held)
        × (seen (register_read hal fifo true n w).1
            ≡ record (seen w) { held = drop n (seen w).held })
  unfolding register_read read_transfer
  read_fifo-seen n w h =
      let before = on_exchange (read_byte fifo n) w in
      let small : n ≤ length (seen (hal.exchange (read_byte fifo n) w)).held = rw before.1 h in
      let read = on_fifo n (hal.exchange (read_byte fifo n) w) before.0 small in
      (
        read.0 ∙ ap (λ (s : Seen). take n s.held) before.1,
        toggle_after-seen n _
            ∙ read.1
            ∙ ap (λ (s : Seen). record s { held = drop n s.held }) before.1,
      )

  skip_fifo-seen :
      (n : ℕ) (w : W)
      → n ≤ length (seen w).held
      → seen (register_read hal fifo false n w).1 ≡ record (seen w) { held = drop n (seen w).held }
  unfolding register_read read_transfer
  skip_fifo-seen n w h =
      let before = on_exchange (read_byte fifo n) w in
      let small : n ≤ length (seen (hal.exchange (read_byte fifo n) w)).held = rw before.1 h in
      toggle_after-seen n _
      ∙ on_ignore n (hal.exchange (read_byte fifo n) w) before.0 small
      ∙ ap (λ (s : Seen). record s { held = drop n s.held }) before.1

  take_front :
      (n : ℕ) (w : W)
      → n ≤ length (seen w).held
      → let r = if ltb 0 n then register_read hal fifo true n w else ([], w) in
        (r.0 ≡ take n (seen w).held) × (seen r.1 ≡ record (seen w) { held = drop n (seen w).held })
  take_front zero w h = (refl, refl)
  take_front (suc n) w h =
      let more : ltb 0 (suc n) ≡ true = ground arith in rw more (read_fifo-seen (suc n) w h)

  skip_front :
      (n : ℕ) (w : W)
      → n ≤ length (seen w).held
      → seen (if ltb 0 n then (register_read hal fifo false n w).1 else w)
        ≡ record (seen w) { held = drop n (seen w).held }
  skip_front zero w h = refl
  skip_front (suc n) w h =
      let more : ltb 0 (suc n) ≡ true = ground arith in rw more (skip_fifo-seen (suc n) w h)

  -- The FIFO is emptied; what there is room for is stored.
  pub fifo_drain-seen :
      (room : ℕ) (w : W)
      → length (seen w).held ≤ fifo_size
      → ((fifo_drain hal true room w).0 ≡ take room (seen w).held)
        × (seen (fifo_drain hal true room w).1 ≡ record (seen w) { held = [] })
  unfolding fifo_drain
  fifo_drain-seen room w h =
      let (count, same) = read_fifo_bytes-seen w h in
      let w1 = (read_fifo_bytes hal w).1 in
      let held = (seen w).held in
      let n = length held in
      let swap : min room n ≡ min n room = omega arith in
      let len = min room n in
      let r = if ltb 0 len then register_read hal fifo true len w1 else ([], w1) in
      let taken = take_front len w1 (rw same (omega arith)) in
      let rest : length (drop len held) ≡ n - len = length-drop len held in
      let now : seen r.1 ≡ record (seen w) { held = drop len held } =
        taken.1 ∙ ap (λ (s : Seen). record s { held = drop len s.held }) same in
      let skipped = skip_front (n - len) r.1 (rw now (omega (arith, rest))) in
      rw count (
        taken.0 ∙ ap (λ (s : Seen). take len s.held) same ∙ rw swap (take-min-length room held),
        skipped
            ∙ ap (λ (s : Seen). record s { held = drop (n - len) s.held }) now
            ∙ ap (λ l. record (seen w) { held = l })
                (drop-of_le (n - len) (drop len held) (omega (arith, rest))),
      )
