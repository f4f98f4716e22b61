-- ===== src/Trf/Pending.antt =====
-- The interrupts that a reader chip has still to signal, and what the driver's accesses to the chip do
-- to their number.
use nfcee_fw.Base.{
  ℕ, ◌-◌, ◌&&◌, ◌≤◌, ◌<◌, inl, inr, min, true, false, Bool, Option, ◌≢◌, arith, List, [], ltb, ◌==◌,
  if◌then◌else◌, length, take, Bool-cases,
}
use nfcee_fw.Run.{Halts}
use nfcee_fw.Trf.{Hal}
use nfcee_fw.Trf.Registers.{Reg, fifo, fifo_status, fifo_size, irq_status}
use nfcee_fw.Trf.Spi.{
  toggle_chip_select, acquire_bus, release_bus, toggle_after, is_irq_status, read_transfer,
  register_read, register_read1, register_write,
}
use nfcee_fw.Trf.Fifo.{read_fifo_bytes, fifo_fill, fifo_drain}

-- The interrupts that are still to come. A wait that does not time out uses up one of them; nothing else
-- adds any.
pub record Pending {W : Type 0} (hal : Hal W) : Type 0 where
  pub pending : W → ℕ
  pub on_wait :
      (mask : ℕ) (timeout : Option ℕ) (w : W)
      → (hal.wait_event mask timeout w).0 ≢ 0
      → pending (hal.wait_event mask timeout w).1 < pending w
  pub on_flags : (w : W) → pending (hal.get_flags w).1 ≤ pending w
  pub on_exchange : (b : ℕ) (w : W) → pending (hal.exchange b w) ≤ pending w
  pub on_send : (bytes : List ℕ) (w : W) → pending (hal.send bytes w) ≤ pending w
  pub on_receive : (n : ℕ) (w : W) → pending (hal.receive n w).1 ≤ pending w
  pub on_ignore : (n : ℕ) (w : W) → pending (hal.ignore n w) ≤ pending w
  pub on_select : (w : W) → pending (hal.select w) ≤ pending w
  pub on_unselect : (w : W) → pending (hal.unselect w) ≤ pending w
  pub on_acquire : (w : W) → pending (hal.acquire w) ≤ pending w
  pub on_release : (w : W) → pending (hal.release w) ≤ pending w
  pub on_delay : (n : ℕ) (w : W) → pending (hal.delay_ns n w) ≤ pending w

module _ {W : Type 0} (hal : Hal W) (p : Pending hal) where
  open p use {
    pending, on_wait, on_flags, on_exchange, on_send, on_receive, on_ignore, on_select, on_unselect,
    on_acquire, on_release, on_delay,
  }

  pub toggle-le : (w : W) → pending (toggle_chip_select hal w) ≤ pending w
  unfolding toggle_chip_select
  toggle-le w = omega (arith, on_delay, on_select, on_unselect)

  pub acquire_bus-le : (w : W) → pending (acquire_bus hal w) ≤ pending w
  unfolding acquire_bus
  acquire_bus-le w = omega (arith, on_delay, on_select, on_acquire)

  pub release_bus-le : (w : W) → pending (release_bus hal w) ≤ pending w
  unfolding release_bus
  release_bus-le w = omega (arith, on_delay, on_unselect, on_release)

  pub toggle_after-le : (len : ℕ) (w : W) → pending (toggle_after hal len w) ≤ pending w
  toggle_after-le len w = elim (Bool-cases (ltb 1 len)) [
    | inl e ↦ rw e (toggle-le w)
    | inr e ↦ rw e (omega arith)
  ]

  pub read_transfer-le :
      (reg : Reg) (wanted : Bool) (len : ℕ) (w : W)
      → pending (read_transfer hal reg wanted len w).1 ≤ pending w
  unfolding read_transfer
  read_transfer-le reg true len w = omega (arith, toggle_after-le, on_receive, on_exchange)
  read_transfer-le reg false len w = omega (arith, toggle_after-le, on_ignore, on_exchange)

  pub register_read-le :
      (reg : Reg) (wanted : Bool) (len : ℕ) (w : W)
      → pending (register_read hal reg wanted len w).1 ≤ pending w
  unfolding register_read
  register_read-le reg wanted len w = elim (Bool-cases (is_irq_status hal reg && (len == 1))) [
    | inl e ↦ rw e (read_transfer-le irq_status true 2 w)
    | inr e ↦ rw e (read_transfer-le reg wanted len w)
  ]

  pub register_read1-le : (reg : Reg) (w : W) → pending (register_read1 hal reg w).1 ≤ pending w
  unfolding register_read1
  register_read1-le reg w = register_read-le reg true 1 w

  pub register_write-le :
      (reg : Reg) (bytes : List ℕ) (w : W) → pending (register_write hal reg bytes w) ≤ pending w
  unfolding register_write
  register_write-le reg bytes w = omega (arith, toggle_after-le, on_send, on_exchange)

  pub read_fifo_bytes-le : (w : W) → pending (read_fifo_bytes hal w).1 ≤ pending w
  unfolding read_fifo_bytes
  read_fifo_bytes-le w = register_read1-le fifo_status w

  -- No more interrupts are to come than `n`.
  abbrev pub AtMost {ℓ} : {A : Type ℓ} → ℕ → A × W → Type 0
  AtMost n (a, w) = pending w ≤ n

  pub fifo_fill-Halts :
      (bytes : List ℕ) (n : ℕ) (w : W) → Halts (AtMost (pending w)) (fifo_fill hal bytes n w)
  unfolding fifo_fill
  fifo_fill-Halts bytes n w =
      let (used, w1) = read_fifo_bytes hal w in
      let len = min n (fifo_size - used) in
      let before = read_fifo_bytes-le w in
      elim (Bool-cases (ltb (length bytes) len)) [
        | inl e ↦ rw e tt
        | inr e ↦ rw e (elim (Bool-cases (ltb 0 len)) [
          | inl some_bytes ↦
              rw some_bytes (omega (arith, before, register_write-le fifo (take len bytes) w1))
          | inr nothing ↦ rw nothing before
        ])
      ]

  pub if_read-le :
      (b wanted : Bool) (n : ℕ) (bytes : List ℕ) (w : W)
      → pending (if b then register_read hal fifo wanted n w else (bytes, w)).1 ≤ pending w
  if_read-le true wanted n bytes w = register_read-le fifo wanted n w
  if_read-le false wanted n bytes w = omega arith

  pub if_skip-le :
      (b : Bool) (n : ℕ) (w : W)
      → pending (if b then (register_read hal fifo false n w).1 else w) ≤ pending w
  if_skip-le true n w = register_read-le fifo false n w
  if_skip-le false n w = omega arith

  pub fifo_drain-le :
      (wanted : Bool) (room : ℕ) (w : W) → pending (fifo_drain hal wanted room w).1 ≤ pending w
  unfolding fifo_drain
  fifo_drain-le wanted room w =
      let (available, w1) = read_fifo_bytes hal w in
      let len = if wanted then min room available else 0 in
      omega (
        arith,
        read_fifo_bytes-le w,
        if_read-le (ltb 0 len) true len [] w1,
        if_skip-le (ltb 0 (available - len)) (available - len)
            (if ltb 0 len then register_read hal fifo true len w1 else ([], w1)).1,
      )
