-- ===== src/Trf/Initiator.antt =====
-- `trf797x_initiator_transceive` of drivers/trf797x/trf797x_initiator.c.
pub mod Errors
pub mod Bounds
pub mod Boundary
pub mod SendHalts
pub mod Halts
use nfcee_fw.Base.{
  ℕ, zero, suc, ◌+◌, ◌-◌, ◌^◌, Bool, true, false, ◌&&◌, not, Option, none, some, List, [], ◌∷◌,
  ◌++◌, bit_and, bit_or, ltb, ◌==◌, if◌then◌else◌, length, drop,
}
use nfcee_fw.Word.{u32}
use nfcee_fw.Run.{Run, returns, fault, out_of_fuel, ◌>>=◌}
use nfcee_fw.Nfc.{
  Errno, checksum, parity, framing, collision, etimedout, ecanceled, einval, Ret, done, fail, Iovec,
  Reply,
}
use nfcee_fw.Trf.{Hal, Config, Chip, bytes_of}
use nfcee_fw.Trf.Registers.{
  irq_status, irq_col, irq_crc_error, irq_framing_eof_error, irq_parity_error, irq_fifo, irq_srx,
  irq_tx, irq_error, event_stop,
}
use nfcee_fw.Trf.Spi.{register_read1, acquire_bus, release_bus}
use nfcee_fw.Trf.Fifo.{Filling, transmit, fifo_fill, fifo_drain}

-- `irq2error`: the first error bit, in this order.
unfoldable pub irq2error : ℕ → Ret
irq2error irq =
    if not (bit_and irq irq_col == 0)
    then fail collision
    else if not (bit_and irq irq_crc_error == 0)
    then fail checksum
    else if not (bit_and irq irq_framing_eof_error == 0)
    then fail framing
    else if not (bit_and irq irq_parity_error == 0)
    then fail parity
    else done 0

-- What is still to be sent: the parts from `tx` on, `tx_buf` and `tx_bytes`.
pub record Sending : Type 0 where
  pub parts : List Iovec
  pub buf : List ℕ
  pub left : ℕ

-- `tx_buf = tx->base + len; tx_bytes = (tx->bits + 7) / 8 - len;` with the result of the transmission.
unfoldable pub after_transmit : Filling → Run (Sending × ℕ)
after_transmit s = elim s.sent [
  | none ↦ fault
  | some n ↦ elim s.parts [
    | [] ↦ fault
    | v ∷ vs ↦ returns (
      record { parts = v ∷ vs; buf = drop n v.base; left = u32 (bytes_of v.bits + 2 ^ 32 - n) },
      s.len,
    )
  ]
]

-- `if (tx_bytes == 0 && txlen) { tx++; … }`: the next part, which must lie in the array.
unfoldable pub next_part : ℕ → Sending → Run Sending
next_part txlen s =
    if (s.left == 0) && not (txlen == 0)
    then elim s.parts [
      | [] ↦ fault
      | v ∷ vs ↦ elim vs [
        | [] ↦ fault
        | u ∷ us ↦ returns (record { parts = u ∷ us; buf = u.base; left = bytes_of u.bits })
      ]
    ]
    else returns s

-- How a wait ends: with a result for the caller, or with the interrupt status.
pub data Wait : Type 0 where
  quits : Ret → Wait
  status : ℕ → Wait

module _ {W : Type 0} (hal : Hal W) (cfg : Config) where
  -- `chEvtWaitAnyTimeout`, the flags, and `read_irq`.
  unfoldable pub wait_irq : Option ℕ → W → Wait × W
  unfolding register_read1
  wait_irq timeout w =
      let (mask, w1) = hal.wait_event (2 ^ cfg.event) timeout w in
      if mask == 0
      then (quits (fail etimedout), w1)
      else (let (flags, w2) = hal.get_flags w1 in
          if not (bit_and flags event_stop == 0)
          then (quits (fail ecanceled), w2)
          else (let (irq, w3) = register_read1 hal irq_status w2 in (status irq, w3)))

  -- The FIFO runs low: the next part if this one is through, and what there is room for.
  unfoldable pub refill : ℕ → ℕ → Sending → W → Run (Sending × W)
  unfolding next_part fifo_fill
  refill irq txlen s w =
      if bit_and irq irq_fifo == 0
      then returns (s, w)
      else (next_part txlen s >>= λ s1.
          if s1.left == 0
          then returns (s1, w)
          else (fifo_fill hal s1.buf s1.left w >>= λ (n, w1).
              returns (record s1 { buf = drop n s1.buf; left = s1.left - n }, w1)))

  abbrev pub after_refill :
      (Sending → W → Run (Option Ret × W)) → ℕ → Sending × W → Run (Option Ret × W)
  after_refill again irq (s, w) = if irq == irq_tx then returns (none, w) else again s w

  abbrev pub send_on :
      (Sending → W → Run (Option Ret × W)) → ℕ → Sending → Wait × W → Run (Option Ret × W)
  send_on again txlen s (quits ret, w) = returns (some ret, w)
  send_on again txlen s (status irq, w) = refill irq txlen s w >>= after_refill again irq

  -- The first loop, until the chip reports the end of the transmission.
  unfoldable pub send_loop : ℕ → ℕ → Sending → W → Run (Option Ret × W)
  unfolding wait_irq refill
  send_loop zero txlen s w = out_of_fuel
  send_loop (suc fuel) txlen s w =
      send_on (λ s' w'. send_loop fuel txlen s' w') txlen s (wait_irq none w)

  -- What an interrupt brings, behind the bytes that were stored before; `room` bytes are free.
  unfoldable pub collect : ℕ → ℕ → List ℕ → W → List ℕ × W
  unfolding fifo_drain
  collect irq room out w =
      if bit_and irq (bit_or irq_fifo irq_srx) == 0
      then (out, w)
      else (let (bytes, w1) = fifo_drain hal true (room - length out) w in (out ++ bytes, w1))

  abbrev pub receive_on : (List ℕ → W → Run (Reply × W)) → ℕ → List ℕ → Wait × W → Run (Reply × W)
  receive_on again room out (quits ret, w) = returns (record { ret = ret; stored = out }, w)
  receive_on again room out (status irq, w) =
      if bit_and irq irq_error == 0
      then (let (out', w1) = collect irq room out w in
          if irq == irq_srx
          then returns (record { ret = done (length out'); stored = out' }, w1)
          else again out' w1)
      else returns (record { ret = irq2error irq; stored = out }, w)

  -- The second loop, until the chip reports the end of the answer.
  unfoldable pub receive_loop : ℕ → ℕ → ℕ → List ℕ → W → Run (Reply × W)
  unfolding wait_irq collect
  receive_loop zero room timeout out w = out_of_fuel
  receive_loop (suc fuel) room timeout out w =
      receive_on (λ o v. receive_loop fuel room timeout o v) room out (wait_irq (some timeout) w)

  unfoldable pub then_receive : ℕ → ℕ → ℕ → Option Ret × W → Run (Reply × W)
  unfolding receive_loop
  then_receive fuel room timeout (some ret, w) = returns (record { ret = ret; stored = [] }, w)
  then_receive fuel room timeout (none, w) = receive_loop fuel room timeout [] w

  -- The part of the function that holds the bus.
  unfoldable pub exchange_frames : ℕ → List Iovec → ℕ → ℕ → W → Run (Reply × W)
  unfolding register_read1 transmit after_transmit send_loop then_receive
  exchange_frames fuel tx rx_bits timeout w =
      let (_, w1) = register_read1 hal irq_status w in
      let (_, w2) = hal.get_flags w1 in
      transmit hal tx (length tx) false w2 >>= λ (s, w3). after_transmit s >>= λ (sending, txlen).
      send_loop fuel txlen sending w3 >>= then_receive fuel (bytes_of rx_bits) timeout

-- `trf797x_initiator_transceive`: the driver must have been started.
unfoldable pub initiator_transceive :
    {W : Type 0} → Hal W → ℕ → Chip → List Iovec → ℕ → ℕ → W → Run (Reply × W)
unfolding exchange_frames acquire_bus release_bus
initiator_transceive hal fuel chip tx rx_bits timeout w =
    if length tx == 0
    then returns (record { ret = fail einval; stored = [] }, w)
    else elim chip.config [
      | none ↦ fault
      | some cfg ↦
          exchange_frames hal cfg fuel tx rx_bits timeout (acquire_bus hal w) >>= λ (reply, w1).
          returns (reply, release_bus hal w1)
    ]
