-- ===== src/Trf/Initiator/Halts.antt =====
-- How long `trf797x_initiator_transceive` runs: no longer than interrupts come.
use nfcee_fw.Base.{
  ℕ, zero, suc, ◌+◌, ◌-◌, ◌^◌, ◌≤◌, ◌<◌, inl, inr, true, false, Option, none, some, ◌≡◌, refl,
  arith, List, [], ◌∷◌, bit_and, bit_or, ◌==◌, length, drop, Bool-cases,
}
use nfcee_fw.Word.{u32}
use nfcee_fw.Run.{Run, returns, fault, Halts, Halts->>=, Halts-Post}
use nfcee_fw.Nfc.{Ret, Iovec, Reply}
use nfcee_fw.Trf.{Hal, Config, Chip, bytes_of}
use nfcee_fw.Trf.Registers.{irq_status, irq_fifo, irq_srx, irq_error}
use nfcee_fw.Trf.Spi.{acquire_bus, register_read1}
use nfcee_fw.Trf.Fifo.{Filling}
use nfcee_fw.Trf.Fifo.Halts.{transmit-Halts}
use nfcee_fw.Trf.Pending.{Pending, acquire_bus-le, register_read1-le, fifo_drain-le, AtMost}
use nfcee_fw.Trf.Initiator.Bounds.{Receives, IsStored, transceive_by_config}
use nfcee_fw.Trf.Initiator.{
  Sending, after_transmit, Wait, quits, status, wait_irq, collect, receive_on, receive_loop,
  then_receive, exchange_frames, initiator_transceive,
}
use nfcee_fw.Trf.Initiator.SendHalts.{UsesOne, wait_irq-UsesOne, MayReceive, send_loop-Halts}

module _ {W : Type 0} (hal : Hal W) (p : Pending hal) (cfg : Config) where
  open p use {pending, on_wait, on_flags}

  collect-le :
      (irq room : ℕ) (out : List ℕ) (w : W) → pending (collect hal cfg irq room out w).1 ≤ pending w
  unfolding collect
  collect-le irq room out w = elim (Bool-cases (bit_and irq (bit_or irq_fifo irq_srx) == 0)) [
    | inl e ↦ rw e (omega arith)
    | inr e ↦ rw e (fifo_drain-le hal p true (room - length out) w)
  ]

  abbrev Ends : {A : Type 0} → Run A → Type 0
  Ends m = Halts (λ a. Unit) m

  receive_on-Ends :
      (again : List ℕ → W → Run (Reply × W)) (room n : ℕ) (out : List ℕ) (r : Wait × W)
      → UsesOne hal p cfg n r
      → ((o : List ℕ) (v : W) → pending v < n → Ends (again o v))
      → Ends (receive_on hal cfg again room out r)
  receive_on-Ends again room n out (quits ret, w) uses go = tt
  receive_on-Ends again room n out (status irq, w) uses go =
      elim (Bool-cases (bit_and irq irq_error == 0)) [
        | inr e ↦ rw e tt
        | inl e ↦ rw e (elim (Bool-cases (irq == irq_srx)) [
          | inl last ↦ rw last tt
          | inr more ↦ rw more (
              go (collect hal cfg irq room out w).0 (collect hal cfg irq room out w).1
                (omega (arith, collect-le irq room out w)))
        ])
      ]

  receive_loop-Ends :
      (fuel room timeout : ℕ) (out : List ℕ) (w : W)
      → pending w < fuel
      → Ends (receive_loop hal cfg fuel room timeout out w)
  unfolding receive_loop
  receive_loop-Ends zero room timeout out w h = absurd (omega arith)
  receive_loop-Ends (suc fuel) room timeout out w h =
      receive_on-Ends (λ o v. receive_loop hal cfg fuel room timeout o v) room (pending w) out
        (wait_irq hal cfg (some timeout) w) (wait_irq-UsesOne hal p cfg (some timeout) w)
        (λ o v h'. receive_loop-Ends fuel room timeout o v (omega arith))

  then_receive-Ends :
      (fuel room timeout b : ℕ) (r : Option Ret × W)
      → b < fuel
      → MayReceive hal p cfg b r
      → Ends (then_receive hal cfg fuel room timeout r)
  unfolding then_receive
  then_receive-Ends fuel room timeout b (some ret, w) h k = tt
  then_receive-Ends fuel room timeout b (none, w) h k =
      receive_loop-Ends fuel room timeout [] w (omega arith)

  after_transmit-Halts : (s : Filling) → Halts (λ r. Unit) (after_transmit s)
  unfolding after_transmit
  after_transmit-Halts s = from_sent s.sent s.parts
    where
      from_sent :
          (o : Option ℕ) (vs : List Iovec)
          → Halts {A = Sending × ℕ}
              (λ r. Unit)
              (elim o [
                | none ↦ fault
                | some n ↦ elim vs [
                  | [] ↦ fault
                  | v ∷ us ↦ returns (
                    record {
                      parts = v ∷ us;
                      buf = drop n v.base;
                      left = u32 (bytes_of v.bits + 2 ^ 32 - n);
                    },
                    s.len,
                  )
                ]
              ])
      from_sent none vs = tt
      from_sent (some n) [] = tt
      from_sent (some n) (v ∷ us) = tt

  exchange_frames-Ends :
      (fuel : ℕ) (tx : List Iovec) (rx_bits timeout : ℕ) (w : W)
      → pending w < fuel
      → Ends (exchange_frames hal cfg fuel tx rx_bits timeout w)
  unfolding exchange_frames
  exchange_frames-Ends fuel tx rx_bits timeout w h =
      let w1 = (register_read1 hal irq_status w).1 in
      let w2 = (hal.get_flags w1).1 in
      Halts->>= (AtMost hal p (pending w)) (λ r. Unit) _ _
        (transmit-Halts hal p tx false (pending w) w2
          (omega (arith, on_flags w1, register_read1-le hal p irq_status w)))
        (λ (s, w3) h3.
          Halts->>= (λ r. Unit) (λ r. Unit) _ _ (after_transmit-Halts s)
            (λ (sending, txlen) u.
              Halts->>= (MayReceive hal p cfg (pending w)) (λ r. Unit) _ _
                (send_loop-Halts hal p cfg fuel txlen (pending w) sending w3 (omega arith) h3)
                (λ r k. then_receive-Ends fuel (bytes_of rx_bits) timeout (pending w) r h k)))

transceive_by_config-Ends :
    {W : Type 0} (hal : Hal W) (p : Pending hal) (fuel : ℕ) (cfg : Option Config) (chip : Chip)
    (tx : List Iovec) (rx_bits timeout : ℕ) (w : W)
    → chip.config ≡ cfg
    → p.pending w < fuel
    → Halts (λ r. Unit) (initiator_transceive hal fuel chip tx rx_bits timeout w)
unfolding initiator_transceive
transceive_by_config-Ends hal p fuel none chip tx rx_bits timeout w e h =
    elim (Bool-cases (length tx == 0)) [ inl t ↦ rw t tt | inr t ↦ rw t (rw e tt) ]
transceive_by_config-Ends hal p fuel (some cfg) chip tx rx_bits timeout w e h =
    elim (Bool-cases (length tx == 0)) [
      | inl t ↦ rw t tt
      | inr t ↦ rw t (
          rw e (
            Halts->>= (λ r. Unit) (λ r. Unit) _ _
              (exchange_frames-Ends hal p cfg fuel tx rx_bits timeout (acquire_bus hal w)
                (omega (arith, acquire_bus-le hal p w)))
              (λ (reply, v) u. tt)))
    ]

-- With a chip that signals no more than so many interrupts, loop counters above that number suffice: the
-- call does not run on. It returns, with no more bytes stored than the receive buffer has room for and
-- their number or an error as its result, or it touches memory that is not its own.
pub initiator_transceive-Halts :
    {W : Type 0} (hal : Hal W) (p : Pending hal) (receives : Receives hal) (fuel : ℕ) (chip : Chip)
    (tx : List Iovec) (rx_bits timeout : ℕ) (w : W)
    → p.pending w < fuel
    → Halts
        (λ (r, v). IsStored (bytes_of rx_bits) r)
        (initiator_transceive hal fuel chip tx rx_bits timeout w)
initiator_transceive-Halts hal p receives fuel chip tx rx_bits timeout w h =
    Halts-Post _ _
      (transceive_by_config-Ends hal p fuel chip.config chip tx rx_bits timeout w refl h)
      (transceive_by_config hal receives fuel chip.config chip tx rx_bits timeout w refl)
