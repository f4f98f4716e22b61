-- ===== src/Trf/Initiator/Bounds.antt =====
-- What `trf797x_initiator_transceive` stores in the caller's buffer.
use nfcee_fw.Base.{
  ℕ, zero, suc, ◌-◌, ◌≤◌, ◌≡◌, ◌⊎◌, inl, inr, refl, arith, min, true, false, not, Option, ◌^◌, ◌∙◌,
  none, some, List, [], bit_and, bit_or, ltb, ◌==◌, if◌then◌else◌, length, Bool-cases,
  length-append,
}
use nfcee_fw.Run.{Run, returns, Post, Post->>=, Post-bind, Post-returns}
use nfcee_fw.Nfc.{Ret, done, is_fail, Iovec, Reply}
use nfcee_fw.Trf.{Hal, Config, Chip, bytes_of}
use nfcee_fw.Trf.Registers.{fifo, irq_fifo, irq_srx, irq_error, irq_tx, event_stop}
use nfcee_fw.Trf.Spi.{register_read, read_transfer}
use nfcee_fw.Trf.Fifo.{fifo_drain, transmit}
use nfcee_fw.Trf.Initiator.Errors.{irq2error-is_fail}
use nfcee_fw.Trf.Initiator.{
  Wait, quits, status, wait_irq, collect, receive_on, receive_loop, then_receive, exchange_frames,
  initiator_transceive, Sending, after_transmit, send_on, send_loop, refill,
}

-- `spiReceive` of `n` bytes gives `n` bytes.
abbrev pub Receives : {W : Type 0} → Hal W → Type 0
Receives {W} hal = (n : ℕ) (w : W) → length (hal.receive n w).0 ≡ n

-- No more is stored than there is room for; the result is the number of bytes, or an error.
abbrev pub IsStored : ℕ → Reply → Type 0
IsStored room r =
    (length r.stored ≤ room) × ((r.ret ≡ done (length r.stored)) ⊎ (is_fail r.ret ≡ true))

module _ {W : Type 0} (hal : Hal W) (receives : Receives hal) (cfg : Config) where
  read_fifo-length : (n : ℕ) (w : W) → length (register_read hal fifo true n w).0 ≡ n
  unfolding register_read read_transfer
  read_fifo-length n w = receives n _

  read_some-fits :
      (len room : ℕ) (w : W)
      → len ≤ room
      → length (if ltb 0 len then register_read hal fifo true len w else ([], w)).0 ≤ room
  read_some-fits len room w h = elim (Bool-cases (ltb 0 len)) [
    | inl e ↦ rw e (omega (arith, h, read_fifo-length len w))
    | inr e ↦ rw e (omega arith)
  ]

  fifo_drain-fits : (room : ℕ) (w : W) → length (fifo_drain hal true room w).0 ≤ room
  unfolding fifo_drain
  fifo_drain-fits room w = read_some-fits (min room _) room _ (omega arith)

  collect-fits :
      (irq room : ℕ) (out : List ℕ) (w : W)
      → length out ≤ room
      → length (collect hal cfg irq room out w).0 ≤ room
  unfolding collect
  collect-fits irq room out w h = elim (Bool-cases (bit_and irq (bit_or irq_fifo irq_srx) == 0)) [
    | inl e ↦ rw e h
    | inr e ↦ rw e (
        omega (
          arith,
          h,
          fifo_drain-fits (room - length out) w,
          length-append out (fifo_drain hal true (room - length out) w).0,
        ))
  ]

  abbrev Stored : ℕ → Reply × W → Type 0
  Stored room (r, w) = IsStored room r

  -- A wait that ends the loop ends it with an error.
  abbrev FailsIfQuits : Wait × W → Type 0
  FailsIfQuits (quits ret, w) = is_fail ret ≡ true
  FailsIfQuits (status irq, w) = Unit

  wait_irq-FailsIfQuits : (timeout : Option ℕ) (w : W) → FailsIfQuits (wait_irq hal cfg timeout w)
  unfolding wait_irq
  wait_irq-FailsIfQuits timeout w =
      elim (Bool-cases ((hal.wait_event (2 ^ cfg.event) timeout w).0 == 0)) [
        | inl e ↦ rw e refl
        | inr e ↦
            let w1 = (hal.wait_event (2 ^ cfg.event) timeout w).1 in
            rw e (elim (Bool-cases (not (bit_and (hal.get_flags w1).0 event_stop == 0))) [
              | inl s ↦ rw s refl
              | inr s ↦ rw s tt
            ])
      ]

  receive_on-IsStored :
      (again : List ℕ → W → Run (Reply × W)) (room : ℕ) (out : List ℕ) (r : Wait × W)
      → ((o : List ℕ) (v : W) → length o ≤ room → Post (Stored room) (again o v))
      → FailsIfQuits r
      → length out ≤ room
      → Post (Stored room) (receive_on hal cfg again room out r)
  receive_on-IsStored again room out (quits ret, w) go fails h = (h, inr fails)
  receive_on-IsStored again room out (status irq, w) go fails h =
      elim (Bool-cases (bit_and irq irq_error == 0)) [
        | inr error ↦ rw error (h, inr (irq2error-is_fail irq ∙ rw error refl))
        | inl fine ↦
            let fits = collect-fits irq room out w h in
            rw fine (elim (Bool-cases (irq == irq_srx)) [
              | inl last ↦ rw last (fits, inl refl)
              | inr more ↦
                  rw more
                    (go (collect hal cfg irq room out w).0 (collect hal cfg irq room out w).1 fits)
            ])
      ]

  receive_loop-IsStored :
      (fuel room timeout : ℕ) (out : List ℕ) (w : W)
      → length out ≤ room
      → Post (Stored room) (receive_loop hal cfg fuel room timeout out w)
  unfolding receive_loop
  receive_loop-IsStored zero room timeout out w h = tt
  receive_loop-IsStored (suc fuel) room timeout out w h =
      receive_on-IsStored (λ o v. receive_loop hal cfg fuel room timeout o v) room out
        (wait_irq hal cfg (some timeout) w) (λ o v. receive_loop-IsStored fuel room timeout o v)
        (wait_irq-FailsIfQuits (some timeout) w) h

  -- The first loop hands on a result only if it is an error.
  abbrev FailsIfSome : Option Ret × W → Type 0
  FailsIfSome (none, w) = Unit
  FailsIfSome (some ret, w) = is_fail ret ≡ true

  send_on-FailsIfSome :
      (again : Sending → W → Run (Option Ret × W)) (txlen : ℕ) (s : Sending) (r : Wait × W)
      → ((s' : Sending) (v : W) → Post FailsIfSome (again s' v))
      → FailsIfQuits r
      → Post FailsIfSome (send_on hal cfg again txlen s r)
  send_on-FailsIfSome again txlen s (quits ret, w) go fails = fails
  send_on-FailsIfSome again txlen s (status irq, w) go fails =
      Post-bind FailsIfSome (refill hal cfg irq txlen s w) _ (λ (s', w').
        elim (Bool-cases (irq == irq_tx)) [ inl e ↦ rw e tt | inr e ↦ rw e (go s' w') ])

  send_loop-FailsIfSome :
      (fuel txlen : ℕ) (s : Sending) (w : W) → Post FailsIfSome (send_loop hal cfg fuel txlen s w)
  unfolding send_loop
  send_loop-FailsIfSome zero txlen s w = tt
  send_loop-FailsIfSome (suc fuel) txlen s w =
      send_on-FailsIfSome (λ s' w'. send_loop hal cfg fuel txlen s' w') txlen s
        (wait_irq hal cfg none w) (λ s' w'. send_loop-FailsIfSome fuel txlen s' w')
        (wait_irq-FailsIfQuits none w)

  then_receive-IsStored :
      (fuel room timeout : ℕ) (r : Option Ret × W)
      → FailsIfSome r
      → Post (Stored room) (then_receive hal cfg fuel room timeout r)
  unfolding then_receive
  then_receive-IsStored fuel room timeout (some ret, w) fails = (omega arith, inr fails)
  then_receive-IsStored fuel room timeout (none, w) fails =
      receive_loop-IsStored fuel room timeout [] w (omega arith)

  exchange_frames-IsStored :
      (fuel : ℕ) (tx : List Iovec) (rx_bits timeout : ℕ) (w : W)
      → Post (Stored (bytes_of rx_bits)) (exchange_frames hal cfg fuel tx rx_bits timeout w)
  unfolding exchange_frames
  exchange_frames-IsStored fuel tx rx_bits timeout w =
      Post-bind (Stored (bytes_of rx_bits)) (transmit hal tx (length tx) false _) _ (λ (s, w3).
        Post-bind (Stored (bytes_of rx_bits)) (after_transmit s) _ (λ (sending, txlen).
          Post->>= FailsIfSome (Stored (bytes_of rx_bits)) (send_loop hal cfg fuel txlen sending w3)
            _ (send_loop-FailsIfSome fuel txlen sending w3)
            (λ r. then_receive-IsStored fuel (bytes_of rx_bits) timeout r)))

pub transceive_by_config :
    {W : Type 0} (hal : Hal W) (receives : Receives hal) (fuel : ℕ) (cfg : Option Config)
    (chip : Chip) (tx : List Iovec) (rx_bits timeout : ℕ) (w : W)
    → chip.config ≡ cfg
    → Post
        (λ (r, v). IsStored (bytes_of rx_bits) r)
        (initiator_transceive hal fuel chip tx rx_bits timeout w)
unfolding initiator_transceive
transceive_by_config hal receives fuel none chip tx rx_bits timeout w e =
    elim (Bool-cases (length tx == 0)) [
      | inl t ↦ rw t (omega arith, inr refl)
      | inr t ↦ rw t (rw e tt)
    ]
transceive_by_config hal receives fuel (some cfg) chip tx rx_bits timeout w e =
    elim (Bool-cases (length tx == 0)) [
      | inl t ↦ rw t (omega arith, inr refl)
      | inr t ↦ rw t (
          rw e (
            Post->>= (Stored hal receives cfg (bytes_of rx_bits)) _
              (exchange_frames hal cfg fuel tx rx_bits timeout _) _
              (exchange_frames-IsStored hal receives cfg fuel tx rx_bits timeout _)
              (λ (reply, v) h. h)))
    ]

-- Whatever the chip signals and sends, and however the message is cut: a `trf797x_initiator_transceive`
-- that returns has stored no more bytes than the receive buffer has room for, and its result is the
-- number of these bytes or an error.
pub initiator_transceive-IsStored :
    {W : Type 0} (hal : Hal W) (receives : Receives hal) (fuel : ℕ) (chip : Chip) (tx : List Iovec)
    (rx_bits timeout : ℕ) (w w' : W) (r : Reply)
    → initiator_transceive hal fuel chip tx rx_bits timeout w ≡ returns (r, w')
    → IsStored (bytes_of rx_bits) r
initiator_transceive-IsStored hal receives fuel chip tx rx_bits timeout w w' r ran =
    Post-returns _ _
      (transceive_by_config hal receives fuel chip.config chip tx rx_bits timeout w refl) ran
