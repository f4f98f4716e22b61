-- ===== src/Trf/Exchange/Transfer.antt =====
-- `trf797x_initiator_transceive` with a chip that keeps its contract and a card that answers.
use mathlib.Core.Path.{subst}
use nfcee_fw.Base.{
  ℕ, zero, suc, ◌+◌, ◌^◌, ◌≤◌, ◌<◌, ◌≡◌, refl, sym, ap, ◌∙◌, arith, false, Option, none, some, List,
  [], ◌∷◌, ◌++◌, ◌==◌, length, take, take-of_le,
}
use nfcee_fw.Run.{Run, ◌>>=◌, Must, Must->>=, Must-map}
use nfcee_fw.Nfc.{Ret, done, Iovec, Reply}
use nfcee_fw.Trf.{Hal, Config, Chip, bytes_of}
use nfcee_fw.Trf.Registers.{irq_status, irq_tx}
use nfcee_fw.Trf.Spi.{register_read1, acquire_bus}
use nfcee_fw.Trf.Fifo.{transmit, transmit_header, total_bits}
use nfcee_fw.Trf.Fifo.Wire.{payload, AllHold}
use nfcee_fw.Trf.Initiator.{
  Sending, after_transmit, Wait, status, wait_irq, refill, send_on, send_loop, receive_loop,
  then_receive, exchange_frames, initiator_transceive,
}
use nfcee_fw.Trf.Contract.{Signal, Seen, Contract}
use nfcee_fw.Trf.Exchange.Reads.{read_irq-seen, acquire_bus-seen, release_bus-seen}
use nfcee_fw.Trf.Exchange.Sends.{HasSentAll, transmit-HasSentAll, after_transmit-returns}
use nfcee_fw.Trf.Exchange.Receives.{
  answer_signals, joined, AllFit, wait_irq-seen, HasStored, receive_loop-stores,
}

abbrev pub tx_over : Signal
tx_over = record { irq = irq_tx; arrived = [] }

-- What an exchange is to leave: the message behind its header on the bus, the first `room` bytes of the
-- answer with their number as the result, and the interrupts that come later.
abbrev pub IsTransferred : Seen → List Iovec → ℕ → List ℕ → List Signal → Reply → Seen → Type 0
IsTransferred before tx room answer rest r after =
    (r ≡ record { ret = done (length (take room answer)); stored = take room answer })
    × (after ≡ record {
      sent = before.sent ++ transmit_header (total_bits tx) false ++ payload tx;
      irq = 0;
      held = [];
      signals = rest;
    })

-- The message behind its header has been sent.
abbrev with_message : Seen → List Iovec → Seen
with_message v tx = record v {
  sent = v.sent ++ transmit_header (total_bits tx) false ++ payload tx;
}

some_parts_of : (tx : List Iovec) → 0 < total_bits tx → (length tx == 0) ≡ false
unfolding total_bits
some_parts_of [] h = absurd (omega arith)
some_parts_of (v ∷ vs) h = ground arith

module _ {W : Type 0} (hal : Hal W) (cfg : Config) (chip : Contract hal (2 ^ cfg.event)) where
  open chip use {seen, on_flags}

  send_on-over :
      (P : Option Ret × W → Type 0) (again : Sending → W → Run (Option Ret × W)) (txlen : ℕ)
      (s : Sending) (r : Wait × W)
      → r.0 ≡ status irq_tx
      → P (none, r.1)
      → Must P (send_on hal cfg again txlen s r)
  unfolding refill
  send_on-over P again txlen s r e h =
      subst (λ x. Must P (send_on hal cfg again txlen s (x, r.1))) (sym e) h

  -- The first loop ends with the chip's report that the message is out.
  send_loop-over :
      (fuel txlen : ℕ) (s : Sending) (w : W) (ss : List Signal)
      → 0 < fuel
      → (seen w).held ≡ []
      → (seen w).signals ≡ tx_over ∷ ss
      → Must
          (λ (r, v). (r ≡ none) × (seen v ≡ record (seen w) { irq = 0; held = []; signals = ss }))
          (send_loop hal cfg fuel txlen s w)
  unfolding send_loop
  send_loop-over zero txlen s w ss more empty e = absurd (omega arith)
  send_loop-over (suc fuel) txlen s w ss more empty e =
      let (number, now) = wait_irq-seen hal cfg chip none w tx_over ss e in
      send_on-over _ (λ s' w'. send_loop hal cfg fuel txlen s' w') txlen s (wait_irq hal cfg none w)
        number
        (refl, now ∙ ap (λ l. record (seen w) { irq = 0; held = l ++ []; signals = ss }) empty)

  module _ (pieces : List (List ℕ)) (last : List ℕ) (rest : List Signal) (fuel timeout : ℕ) where
    then_receive-stores :
        (room : ℕ) (r : Option Ret × W)
        → length pieces + 1 ≤ fuel
        → AllFit pieces last
        → r.0 ≡ none
        → (seen r.1).held ≡ []
        → (seen r.1).signals ≡ answer_signals pieces last rest
        → Must
            (HasStored hal cfg chip room (joined pieces last) rest (seen r.1))
            (then_receive hal cfg fuel room timeout r)
    unfolding then_receive
    then_receive-stores room r enough fits e empty signals =
        subst
          (λ x.
            Must (HasStored hal cfg chip room (joined pieces last) rest (seen r.1))
              (then_receive hal cfg fuel room timeout (x, r.1)))
          (sym e)
          (subst
            (λ o.
              Must (HasStored hal cfg chip room (joined pieces last) rest (seen r.1))
                (receive_loop hal cfg fuel room timeout o r.1))
            (take-of_le room [] (omega arith))
            (receive_loop-stores hal cfg chip pieces last [] rest fuel room timeout r.1 enough fits
              empty signals))

    -- From the end of the transmission on.
    loops-store :
        (room txlen : ℕ) (s : Sending) (w : W)
        → length pieces + 1 ≤ fuel
        → AllFit pieces last
        → (seen w).held ≡ []
        → (seen w).signals ≡ tx_over ∷ answer_signals pieces last rest
        → Must
            (HasStored hal cfg chip room (joined pieces last) rest (seen w))
            (send_loop hal cfg fuel txlen s w >>= then_receive hal cfg fuel room timeout)
    loops-store room txlen s w enough fits empty signals =
        let ss = answer_signals pieces last rest in
        Must->>=
          (λ ((r, v) : Option Ret × W).
            (r ≡ none) × (seen v ≡ record (seen w) { irq = 0; held = []; signals = ss }))
          (HasStored hal cfg chip room (joined pieces last) rest (seen w))
          (send_loop hal cfg fuel txlen s w) (then_receive hal cfg fuel room timeout)
          (send_loop-over fuel txlen s w ss (omega arith) empty signals)
          (λ r (none_yet, ready).
            Must-map (HasStored hal cfg chip room (joined pieces last) rest (seen r.1)) _
              (then_receive hal cfg fuel room timeout r)
              (λ (reply, v) (stored, left). (
                stored,
                left ∙ ap (λ (v : Seen). record v { irq = 0; held = []; signals = rest }) ready,
              ))
              (then_receive-stores room r enough fits none_yet (ap (λ (v : Seen). v.held) ready)
                (ap (λ (v : Seen). v.signals) ready)))

    exchange_frames-transfers :
        (tx : List Iovec) (rx_bits : ℕ) (w : W)
        → length pieces + 1 ≤ fuel
        → 0 < total_bits tx
        → AllHold tx
        → length (payload tx) ≤ 127
        → AllFit pieces last
        → (seen w).held ≡ []
        → (seen w).signals ≡ tx_over ∷ answer_signals pieces last rest
        → Must
            (λ (r, v).
              IsTransferred (seen w) tx (bytes_of rx_bits) (joined pieces last) rest r (seen v))
            (exchange_frames hal cfg fuel tx rx_bits timeout w)
    unfolding exchange_frames
    exchange_frames-transfers tx rx_bits w enough some_bits hold short fits empty signals =
        let w1 = (register_read1 hal irq_status w).1 in
        let w2 = (hal.get_flags w1).1 in
        let cleared : seen w2 ≡ record (seen w) { irq = 0 } =
          (on_flags w1).1 ∙ (read_irq-seen hal chip w).1 in
        Must->>= (HasSentAll hal chip (seen w2) tx) _ (transmit hal tx (length tx) false w2) _
          (transmit-HasSentAll hal chip tx w2 some_bits hold short)
          (λ (s, w3) (has_sent, sent).
            let out : seen w3 ≡ with_message (record (seen w) { irq = 0 }) tx =
              sent ∙ ap (λ (v : Seen). with_message v tx) cleared in
            Must->>= (λ r. Unit) _ (after_transmit s) _
              (after_transmit-returns s s.sent s.parts refl refl has_sent)
              (λ (sending, txlen) u.
                Must-map
                  (HasStored hal cfg chip (bytes_of rx_bits) (joined pieces last) rest (seen w3)) _
                  (send_loop hal cfg fuel txlen sending w3
                    >>= then_receive hal cfg fuel (bytes_of rx_bits) timeout)
                  (λ (reply, v) (stored, left). (
                    stored,
                    left ∙ ap (λ (v : Seen). record v { irq = 0; held = []; signals = rest }) out,
                  ))
                  (loops-store (bytes_of rx_bits) txlen sending w3 enough fits
                    (ap (λ (v : Seen). v.held) out ∙ empty)
                    (ap (λ (v : Seen). v.signals) out ∙ signals))))

-- With a chip and an operating system that keep their contract, for a message of at least one bit and
-- at most 127 bytes whose parts point to as many bytes as they announce, and an answer that comes in
-- any number of pieces of at most 127 bytes, each behind its interrupt and the last with the end of the
-- answer, to an empty FIFO and without error: for any fuel above the number of pieces
-- `trf797x_initiator_transceive` returns; it has sent exactly the header and the message, has stored
-- the first bytes of the answer, as many as the receive buffer has room for, returns their number, and
-- leaves the FIFO empty and all later interrupts to come.
pub initiator_transceive-transfers :
    {W : Type 0} (hal : Hal W) (cfg : Config) (contract : Contract hal (2 ^ cfg.event))
    (pieces : List (List ℕ)) (last : List ℕ) (rest : List Signal) (fuel : ℕ) (chip : Chip)
    (tx : List Iovec) (rx_bits timeout : ℕ) (w : W)
    → chip.config ≡ some cfg
    → length pieces + 1 ≤ fuel
    → 0 < total_bits tx
    → AllHold tx
    → length (payload tx) ≤ 127
    → AllFit pieces last
    → (contract.seen w).held ≡ []
    → (contract.seen w).signals ≡ tx_over ∷ answer_signals pieces last rest
    → Must
        (λ (r, v).
          IsTransferred
            (contract.seen w)
            tx
            (bytes_of rx_bits)
            (joined pieces last)
            rest
            r
            (contract.seen v))
        (initiator_transceive hal fuel chip tx rx_bits timeout w)
unfolding initiator_transceive
initiator_transceive-transfers hal cfg contract pieces last rest fuel chip tx rx_bits timeout w e
      enough some_bits hold short fits empty signals =
    let some_parts : (length tx == 0) ≡ false = some_parts_of tx some_bits in
    let same = acquire_bus-seen hal contract w in
    rw some_parts (
      rw e (
        Must->>=
          (λ (r, v).
            IsTransferred (contract.seen (acquire_bus hal w)) tx (bytes_of rx_bits)
              (joined pieces last) rest r (contract.seen v))
          _ (exchange_frames hal cfg fuel tx rx_bits timeout (acquire_bus hal w)) _
          (exchange_frames-transfers hal cfg contract pieces last rest fuel timeout tx rx_bits
            (acquire_bus hal w) enough some_bits hold short fits
            (ap (λ (v : Seen). v.held) same ∙ empty) (ap (λ (v : Seen). v.signals) same ∙ signals))
          (λ (reply, v) (stored, left). (
            stored,
            release_bus-seen hal contract v
                ∙ left
                ∙ ap
                    (λ (v : Seen). record (with_message v tx) {
                      irq = 0;
                      held = [];
                      signals = rest;
                    })
                    same,
          ))))
