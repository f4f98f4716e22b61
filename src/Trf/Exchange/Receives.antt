-- ===== src/Trf/Exchange/Receives.antt =====
-- The receiving loop of `trf797x_initiator_transceive` with a chip that keeps its contract.
use mathlib.Core.Path.{subst}
use nfcee_fw.Base.{
  ℕ, zero, suc, ◌+◌, ◌-◌, ◌^◌, ◌≤◌, ◌≡◌, refl, sym, ap, ◌∙◌, arith, false, Option, some, List, [],
  ◌∷◌, ◌++◌, bit_and, bit_or, ◌==◌, length, take, append_assoc, take-append, length-take,
}
use nfcee_fw.Run.{Run, Must, Must-map}
use nfcee_fw.Nfc.{done, Reply}
use nfcee_fw.Trf.{Hal, Config}
use nfcee_fw.Trf.Registers.{irq_fifo, irq_srx, fifo_size}
use nfcee_fw.Trf.Initiator.{Wait, status, wait_irq, collect, receive_on, receive_loop}
use nfcee_fw.Trf.Contract.{Signal, Seen, Contract}
use nfcee_fw.Trf.Exchange.Reads.{read_irq-seen, fifo_drain-seen}

-- The FIFO fills up while an answer comes in: an interrupt for each of the pieces, and one for its end.
abbrev pub answer_signals : List (List ℕ) → List ℕ → List Signal → List Signal
answer_signals [] last rest = record { irq = irq_srx; arrived = last } ∷ rest
answer_signals (piece ∷ pieces) last rest =
    record { irq = irq_fifo; arrived = piece } ∷ answer_signals pieces last rest

-- The whole answer.
abbrev pub joined : List (List ℕ) → List ℕ → List ℕ
joined [] last = last
joined (piece ∷ pieces) last = piece ++ joined pieces last

-- No piece is longer than the FIFO.
abbrev pub AllFit : List (List ℕ) → List ℕ → Type 0
AllFit [] last = length last ≤ fifo_size
AllFit (piece ∷ pieces) last = (length piece ≤ fifo_size) × AllFit pieces last

module _ {W : Type 0} (hal : Hal W) (cfg : Config) (chip : Contract hal (2 ^ cfg.event)) where
  open chip use {seen, on_wait, on_flags}

  -- The wait for the next interrupt, whose status is read and cleared.
  pub wait_irq-seen :
      (timeout : Option ℕ) (w : W) (s : Signal) (ss : List Signal)
      → (seen w).signals ≡ s ∷ ss
      → ((wait_irq hal cfg timeout w).0 ≡ status s.irq)
        × (seen (wait_irq hal cfg timeout w).1
            ≡ record (seen w) { irq = 0; held = (seen w).held ++ s.arrived; signals = ss })
  unfolding wait_irq
  wait_irq-seen timeout w s ss e =
      let (came, arrived) = on_wait timeout w s ss e in
      let w1 = (hal.wait_event (2 ^ cfg.event) timeout w).1 in
      let (no_stop, kept) = on_flags w1 in
      let w2 = (hal.get_flags w1).1 in
      let (number, cleared) = read_irq-seen hal chip w2 in
      rw came (
        rw no_stop (
          ap status (number ∙ ap (λ (v : Seen). v.irq) (kept ∙ arrived)),
          cleared ∙ ap (λ (v : Seen). record v { irq = 0 }) (kept ∙ arrived),
        ))

  -- What an interrupt brings is stored behind what came before, as far as there is room.
  collect-seen :
      (irq room : ℕ) (out : List ℕ) (w : W)
      → (bit_and irq (bit_or irq_fifo irq_srx) == 0) ≡ false
      → length (seen w).held ≤ fifo_size
      → ((collect hal cfg irq room out w).0 ≡ out ++ take (room - length out) (seen w).held)
        × (seen (collect hal cfg irq room out w).1 ≡ record (seen w) { held = [] })
  unfolding collect
  collect-seen irq room out w bits h =
      let (bytes, after) = fifo_drain-seen hal chip (room - length out) w h in
      rw bits (ap (λ l. out ++ l) bytes, after)

  -- The chip at the next interrupt, when its FIFO was empty.
  next_signal :
      (timeout : Option ℕ) (w : W) (s : Signal) (ss : List Signal)
      → (seen w).held ≡ []
      → (seen w).signals ≡ s ∷ ss
      → seen (wait_irq hal cfg timeout w).1
        ≡ record (seen w) { irq = 0; held = s.arrived; signals = ss }
  next_signal timeout w s ss empty e =
      (wait_irq-seen timeout w s ss e).1
      ∙ ap (λ l. record (seen w) { irq = 0; held = l ++ s.arrived; signals = ss }) empty

  -- Of all that has come in the first `room` bytes are stored.
  stored_so_far :
      (room : ℕ) (before piece : List ℕ)
      → take room before ++ take (room - length (take room before)) piece
        ≡ take room (before ++ piece)
  stored_so_far room before piece =
      let same : room - length (take room before) ≡ room - length before =
        omega (arith, length-take room before) in
      rw same (sym (take-append room before piece))

  -- The state after an interrupt was served.
  served :
      (timeout : Option ℕ) (irq room : ℕ) (before piece : List ℕ) (ss : List Signal) (w : W)
      → (bit_and irq (bit_or irq_fifo irq_srx) == 0) ≡ false
      → length piece ≤ fifo_size
      → (seen w).held ≡ []
      → (seen w).signals ≡ record { irq = irq; arrived = piece } ∷ ss
      → let v = (wait_irq hal cfg timeout w).1 in
        ((collect hal cfg irq room (take room before) v).0 ≡ take room (before ++ piece))
        × (seen (collect hal cfg irq room (take room before) v).1
            ≡ record (seen w) { irq = 0; held = []; signals = ss })
  served timeout irq room before piece ss w bits fits empty e =
      let v = (wait_irq hal cfg timeout w).1 in
      let now = next_signal timeout w (record { irq = irq; arrived = piece }) ss empty e in
      let (bytes, after) = collect-seen irq room (take room before) v bits (rw now fits) in
      (
        bytes
            ∙ ap (λ (s : Seen). take room before ++ take (room - length (take room before)) s.held)
                now
            ∙ stored_so_far room before piece,
        after ∙ ap (λ (s : Seen). record s { held = [] }) now,
      )

  -- The first `room` bytes of the answer are stored and counted, and nothing is left in the FIFO.
  abbrev pub HasStored : ℕ → List ℕ → List Signal → Seen → Reply × W → Type 0
  HasStored room answer rest before (r, v) =
      (r ≡ record { ret = done (length (take room answer)); stored = take room answer })
      × (seen v ≡ record before { irq = 0; held = []; signals = rest })

  -- A wait that has ended with an interrupt.
  receive_on-status :
      (P : Reply × W → Type 0) (again : List ℕ → W → Run (Reply × W)) (room : ℕ) (out : List ℕ)
      (r : Wait × W) (irq : ℕ)
      → r.0 ≡ status irq
      → Must P (receive_on hal cfg again room out (status irq, r.1))
      → Must P (receive_on hal cfg again room out r)
  receive_on-status P again room out r irq e h =
      subst (λ x. Must P (receive_on hal cfg again room out (x, r.1))) (sym e) h

  pub receive_loop-stores :
      (pieces : List (List ℕ)) (last before : List ℕ) (rest : List Signal) (fuel room timeout : ℕ)
      (w : W)
      → length pieces + 1 ≤ fuel
      → AllFit pieces last
      → (seen w).held ≡ []
      → (seen w).signals ≡ answer_signals pieces last rest
      → Must
          (HasStored room (before ++ joined pieces last) rest (seen w))
          (receive_loop hal cfg fuel room timeout (take room before) w)
  unfolding receive_loop
  receive_loop-stores pieces last before rest zero room timeout w enough fits empty e =
      absurd (omega arith)
  receive_loop-stores [] last before rest (suc fuel) room timeout w enough fits empty e =
      let (bytes, after) =
        served (some timeout) irq_srx room before last rest w refl fits empty e in
      receive_on-status (HasStored room (before ++ last) rest (seen w))
        (λ o v. receive_loop hal cfg fuel room timeout o v) room (take room before)
        (wait_irq hal cfg (some timeout) w) irq_srx
        (wait_irq-seen (some timeout) w (record { irq = irq_srx; arrived = last }) rest e).0
        (ap (λ (l : List ℕ). record { ret = done (length l); stored = l }) bytes, after)
  receive_loop-stores (piece ∷ pieces) last before rest (suc fuel) room timeout w enough fits empty
        e =
      let ss = answer_signals pieces last rest in
      let (bytes, after) =
        served (some timeout) irq_fifo room before piece ss w refl fits.0 empty e in
      let v = (wait_irq hal cfg (some timeout) w).1 in
      let v' = (collect hal cfg irq_fifo room (take room before) v).1 in
      receive_on-status (HasStored room (before ++ (piece ++ joined pieces last)) rest (seen w))
        (λ o u. receive_loop hal cfg fuel room timeout o u) room (take room before)
        (wait_irq hal cfg (some timeout) w) irq_fifo
        (wait_irq-seen (some timeout) w (record { irq = irq_fifo; arrived = piece }) ss e).0
        (subst
          (λ o.
            Must (HasStored room (before ++ (piece ++ joined pieces last)) rest (seen w))
              (receive_loop hal cfg fuel room timeout o v'))
          (sym bytes)
          (Must-map (HasStored room ((before ++ piece) ++ joined pieces last) rest (seen v'))
            (HasStored room (before ++ (piece ++ joined pieces last)) rest (seen w))
            (receive_loop hal cfg fuel room timeout (take room (before ++ piece)) v')
            (λ (r, u) (stored, left). (
              stored
                  ∙ ap
                      (λ (l : List ℕ). record {
                        ret = done (length (take room l));
                        stored = take room l;
                      })
                      (append_assoc before piece (joined pieces last)),
              left ∙ ap (λ (s : Seen). record s { irq = 0; held = []; signals = rest }) after,
            ))
            (receive_loop-stores pieces last (before ++ piece) rest fuel room timeout v'
              (omega arith) fits.1 (ap (λ (s : Seen). s.held) after)
              (ap (λ (s : Seen). s.signals) after))))
