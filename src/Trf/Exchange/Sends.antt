-- ===== src/Trf/Exchange/Sends.antt =====
-- `trf797x_transmit` and the sending loop of `trf797x_initiator_transceive` with a chip that keeps its
-- contract.
use nfcee_fw.Base.{
  ℕ, zero, suc, ◌+◌, ◌-◌, ◌≤◌, ◌<◌, ◌≡◌, refl, sym, ap, ◌∙◌, ◌⊎◌, inl, inr, arith, true, false,
  Bool, Option, none, some, List, [], ◌∷◌, ◌++◌, ltb, ◌==◌, length, take, min, Bool-cases,
  take-of_le,
}
use nfcee_fw.Run.{Run, returns, Must, Must-Post, Must-map, Post, Post->>=}
use nfcee_fw.Nfc.{Iovec}
use nfcee_fw.Trf.{Hal, bytes_of}
use nfcee_fw.Trf.Registers.{fifo_size}
use nfcee_fw.Trf.Spi.{toggle_chip_select}
use nfcee_fw.Trf.Fifo.{
  Filling, advance, fill_round, fill_step, fill_loop, transmit, transmit_header, total_bits,
  goes_on, send_bytes,
}
use nfcee_fw.Trf.Fifo.Wire.{Wire, payload, AllHold}
use nfcee_fw.Trf.Fifo.Rounds.{filling}
use nfcee_fw.Trf.Fifo.Transmit.{transmit-sent}
use nfcee_fw.Trf.Initiator.{after_transmit}
use nfcee_fw.Trf.Contract.{Seen, Contract}
use nfcee_fw.Trf.Exchange.Reads.{toggle-seen}

-- `sent` has a value, and `*tx` points to a part.
abbrev IsSentFrom : Option ℕ → List Iovec → Type 0
IsSentFrom none vs = ⊥
IsSentFrom (some n) [] = ⊥
IsSentFrom (some n) (v ∷ vs) = Unit

abbrev HasSent : Filling → Type 0
HasSent s = IsSentFrom s.sent s.parts

-- `*len` counts the parts, until the last one is through.
abbrev Counts : Filling → Type 0
Counts s = (0 < length s.parts) × ((s.len ≡ length s.parts) ⊎ (s.len ≡ 0))

advance-Counts :
    (v : Iovec) (vs : List Iovec) (len : ℕ) (whole : Bool)
    → (len ≡ length (v ∷ vs)) ⊎ (len ≡ 0)
    → let a = advance (v ∷ vs) vs len whole in (0 < length a.0) × ((a.1 ≡ length a.0) ⊎ (a.1 ≡ 0))
advance-Counts v vs len false h = (omega arith, h)
advance-Counts v vs len true h = elim (Bool-cases (len - 1 == 0)) [
  | inl last ↦ rw last (omega arith, inr refl)
  | inr more ↦ elim h [
    | inl e ↦
        let some_left : 0 < length vs = ground arith in rw more (some_left, inl (omega (arith, e)))
    | inr e ↦ absurd (ground arith)
  ]
]

points_to_part : (n : ℕ) (vs : List Iovec) → 0 < length vs → IsSentFrom (some n) vs
points_to_part n [] h = absurd (omega arith)
points_to_part n (v ∷ vs) h = tt

-- A round from a state that counts its parts.
fill_round-Counts :
    (v : Iovec) (vs : List Iovec) (s : Filling)
    → (s.len ≡ length (v ∷ vs)) ⊎ (s.len ≡ 0)
    → Counts (fill_round v vs s) × HasSent (fill_round v vs s)
unfolding fill_round
fill_round-Counts v vs s counted =
    let next =
      advance-Counts v vs s.len (min (bytes_of v.bits) (fifo_size - s.fifo_used) == bytes_of v.bits)
        counted in
    (
      next,
      points_to_part (min (bytes_of v.bits) (fifo_size - s.fifo_used)) (fill_round v vs s).parts
          next.0,
    )

pub after_transmit-returns :
    (s : Filling) (sent : Option ℕ) (parts : List Iovec)
    → s.sent ≡ sent
    → s.parts ≡ parts
    → IsSentFrom sent parts
    → Must (λ r. Unit) (after_transmit s)
unfolding after_transmit
after_transmit-returns s none parts e f h = absurd h
after_transmit-returns s (some n) [] e f h = absurd h
after_transmit-returns s (some n) (v ∷ vs) e f h = rw e (rw f tt)

some_parts : (tx : List Iovec) → 0 < total_bits tx → 0 < length tx
unfolding total_bits
some_parts [] h = absurd (omega arith)
some_parts (v ∷ vs) h = omega arith

module _ {W : Type 0} (hal : Hal W) {mask : ℕ} (chip : Contract hal mask) where
  open chip use {seen, on_send, on_select, on_unselect, on_delay}

  -- Nothing but the bytes sent has changed.
  abbrev pub OnlySent : Seen → W → Type 0
  OnlySent before w = seen w ≡ record before { sent = (seen w).sent }

  OnlySent-send :
      (before : Seen) (bytes : List ℕ) (w : W)
      → OnlySent before w
      → OnlySent before (hal.send bytes w)
  OnlySent-send before bytes w h =
      let sent_now = on_send bytes w in
      sent_now
      ∙ ap (λ (s : Seen). record s { sent = (seen w).sent ++ bytes }) h
      ∙ ap (λ (s : Seen). record before { sent = s.sent }) (sym sent_now)

  -- What the rounds keep.
  abbrev Filled : Seen → Filling × W → Type 0
  Filled before (s, w) = HasSent s × OnlySent before w

  fill_step-Filled :
      (before : Seen) (again : Filling → W → Run (Filling × W)) (vs : List Iovec) (s : Filling)
      (w : W)
      → (0 < length vs) × ((s.len ≡ length vs) ⊎ (s.len ≡ 0))
      → OnlySent before w
      → ((s' : Filling) (w' : W)
          → Counts s'
          → HasSent s'
          → OnlySent before w'
          → Post (Filled before) (again s' w'))
      → Post (Filled before) (fill_step hal again vs s w)
  unfolding fill_step send_bytes
  fill_step-Filled before again [] s w counted only go = tt
  fill_step-Filled before again (v ∷ vs) s w (some_left, counted) only go =
      let n = min (bytes_of v.bits) (fifo_size - s.fifo_used) in
      let (counts, has_sent) = fill_round-Counts v vs s counted in
      elim (Bool-cases (ltb (length v.base) n)) [
        | inl e ↦ rw e tt
        | inr e ↦ rw e (
            go (fill_round v vs s) (hal.send (take n v.base) w) counts has_sent
              (OnlySent-send before (take n v.base) w only))
      ]

  fill_loop-Filled :
      (before : Seen) (fuel : ℕ) (s : Filling) (w : W)
      → Counts s
      → HasSent s ⊎ (goes_on s ≡ true)
      → OnlySent before w
      → Post (Filled before) (fill_loop hal fuel s w)
  unfolding fill_loop
  fill_loop-Filled before zero s w counts more only = tt
  fill_loop-Filled before (suc fuel) s w counts more only = elim (Bool-cases (goes_on s)) [
    | inl go ↦ rw go (
        fill_step-Filled before (λ s' w'. fill_loop hal fuel s' w') s.parts s w counts only
          (λ s' w' counts' sent' only'.
            fill_loop-Filled before fuel s' w' counts' (inl sent') only'))
    | inr stop ↦ rw stop (elim more [ inl h ↦ (h, only) | inr h ↦ absurd (ground arith) ])
  ]

  -- The chip has got the header and the message, and nothing else has changed.
  abbrev pub HasSentAll : Seen → List Iovec → Filling × W → Type 0
  HasSentAll before tx (s, w) =
      HasSent s
      × (seen w ≡ record before {
        sent = before.sent ++ transmit_header (total_bits tx) false ++ payload tx;
      })

  abbrev wire_of : Wire hal
  wire_of = record {
    sent = λ w. (seen w).sent;
    on_send = λ bytes w. ap (λ (s : Seen). s.sent) (on_send bytes w);
    on_select = λ w. ap (λ (s : Seen). s.sent) (on_select w);
    on_unselect = λ w. ap (λ (s : Seen). s.sent) (on_unselect w);
    on_delay = λ n w. ap (λ (s : Seen). s.sent) (on_delay n w);
  }

  transmit-Filled :
      (tx : List Iovec) (w : W)
      → 0 < total_bits tx
      → Post (Filled (seen w)) (transmit hal tx (length tx) false w)
  unfolding transmit
  transmit-Filled tx w some_bits = rw (take-of_le (length tx) tx (omega arith)) (
      Post->>= (Filled (seen w)) (Filled (seen w))
        (fill_loop hal (length tx + 2) (filling tx 0 none)
          (hal.send (transmit_header (total_bits tx) false) w))
        (λ (s, w1). returns (s, toggle_chip_select hal w1))
        (fill_loop-Filled (seen w) (length tx + 2) (filling tx 0 none)
          (hal.send (transmit_header (total_bits tx) false) w) (some_parts tx some_bits, inl refl)
          (inr (ground arith))
          (OnlySent-send (seen w) (transmit_header (total_bits tx) false) w refl))
        (λ (s, w1) (has_sent, only). (
          has_sent,
          toggle-seen hal chip w1
              ∙ only
              ∙ ap (λ (v : Seen). record (seen w) { sent = v.sent })
                  (sym (toggle-seen hal chip w1)),
        )))

  pub transmit-HasSentAll :
      (tx : List Iovec) (w : W)
      → 0 < total_bits tx
      → AllHold tx
      → length (payload tx) ≤ 127
      → Must (HasSentAll (seen w) tx) (transmit hal tx (length tx) false w)
  transmit-HasSentAll tx w some_bits hold short =
      Must-map _ (HasSentAll (seen w) tx) (transmit hal tx (length tx) false w)
        (λ (s, w') (sent, (has_sent, only)). (
          has_sent,
          only
              ∙ ap (λ l. record (seen w) { sent = l })
                  (sent
                    ∙ ap (λ l. (seen w).sent ++ transmit_header (total_bits tx) false ++ l)
                        (take-of_le 127 (payload tx) short)),
        ))
        (Must-Post _ (Filled (seen w)) (transmit hal tx (length tx) false w)
          (transmit-sent hal wire_of tx false w hold) (transmit-Filled tx w some_bits))
