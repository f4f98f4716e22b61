-- ===== src/Trf/Fifo/Transmit.antt =====
-- What `trf797x_transmit` puts on the SPI bus.
use mathlib.Core.Path.{subst}
use nfcee_fw.Base.{
  ℕ, zero, suc, ◌+◌, ◌-◌, ◌≤◌, ◌<◌, ◌⊎◌, inl, inr, min, Bool, ◌≡◌, refl, sym, ap, ◌∙◌, arith, List,
  [], ◌∷◌, ◌++◌, leb, length, take, Bool-cases, append_assoc, append-nil, take-of_le, some, none,
  Option,
}
use nfcee_fw.Run.{returns, Must, Must->>=}
use nfcee_fw.Nfc.{Iovec}
use nfcee_fw.Trf.{Hal, bytes_of}
use nfcee_fw.Trf.Registers.{fifo_size}
use nfcee_fw.Trf.Spi.{toggle_chip_select}
use nfcee_fw.Trf.Fifo.{
  total_bits, transmit_header, Filling, fill_round, fill_loop, transmit, goes_on,
}
use nfcee_fw.Trf.Fifo.Rounds.{
  filling, nothing_left, no_parts, only_part, fill_loop-stops, fill_loop-round, fill_round-fits,
  fill_round-ends,
}
use nfcee_fw.Trf.Fifo.Wire.{Wire, payload, AllHold, round-last, round-whole}

module _ {W : Type 0} (hal : Hal W) (wire : Wire hal) where
  -- What the loop has to add to the wire: what there is room for.
  abbrev Fills : List ℕ → Filling → W → Filling × W → Type 0
  Fills before s w (s', w') =
      (wire.sent w' ≡ before ++ take (fifo_size - s.fifo_used) (payload s.parts))

  toggle_chip_select-sent : (w : W) → wire.sent (toggle_chip_select hal w) ≡ wire.sent w
  unfolding toggle_chip_select
  toggle_chip_select-sent w = simp (wire.on_delay, wire.on_select, wire.on_unselect)

  -- The last round of the loop.
  fill_loop-last :
      (v : Iovec) (vs : List Iovec) (fuel used : ℕ) (last : Option ℕ) (w : W)
      → 0 < fuel
      → used ≤ fifo_size
      → bytes_of v.bits ≤ length v.base
      → (fifo_size - used ≤ bytes_of v.bits) ⊎ ((bytes_of v.bits ≤ fifo_size - used) × (vs ≡ []))
      → Must (Fills (wire.sent w) (filling (v ∷ vs) used last) w) (
          fill_loop hal fuel
            (fill_round v vs (filling (v ∷ vs) used last))
            (hal.send (take (min (bytes_of v.bits) (fifo_size - used)) v.base) w))
  fill_loop-last v vs fuel used last w more room hold h =
      rw
        (fill_loop-stops hal fuel (fill_round v vs (filling (v ∷ vs) used last))
          (hal.send (take (min (bytes_of v.bits) (fifo_size - used)) v.base) w) more
          (fill_round-ends v vs used last room (elim h [ inl a ↦ inl a | inr b ↦ inr b.1 ])))
        (wire.on_send (take (min (bytes_of v.bits) (fifo_size - used)) v.base) w
          ∙ ap (λ l. wire.sent w ++ l) (sym (round-last v vs (fifo_size - used) hold h)))

  fill_loop-sent :
      (vs : List Iovec) (fuel used : ℕ) (last : Option ℕ) (w : W)
      → length vs + 1 ≤ fuel
      → used ≤ fifo_size
      → AllHold vs
      → Must
          (Fills (wire.sent w) (filling vs used last) w)
          (fill_loop hal fuel (filling vs used last) w)
  fill_loop-sent vs zero used last w enough room hold = absurd (omega arith)
  fill_loop-sent [] (suc fuel) used last w enough room hold =
      rw
        (fill_loop-stops hal (suc fuel) (filling [] used last) w (omega arith) (no_parts used last))
        (rw (nothing_left [] used (no_parts used last)) (sym (append-nil (wire.sent w))))
  fill_loop-sent (v ∷ []) (suc fuel) used last w enough room hold =
      elim (Bool-cases (goes_on (filling (v ∷ []) used last))) [
        | inr stop ↦
            rw (fill_loop-stops hal (suc fuel) (filling (v ∷ []) used last) w (omega arith) stop)
              (rw (nothing_left (v ∷ []) used stop) (sym (append-nil (wire.sent w))))
        | inl go ↦ rw (fill_loop-round hal v [] fuel used last w go hold.0) (
            fill_loop-last v [] fuel used last w (omega arith) room hold.0
              (only_part v [] used refl))
      ]
  fill_loop-sent (v ∷ u ∷ us) (suc fuel) used last w enough room hold =
      elim (Bool-cases (goes_on (filling (v ∷ u ∷ us) used last))) [
        | inr stop ↦
            rw
              (fill_loop-stops hal (suc fuel) (filling (v ∷ u ∷ us) used last) w (omega arith) stop)
              (rw (nothing_left (v ∷ u ∷ us) used stop) (sym (append-nil (wire.sent w))))
        | inl go ↦
            rw (fill_loop-round hal v (u ∷ us) fuel used last w go hold.0)
              (elim (Bool-cases (leb (bytes_of v.bits) (fifo_size - used))) [
                | inr full ↦
                    fill_loop-last v (u ∷ us) fuel used last w (omega arith) room hold.0
                      (inl (ground arith))
                | inl fits ↦
                    let n = bytes_of v.bits in
                    let whole : min n (fifo_size - used) ≡ n = ground arith in
                    let left : fifo_size - (used + n) ≡ fifo_size - used - n = omega arith in
                    rw whole (
                      rw (fill_round-fits v u us used last (ground arith)) (
                        subst
                          (λ l.
                            Must (λ (s', w'). wire.sent w' ≡ l)
                              (fill_loop hal fuel (filling (u ∷ us) (used + n) (some n))
                                (hal.send (take n v.base) w)))
                          (rw left (
                            ap (λ l. l ++ take (fifo_size - used - n) (payload (u ∷ us)))
                              (wire.on_send (take n v.base) w)
                            ∙ append_assoc (wire.sent w) (take n v.base)
                                (take (fifo_size - used - n) (payload (u ∷ us)))
                            ∙ ap (λ l. wire.sent w ++ l)
                                (sym (
                                  round-whole v (u ∷ us) (fifo_size - used) hold.0
                                    (ground arith)))))
                          (fill_loop-sent (u ∷ us) fuel (used + n) (some n)
                            (hal.send (take n v.base) w) (omega arith) (ground arith) hold.1)))
              ])
      ]

pub transmit-sent :
    {W : Type 0} (hal : Hal W) (wire : Wire hal) (tx : List Iovec) (crc : Bool) (w : W)
    → AllHold tx
    → Must
        (λ (s, w').
          wire.sent w'
          ≡ wire.sent w ++ transmit_header (total_bits tx) crc ++ take 127 (payload tx))
        (transmit hal tx (length tx) crc w)
unfolding transmit
transmit-sent {W} hal wire tx crc w hold = rw (take-of_le (length tx) tx (omega arith)) (
    Must->>= (Fills hal wire (wire.sent start) (filling tx 0 none) start) _
      (fill_loop hal (length tx + 2) (filling tx 0 none) start)
      (λ (s, w1). returns (s, toggle_chip_select hal w1))
      (fill_loop-sent hal wire tx (length tx + 2) 0 none start (omega arith) (omega arith) hold)
      (λ (s, w1) filled.
        toggle_chip_select-sent hal wire w1
        ∙ filled
        ∙ ap (λ l. l ++ take 127 (payload tx)) (wire.on_send header w)))
  where
    header : List ℕ
    header = transmit_header (total_bits tx) crc

    start : W
    start = hal.send header w
