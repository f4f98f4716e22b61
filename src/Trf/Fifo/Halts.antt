-- ===== src/Trf/Fifo/Halts.antt =====
-- `trf797x_transmit` comes to its end, and signals no interrupts of its own.
use nfcee_fw.Base.{
  ℕ, zero, suc, ◌+◌, ◌-◌, ◌≤◌, ◌<◌, inl, inr, min, true, false, Bool, Option, none, some, ◌≡◌, refl,
  arith, List, [], ◌∷◌, ltb, leb, length, take, Bool-cases, take-of_le,
}
use nfcee_fw.Run.{◌>>=◌, Halts, Halts->>=}
use nfcee_fw.Nfc.{Iovec}
use nfcee_fw.Trf.{Hal, bytes_of}
use nfcee_fw.Trf.Registers.{fifo_size}
use nfcee_fw.Trf.Fifo.{
  Filling, total_bits, send_bytes, fill_round, fill_step, fill_loop, transmit, goes_on,
  transmit_header,
}
use nfcee_fw.Trf.Fifo.Rounds.{filling, no_parts, fill_loop-stops, fill_round-fits, fill_round-ends}
use nfcee_fw.Trf.Pending.{Pending, toggle-le, AtMost}

module _ {W : Type 0} (hal : Hal W) (p : Pending hal) where
  open p use {pending, on_wait, on_flags, on_send}

  fill_loop-next :
      (v : Iovec) (vs : List Iovec) (fuel used : ℕ) (last : Option ℕ) (w : W)
      → goes_on (filling (v ∷ vs) used last) ≡ true
      → fill_loop hal (suc fuel) (filling (v ∷ vs) used last) w ≡ (
          send_bytes hal (min (bytes_of v.bits) (fifo_size - used)) v.base w >>= λ w1.
          fill_loop hal fuel (fill_round v vs (filling (v ∷ vs) used last)) w1)
  unfolding fill_loop fill_step
  fill_loop-next v vs fuel used last w go = rw go refl

  send_bytes-Halts :
      (k n : ℕ) (bytes : List ℕ) (w : W)
      → pending w ≤ n
      → Halts (λ w1. pending w1 ≤ n) (send_bytes hal k bytes w)
  unfolding send_bytes
  send_bytes-Halts k n bytes w h = elim (Bool-cases (ltb (length bytes) k)) [
    | inl e ↦ rw e tt
    | inr e ↦ rw e (omega (arith, on_send (take k bytes) w))
  ]

  stopped-Halts :
      (fuel n : ℕ) (s : Filling) (w : W)
      → 0 < fuel
      → goes_on s ≡ false
      → pending w ≤ n
      → Halts (AtMost hal p n) (fill_loop hal fuel s w)
  stopped-Halts fuel n s w more stop h = rw (fill_loop-stops hal fuel s w more stop) h

  -- A round, with what is left of the loop after it.
  round-Halts :
      (v : Iovec) (vs : List Iovec) (fuel used n : ℕ) (last : Option ℕ) (w : W)
      → pending w ≤ n
      → ((w1 : W)
          → pending w1 ≤ n
          → Halts
              (AtMost hal p n)
              (fill_loop hal fuel (fill_round v vs (filling (v ∷ vs) used last)) w1))
      → Halts (AtMost hal p n) (fill_loop hal (suc fuel) (filling (v ∷ vs) used last) w)
  round-Halts v vs fuel used n last w h next =
      elim (Bool-cases (goes_on (filling (v ∷ vs) used last))) [
        | inr stop ↦ stopped-Halts (suc fuel) n (filling (v ∷ vs) used last) w (omega arith) stop h
        | inl go ↦ rw (fill_loop-next v vs fuel used last w go) (
            Halts->>= (λ w1. pending w1 ≤ n) (AtMost hal p n) _ _
              (send_bytes-Halts (min (bytes_of v.bits) (fifo_size - used)) n v.base w h) next)
      ]

  -- The loop of `trf797x_transmit` has fuel for all parts and one round more.
  fill_loop-Halts :
      (vs : List Iovec) (fuel used n : ℕ) (last : Option ℕ) (w : W)
      → length vs + 1 ≤ fuel
      → used ≤ fifo_size
      → pending w ≤ n
      → Halts (AtMost hal p n) (fill_loop hal fuel (filling vs used last) w)
  fill_loop-Halts vs zero used n last w enough room h = absurd (omega arith)
  fill_loop-Halts [] (suc fuel) used n last w enough room h =
      stopped-Halts (suc fuel) n (filling [] used last) w (omega arith) (no_parts used last) h
  fill_loop-Halts (v ∷ []) (suc fuel) used n last w enough room h =
      round-Halts v [] fuel used n last w h (λ w1 h1.
        stopped-Halts fuel n (fill_round v [] (filling (v ∷ []) used last)) w1 (omega arith)
          (fill_round-ends v [] used last room (inr refl)) h1)
  fill_loop-Halts (v ∷ u ∷ us) (suc fuel) used n last w enough room h =
      round-Halts v (u ∷ us) fuel used n last w h (λ w1 h1.
        elim (Bool-cases (leb (bytes_of v.bits) (fifo_size - used))) [
          | inl fits ↦ rw (fill_round-fits v u us used last (ground arith)) (
              fill_loop-Halts (u ∷ us) fuel (used + bytes_of v.bits) n (some (bytes_of v.bits)) w1
                (omega arith) (ground arith) h1)
          | inr full ↦
              stopped-Halts fuel n (fill_round v (u ∷ us) (filling (v ∷ u ∷ us) used last)) w1
                (omega arith) (fill_round-ends v (u ∷ us) used last room (inl (ground arith))) h1
        ])

  pub transmit-Halts :
      (tx : List Iovec) (crc : Bool) (n : ℕ) (w : W)
      → pending w ≤ n
      → Halts (AtMost hal p n) (transmit hal tx (length tx) crc w)
  unfolding transmit
  transmit-Halts tx crc n w h = rw (take-of_le (length tx) tx (omega arith)) (
      Halts->>= (AtMost hal p n) (AtMost hal p n) _ _
        (fill_loop-Halts tx (length tx + 2) 0 n none
          (hal.send (transmit_header (total_bits tx) crc) w) (omega arith) (omega arith)
          (omega (arith, on_send (transmit_header (total_bits tx) crc) w)))
        (λ (s, w1) h1. omega (arith, toggle-le hal p w1)))
