-- ===== src/Trf/Fifo/Rounds.antt =====
-- The rounds of the loop of `trf797x_transmit`.
use nfcee_fw.Base.{
  ℕ, zero, suc, ◌+◌, ◌-◌, ◌≤◌, ◌<◌, ◌⊎◌, inl, inr, min, true, false, ◌&&◌, ◌≡◌, refl, arith, List,
  [], ◌∷◌, ltb, ◌==◌, length, take, Bool-cases, ==_refl, take-of_le, some, Option,
}
use nfcee_fw.Run.{returns}
use nfcee_fw.Nfc.{Iovec}
use nfcee_fw.Trf.{Hal, bytes_of}
use nfcee_fw.Trf.Registers.{fifo_size}
use nfcee_fw.Trf.Fifo.{total_bits, Filling, send_bytes, fill_round, fill_step, fill_loop, goes_on}
use nfcee_fw.Trf.Fifo.Wire.{payload, payload-empty}

pub fill_loop-stops :
    {W : Type 0} (hal : Hal W) (fuel : ℕ) (s : Filling) (w : W)
    → 0 < fuel
    → goes_on s ≡ false
    → fill_loop hal fuel s w ≡ returns (s, w)
unfolding fill_loop
fill_loop-stops hal zero s w more h = absurd (omega arith)
fill_loop-stops hal (suc fuel) s w more h = rw h refl

-- Where the loop stops there is nothing left to send, or no room.
pub nothing_left :
    (vs : List Iovec) (used : ℕ)
    → (ltb 0 (total_bits vs) && ltb used fifo_size) ≡ false
    → take (fifo_size - used) (payload vs) ≡ []
nothing_left vs used h = elim (Bool-cases (ltb 0 (total_bits vs))) [
  | inl some_bits ↦ let full : fifo_size - used ≡ 0 = ground arith in rw full refl
  | inr no_bits ↦
      let empty : total_bits vs ≡ 0 = ground arith in
      rw (payload-empty vs empty) (take-of_le (fifo_size - used) [] (omega arith))
]

abbrev pub filling : List Iovec → ℕ → Option ℕ → Filling
filling vs used last = record {
  parts = vs;
  len = length vs;
  bits = total_bits vs;
  fifo_used = used;
  sent = last;
}

-- A part that fits is followed by the next one.
pub fill_round-fits :
    (v u : Iovec) (us : List Iovec) (used : ℕ) (last : Option ℕ)
    → bytes_of v.bits ≤ fifo_size - used
    → fill_round v (u ∷ us) (filling (v ∷ u ∷ us) used last)
      ≡ filling (u ∷ us) (used + bytes_of v.bits) (some (bytes_of v.bits))
unfolding fill_round total_bits
fill_round-fits v u us used last fits =
    let whole : min (bytes_of v.bits) (fifo_size - used) ≡ bytes_of v.bits = omega arith in
    let others : v.bits + (u.bits + total_bits us) - v.bits ≡ u.bits + total_bits us =
      omega arith in
    let more : (suc (suc (length us)) - 1 == 0) ≡ false = ground arith in
    let fewer : suc (suc (length us)) - 1 ≡ suc (length us) = omega arith in
    rw whole (rw (==_refl (bytes_of v.bits)) (rw others (rw more (rw fewer refl))))

-- The last part, or one that fills the FIFO, ends the loop.
pub fill_round-ends :
    (v : Iovec) (vs : List Iovec) (used : ℕ) (last : Option ℕ)
    → used ≤ fifo_size
    → (fifo_size - used ≤ bytes_of v.bits) ⊎ (vs ≡ [])
    → goes_on (fill_round v vs (filling (v ∷ vs) used last)) ≡ false
unfolding fill_round total_bits
fill_round-ends v vs used last room h = elim h [
  | inl full ↦ ground arith
  | inr e ↦ rw e (ground arith)
]

pub fill_loop-round :
    {W : Type 0} (hal : Hal W) (v : Iovec) (vs : List Iovec) (fuel used : ℕ) (last : Option ℕ)
    (w : W)
    → goes_on (filling (v ∷ vs) used last) ≡ true
    → bytes_of v.bits ≤ length v.base
    → fill_loop hal (suc fuel) (filling (v ∷ vs) used last) w
      ≡ fill_loop hal fuel
          (fill_round v vs (filling (v ∷ vs) used last))
          (hal.send (take (min (bytes_of v.bits) (fifo_size - used)) v.base) w)
unfolding fill_loop fill_step send_bytes
fill_loop-round hal v vs fuel used last w go hold =
    let inside : ltb (length v.base) (min (bytes_of v.bits) (fifo_size - used)) ≡ false =
      ground arith in
    rw go (rw inside refl)

pub no_parts : (used : ℕ) (last : Option ℕ) → goes_on (filling [] used last) ≡ false
unfolding total_bits
no_parts used last = refl

pub only_part :
    (v : Iovec) (vs : List Iovec) (used : ℕ)
    → vs ≡ []
    → (fifo_size - used ≤ bytes_of v.bits) ⊎ ((bytes_of v.bits ≤ fifo_size - used) × (vs ≡ []))
only_part v vs used e = elim (Bool-cases (ltb (bytes_of v.bits) (fifo_size - used))) [
  | inl fits ↦ inr (ground arith, e)
  | inr full ↦ inl (ground arith)
]
