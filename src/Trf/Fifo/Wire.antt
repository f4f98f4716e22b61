-- ===== src/Trf/Fifo/Wire.antt =====
-- The bytes of a message in parts, and what is recorded of the SPI bus while they are sent.
use nfcee_fw.Base.{
  ℕ, zero, suc, ◌-◌, ◌≤◌, ◌⊎◌, inl, inr, min, ◌≡◌, refl, ap, ◌∙◌, arith, List, [], ◌∷◌, ◌++◌,
  length, take, append-nil, length-take, take-append, take-of_le,
}
use nfcee_fw.Nfc.{Iovec}
use nfcee_fw.Trf.{Hal, bytes_of}
use nfcee_fw.Trf.Fifo.{total_bits}

-- A record of the bytes that were sent on the bus. Only sending adds to it; moving the select line and
-- waiting do not.
pub record Wire {W : Type 0} (hal : Hal W) : Type 0 where
  pub sent : W → List ℕ
  pub on_send : (bytes : List ℕ) (w : W) → sent (hal.send bytes w) ≡ sent w ++ bytes
  pub on_select : (w : W) → sent (hal.select w) ≡ sent w
  pub on_unselect : (w : W) → sent (hal.unselect w) ≡ sent w
  pub on_delay : (n : ℕ) (w : W) → sent (hal.delay_ns n w) ≡ sent w

-- The bytes of a message in parts.
abbrev pub payload : List Iovec → List ℕ
payload [] = []
payload (v ∷ vs) = take (bytes_of v.bits) v.base ++ payload vs

-- Each part points to as many bytes as it announces.
abbrev pub AllHold : List Iovec → Type 0
AllHold [] = Unit
AllHold (v ∷ vs) = (bytes_of v.bits ≤ length v.base) × AllHold vs

pub payload-empty : (vs : List Iovec) → total_bits vs ≡ 0 → payload vs ≡ []
unfolding total_bits
payload-empty [] h = refl
payload-empty (v ∷ vs) h =
    let none_here : bytes_of v.bits ≡ 0 = omega (arith, h) in
    rw none_here (payload-empty vs (omega (arith, h)))

take-take : (n m : ℕ) (xs : List ℕ) → n ≤ m → take n (take m xs) ≡ take n xs
take-take zero m xs h = refl
take-take (suc n) zero xs h = absurd (omega arith)
take-take (suc n) (suc m) [] h = refl
take-take (suc n) (suc m) (x ∷ xs) h = ap (λ t. x ∷ t) (take-take n m xs (omega arith))

-- What a round sends: the last bytes that there is room for, or a whole part with others behind it.
pub round-last :
    (v : Iovec) (vs : List Iovec) (room : ℕ)
    → bytes_of v.bits ≤ length v.base
    → (room ≤ bytes_of v.bits) ⊎ ((bytes_of v.bits ≤ room) × (vs ≡ []))
    → take room (payload (v ∷ vs)) ≡ take (min (bytes_of v.bits) room) v.base
round-last v vs room hold (inl full) =
    let here : length (take (bytes_of v.bits) v.base) ≡ bytes_of v.bits =
      omega (arith, length-take (bytes_of v.bits) v.base) in
    let nothing : room - bytes_of v.bits ≡ 0 = omega arith in
    let sent : min (bytes_of v.bits) room ≡ room = omega arith in
    rw sent (
      take-append room (take (bytes_of v.bits) v.base) (payload vs)
      ∙ rw here (rw nothing (append-nil _ ∙ take-take room (bytes_of v.bits) v.base full)))
round-last v vs room hold (inr (fits, e)) =
    let here : length (take (bytes_of v.bits) v.base) ≡ bytes_of v.bits =
      omega (arith, length-take (bytes_of v.bits) v.base) in
    let sent : min (bytes_of v.bits) room ≡ bytes_of v.bits = omega arith in
    rw e (
      rw sent (
        rw (append-nil (take (bytes_of v.bits) v.base))
          (take-of_le room (take (bytes_of v.bits) v.base) (omega (arith, here, fits)))))

pub round-whole :
    (v : Iovec) (vs : List Iovec) (room : ℕ)
    → bytes_of v.bits ≤ length v.base
    → bytes_of v.bits ≤ room
    → take room (payload (v ∷ vs))
      ≡ take (bytes_of v.bits) v.base ++ take (room - bytes_of v.bits) (payload vs)
round-whole v vs room hold fits =
    let here : length (take (bytes_of v.bits) v.base) ≡ bytes_of v.bits =
      omega (arith, length-take (bytes_of v.bits) v.base) in
    take-append room (take (bytes_of v.bits) v.base) (payload vs)
    ∙ rw here
        (rw (take-of_le room (take (bytes_of v.bits) v.base) (omega (arith, here, fits))) refl)
