-- ===== src/Board/SpiClock.antt =====
-- The divisor of the SPI clock that the preprocessor chooses in board/board.c.
use mathlib.Core.Path.{subst}
use nfcee_fw.Base.{
  ℕ, suc, ◌+◌, ◌*◌, ◌/◌, ◌^◌, ◌≤◌, ◌<◌, ◌≡◌, arith, Option, none, some, true, false, leb, ◌==◌,
  if◌then◌else◌, inl, inr, Bool-cases,
}
use nfcee_fw.Board.{
  Baud, no_bits, bit_0, bit_1, bits_1_0, bit_2, bits_2_0, bits_2_1, bits_2_1_0, baud_rate,
}

-- The three bits as the chip reads them: a number `n`, for a clock divided by 2 ^ (n + 1).
abbrev pub number : Baud → ℕ
number no_bits = 0
number bit_0 = 1
number bit_1 = 2
number bits_1_0 = 3
number bit_2 = 4
number bits_2_0 = 5
number bits_2_1 = 6
number bits_2_1_0 = 7

abbrev pub divided : ℕ → ℕ → ℕ
divided pclk n = pclk / 2 ^ (n + 1)

-- The fastest rate that the limit allows, or none where even the slowest is too fast.
abbrev pub IsFastest : ℕ → ℕ → Option Baud → Type 0
IsFastest pclk clock none = (n : ℕ) → n < 8 → clock < divided pclk n
IsFastest pclk clock (some baud) =
    (divided pclk (number baud) ≤ clock) × ((n : ℕ) → n < number baud → clock < divided pclk n)

module _ (pclk clock : ℕ) where
  abbrev IsTooFast : ℕ → Type 0
  IsTooFast k = (n : ℕ) → n < k → clock < divided pclk n

  IsTooFast-suc : (k : ℕ) → IsTooFast k → clock < divided pclk k → IsTooFast (suc k)
  IsTooFast-suc k before here n h = elim (Bool-cases (n == k)) [
    | inl e ↦ let same : n ≡ k = ground arith in rw same here
    | inr e ↦ before n (ground arith)
  ]

  -- One link of the chain, where all greater rates were too fast.
  link :
      (baud : Baud) (rest : Option Baud)
      → IsTooFast (number baud)
      → (IsTooFast (suc (number baud)) → IsFastest pclk clock rest)
      → IsFastest pclk clock (if leb (divided pclk (number baud)) clock then some baud else rest)
  link baud rest before after = elim (Bool-cases (leb (divided pclk (number baud)) clock)) [
    | inl e ↦ rw e (fits _ e, before)
    | inr e ↦ rw e (after (IsTooFast-suc (number baud) before (exceeds _ e)))
  ]
    where
      fits : (rate : ℕ) → leb rate clock ≡ true → rate ≤ clock
      fits rate e = ground arith

      exceeds : (rate : ℕ) → leb rate clock ≡ false → clock < rate
      exceeds rate e = ground arith

-- The preprocessor chooses the fastest rate that does not exceed the limit for the clock it is told of,
-- and gives up exactly where a division by 256 is not enough.
pub baud_rate-IsFastest : (pclk clock : ℕ) → IsFastest pclk clock (baud_rate pclk clock)
unfolding baud_rate
baud_rate-IsFastest pclk clock =
    link pclk clock no_bits _ (λ n h. absurd (omega arith))
      λ f1. link pclk clock bit_0 _ f1 λ f2. link pclk clock bit_1 _ f2 λ f3.
        link pclk clock bits_1_0 _ f3 λ f4. link pclk clock bit_2 _ f4 λ f5.
          link pclk clock bits_2_0 _ f5
            λ f6. link pclk clock bits_2_1 _ f6 λ f7. link pclk clock bits_2_1_0 _ f7 λ f8. f8

-- Where the bus of the block has twice the clock that the choice was made for, every choice but the
-- smallest divisor gives a rate above the limit.
pub baud_rate_exceeds :
    (pclk1 pclk2 clock : ℕ) (baud : Baud)
    → baud_rate pclk1 clock ≡ some baud
    → 0 < number baud
    → 2 * pclk1 ≤ pclk2
    → clock < divided pclk2 (number baud)
baud_rate_exceeds pclk1 pclk2 clock baud chosen h double =
    exceeds baud h ((subst (IsFastest pclk1 clock) chosen (baud_rate-IsFastest pclk1 clock)).1)
  where
    exceeds :
        (b : Baud)
        → 0 < number b
        → ((n : ℕ) → n < number b → clock < divided pclk1 n)
        → clock < divided pclk2 (number b)
    exceeds no_bits k f = absurd (omega arith)
    exceeds bit_0 k f = omega (arith, f 0 (omega arith))
    exceeds bit_1 k f = omega (arith, f 1 (omega arith))
    exceeds bits_1_0 k f = omega (arith, f 2 (omega arith))
    exceeds bit_2 k f = omega (arith, f 3 (omega arith))
    exceeds bits_2_0 k f = omega (arith, f 4 (omega arith))
    exceeds bits_2_1 k f = omega (arith, f 5 (omega arith))
    exceeds bits_2_1_0 k f = omega (arith, f 6 (omega arith))
