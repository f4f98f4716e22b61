-- ===== src/Bits/Testbit.antt =====
-- One binary digit of a number, and what the bit operations, shifts and casts do to each digit.
use Prim.Native.Nat.{differ}
use native.Mathlib.Nat.{
  pow-succ', div-div-eq-div-mul, add-mul-mod_self_right, mod-eq_of_lt, one-le-pow, div-add-mod',
  mod-lt, div-one, zero-add, suc-add,
}
use nfcee_fw.Base.{
  ℕ, zero, suc, ◌+◌, ◌-◌, ◌*◌, ◌/◌, ◌%◌, ◌^◌, ◌≤◌, ◌<◌, min, max, bit_and, bit_or, bit_xor, ◌≡◌,
  refl, sym, ap, ◌∙◌, arith, ltb, if◌then◌else◌,
}
use nfcee_fw.Bits.Step.{bit_and_step, bit_or_step, bit_xor_step}

abbrev pub testbit : ℕ → ℕ → ℕ
testbit n zero = n % 2
testbit n (suc i) = testbit (n / 2) i

pub testbit-le-one : (n i : ℕ) → testbit n i ≤ 1
testbit-le-one n zero = omega arith
testbit-le-one n (suc i) = testbit-le-one (n / 2) i

pub testbit-zero : (i : ℕ) → testbit 0 i ≡ 0
testbit-zero zero = refl
testbit-zero (suc i) = testbit-zero i

bit_and-half : (a b : ℕ) → bit_and a b / 2 ≡ bit_and (a / 2) (b / 2)
bit_and-half a b = omega (arith, bit_and_step a b)

bit_or-half : (a b : ℕ) → bit_or a b / 2 ≡ bit_or (a / 2) (b / 2)
bit_or-half a b = omega (arith, bit_or_step a b)

pub differ-le-one : (x y : ℕ) → x ≤ 1 → y ≤ 1 → differ x y ≤ 1
differ-le-one zero y p q = q
differ-le-one (suc x) zero p q = p
differ-le-one (suc x) (suc y) p q = ground arith

bit_xor-half : (a b : ℕ) → bit_xor a b / 2 ≡ bit_xor (a / 2) (b / 2)
bit_xor-half a b =
    omega (arith, bit_xor_step a b, differ-le-one (a % 2) (b % 2) (omega arith) (omega arith))

pub testbit-bit_and : (i a b : ℕ) → testbit (bit_and a b) i ≡ min (testbit a i) (testbit b i)
testbit-bit_and zero a b = omega (arith, bit_and_step a b)
testbit-bit_and (suc i) a b = rw (bit_and-half a b) (testbit-bit_and i (a / 2) (b / 2))

pub testbit-bit_or : (i a b : ℕ) → testbit (bit_or a b) i ≡ max (testbit a i) (testbit b i)
testbit-bit_or zero a b = omega (arith, bit_or_step a b)
testbit-bit_or (suc i) a b = rw (bit_or-half a b) (testbit-bit_or i (a / 2) (b / 2))

pub testbit-bit_xor : (i a b : ℕ) → testbit (bit_xor a b) i ≡ differ (testbit a i) (testbit b i)
testbit-bit_xor zero a b =
    omega (arith, bit_xor_step a b, differ-le-one (a % 2) (b % 2) (omega arith) (omega arith))
testbit-bit_xor (suc i) a b = rw (bit_xor-half a b) (testbit-bit_xor i (a / 2) (b / 2))

-- Numbers with the same digits are equal.
testbit_ext_below : (n a b : ℕ) → a ≤ n → b ≤ n → ((i : ℕ) → testbit a i ≡ testbit b i) → a ≡ b
testbit_ext_below zero a b p q h = omega arith
testbit_ext_below (suc n) a b p q h =
    omega
      (arith, h 0, testbit_ext_below n (a / 2) (b / 2) (omega arith) (omega arith) (λ i. h (suc i)))

pub testbit_ext : (a b : ℕ) → ((i : ℕ) → testbit a i ≡ testbit b i) → a ≡ b
testbit_ext a b h = testbit_ext_below (a + b) a b (omega arith) (omega arith) h

div-two-pow : (n k : ℕ) → n / 2 ^ suc k ≡ n / 2 / 2 ^ k
div-two-pow n k = rw (pow-succ' 2 k) (sym (div-div-eq-div-mul n 2 (2 ^ k)))

-- Dividing a remainder by twice `p`.
mod-double-half : (n p : ℕ) → 0 < p → n % (2 * p) / 2 ≡ n / 2 % p
mod-double-half n p pos = omega (arith, whole ∙ low)
  where
    q : ℕ
    q = n / 2 / p

    r : ℕ
    r = 2 * (n / 2 % p) + n % 2

    r_lt : r < 2 * p
    r_lt = omega (arith, mod-lt (n / 2) pos)

    split : n ≡ r + q * (2 * p)
    split = omega (arith, div-add-mod' (n / 2) p)

    whole : n % (2 * p) ≡ r % (2 * p)
    whole = ap (λ (t : ℕ). t % (2 * p)) split ∙ add-mul-mod_self_right r q (2 * p)

    low : r % (2 * p) ≡ r
    low = mod-eq_of_lt r_lt

mod-two-pow-half : (n k : ℕ) → n % 2 ^ suc k / 2 ≡ n / 2 % 2 ^ k
mod-two-pow-half n k = rw (pow-succ' 2 k) (mod-double-half n (2 ^ k) (one-le-pow k 2 (omega arith)))

mod-two-pow-even : (n k : ℕ) → n % 2 ^ suc k % 2 ≡ n % 2
mod-two-pow-even n k = rw (pow-succ' 2 k) (omega (arith, div-add-mod' n (2 * 2 ^ k)))

-- A right shift moves the digits down.
pub testbit-shr : (k n i : ℕ) → testbit (n / 2 ^ k) i ≡ testbit n (k + i)
testbit-shr zero n i = rw (div-one n, zero-add i)
testbit-shr (suc k) n i = rw (div-two-pow n k, suc-add k i) (testbit-shr k (n / 2) i)

-- A cast keeps the low digits and clears the others.
pub testbit-mod : (i k n : ℕ) → testbit (n % 2 ^ k) i ≡ (if ltb i k then testbit n i else 0)
testbit-mod i zero n = ground (arith, testbit-zero i)
testbit-mod zero (suc k) n = ground (arith, mod-two-pow-even n k)
testbit-mod (suc i) (suc k) n = rw (mod-two-pow-half n k) (ground (arith, testbit-mod i k (n / 2)))

shl-half : (n k : ℕ) → n * 2 ^ suc k / 2 ≡ n * 2 ^ k
shl-half n k = omega (arith, ap (λ (t : ℕ). n * t) (pow-succ' 2 k))

shl-even : (n k : ℕ) → n * 2 ^ suc k % 2 ≡ 0
shl-even n k = omega (arith, ap (λ (t : ℕ). n * t) (pow-succ' 2 k))

-- A left shift moves the digits up.
pub testbit-shl : (k n i : ℕ) → testbit (n * 2 ^ k) i ≡ (if ltb i k then 0 else testbit n (i - k))
testbit-shl zero n i = ground arith
testbit-shl (suc k) n zero = ground (arith, shl-even n k)
testbit-shl (suc k) n (suc i) = rw (shl-half n k) (ground (arith, testbit-shl k n i))
