-- ===== src/Bits/Mask.antt =====
-- Masks of low bits, disjoint fields, and checks of every value of a small range.
use native.Mathlib.Nat.{pow-succ', one-le-pow}
use nfcee_fw.Base.{
  ℕ, zero, suc, ◌+◌, ◌-◌, ◌*◌, ◌/◌, ◌%◌, ◌^◌, ◌<◌, bit_and, bit_or, bit_xor, ◌≡◌, ap, arith, ltb,
  if◌then◌else◌, Bool, true, ◌&&◌, ◌==◌, ==_iff,
}
use Prim.Native.Nat.{differ}
use nfcee_fw.Bits.Step.{bit_or_step, bit_xor_step}
use nfcee_fw.Bits.Xor.{bit_xor-zero}
use nfcee_fw.Bits.Testbit.{
  testbit, testbit-le-one, testbit-zero, testbit-bit_and, testbit-bit_or, testbit_ext, testbit-mod,
}

-- `2 ^ k - 1` has its low `k` digits set.
pub testbit-mask : (i k : ℕ) → testbit (2 ^ k - 1) i ≡ (if ltb i k then 1 else 0)
testbit-mask i zero = ground (arith, testbit-zero i)
testbit-mask zero (suc k) = rw (pow-succ' 2 k) (ground (arith, one-le-pow k 2 (omega arith)))
testbit-mask (suc i) (suc k) = rw half (ground (arith, testbit-mask i k))
  where
    half : (2 ^ suc k - 1) / 2 ≡ 2 ^ k - 1
    half = omega (arith, pow-succ' 2 k, one-le-pow k 2 (omega arith))

-- A mask of `k` low bits is the remainder by `2 ^ k`.
pub bit_and-mask : (k a : ℕ) → bit_and a (2 ^ k - 1) ≡ a % 2 ^ k
bit_and-mask k a = testbit_ext _ _ λ i. ground (
  arith,
  testbit-bit_and i a (2 ^ k - 1),
  testbit-mask i k,
  testbit-mod i k a,
  testbit-le-one a i,
)

-- The complement on `w` bits.
pub testbit-complement :
    (i w n : ℕ) → n < 2 ^ w → testbit (2 ^ w - 1 - n) i ≡ (if ltb i w then 1 - testbit n i else 0)
testbit-complement i zero n h = ground (arith, testbit-zero i)
testbit-complement zero (suc w) n h =
    ground (arith, pow-succ' 2 w, one-le-pow w 2 (omega arith), parity)
  where
    parity : (2 ^ suc w - 1 - n) % 2 ≡ 1 - n % 2
    parity = omega (arith, pow-succ' 2 w, h)
testbit-complement (suc i) (suc w) n h =
    rw half (ground (arith, testbit-complement i w (n / 2) low))
  where
    low : n / 2 < 2 ^ w
    low = omega (arith, pow-succ' 2 w)

    half : (2 ^ suc w - 1 - n) / 2 ≡ 2 ^ w - 1 - n / 2
    half = omega (arith, pow-succ' 2 w)

pub bit_and_assoc : (a b c : ℕ) → bit_and (bit_and a b) c ≡ bit_and a (bit_and b c)
bit_and_assoc a b c = testbit_ext _ _ (λ i.
    rw
      (
        testbit-bit_and i (bit_and a b) c,
        testbit-bit_and i a b,
        testbit-bit_and i a (bit_and b c),
        testbit-bit_and i b c,
      )
      (omega arith))

pub bit_or-zero : (a : ℕ) → bit_or a 0 ≡ a
bit_or-zero a = testbit_ext _ _ λ i. ground (arith, testbit-bit_or i a 0, testbit-zero i)

-- A field that fits below a shifted one: `|` is `+`.
pub bit_or-shl : (k q r : ℕ) → r < 2 ^ k → bit_or (q * 2 ^ k) r ≡ q * 2 ^ k + r
bit_or-shl zero q zero h = rw bit_or-zero (omega arith)
bit_or-shl zero q (suc r) h = absurd (omega arith)
bit_or-shl (suc k) q r h = omega (
  arith,
  bit_or_step (q * 2 ^ suc k) r,
  double,
  ap (λ (t : ℕ). bit_or t (r / 2)) halved,
  bit_or-shl k q (r / 2) (omega (arith, pow-succ' 2 k)),
)
  where
    double : q * 2 ^ suc k ≡ 2 * (q * 2 ^ k)
    double = omega (arith, ap (λ (t : ℕ). q * t) (pow-succ' 2 k))

    halved : q * 2 ^ suc k / 2 ≡ q * 2 ^ k
    halved = omega (arith, double)

-- So is `^`.
pub bit_xor-shl : (k q r : ℕ) → r < 2 ^ k → bit_xor (q * 2 ^ k) r ≡ q * 2 ^ k + r
bit_xor-shl zero q zero h = rw bit_xor-zero (omega arith)
bit_xor-shl zero q (suc r) h = absurd (omega arith)
bit_xor-shl (suc k) q r h = omega (
  arith,
  bit_xor_step (q * 2 ^ suc k) r,
  double,
  ap (λ (t : ℕ). bit_xor t (r / 2)) halved,
  ap (λ (t : ℕ). differ t (r % 2)) even,
  bit_xor-shl k q (r / 2) (omega (arith, pow-succ' 2 k)),
)
  where
    double : q * 2 ^ suc k ≡ 2 * (q * 2 ^ k)
    double = omega (arith, ap (λ (t : ℕ). q * t) (pow-succ' 2 k))

    halved : q * 2 ^ suc k / 2 ≡ q * 2 ^ k
    halved = omega (arith, double)

    even : q * 2 ^ suc k % 2 ≡ 0
    even = omega (arith, double)

-- Every value below `n` passes the test.
unfoldable pub all_below : ℕ → (ℕ → Bool) → Bool
all_below zero test = true
all_below (suc limit) test = all_below limit test && test limit

pub all_below_sound :
    (limit : ℕ) (test : ℕ → Bool) (c : ℕ) → all_below limit test ≡ true → c < limit → test c ≡ true
unfolding all_below
all_below_sound zero test c all inside = absurd (omega arith)
all_below_sound (suc limit) test c all inside =
    ground (arith, λ (rest : all_below limit test ≡ true). all_below_sound limit test c rest)

pub table_eq :
    (n : ℕ) (f g : ℕ → ℕ) → all_below n (λ x. f x == g x) ≡ true → (x : ℕ) → x < n → f x ≡ g x
table_eq n f g h x lt = (==_iff _ _).0 (all_below_sound n _ x h lt)
