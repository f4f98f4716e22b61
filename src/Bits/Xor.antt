-- ===== src/Bits/Xor.antt =====
-- Exclusive or: an Abelian group of exponent two, linear for casts and right shifts.
use Prim.Native.Nat.{differ}
use nfcee_fw.Base.{ℕ, zero, suc, ◌/◌, ◌%◌, ◌^◌, ◌≤◌, bit_xor, ◌≡◌, refl, sym, ◌∙◌, ap, arith}
use nfcee_fw.Bits.Testbit.{
  testbit-le-one, testbit-zero, testbit-bit_xor, testbit_ext, testbit-shr, testbit-mod,
}

differ_comm : (x y : ℕ) → x ≤ 1 → y ≤ 1 → differ x y ≡ differ y x
differ_comm zero zero p q = refl
differ_comm zero (suc y) p q = refl
differ_comm (suc x) zero p q = refl
differ_comm (suc x) (suc y) p q = ground arith

differ_assoc : (x y z : ℕ) → x ≤ 1 → y ≤ 1 → z ≤ 1 → differ (differ x y) z ≡ differ x (differ y z)
differ_assoc zero y z p q r = refl
differ_assoc (suc x) zero z p q r = refl
differ_assoc (suc x) (suc y) zero p q r = ground arith
differ_assoc (suc x) (suc y) (suc z) p q r = ground arith

differ_self : (x : ℕ) → x ≤ 1 → differ x x ≡ 0
differ_self zero p = refl
differ_self (suc zero) p = refl
differ_self (suc (suc x)) p = absurd (omega arith)

pub bit_xor_comm : (a b : ℕ) → bit_xor a b ≡ bit_xor b a
bit_xor_comm a b = testbit_ext _ _ λ i.
    rw (testbit-bit_xor i a b, testbit-bit_xor i b a)
      (differ_comm _ _ (testbit-le-one a i) (testbit-le-one b i))

pub bit_xor_assoc : (a b c : ℕ) → bit_xor (bit_xor a b) c ≡ bit_xor a (bit_xor b c)
bit_xor_assoc a b c = testbit_ext _ _ λ i.
    simp testbit-bit_xor
      (differ_assoc _ _ _ (testbit-le-one a i) (testbit-le-one b i) (testbit-le-one c i))

pub bit_xor_self : (a : ℕ) → bit_xor a a ≡ 0
bit_xor_self a =
    testbit_ext _ _ λ i. simp (testbit-bit_xor, testbit-zero) (differ_self _ (testbit-le-one a i))

pub zero-bit_xor : (a : ℕ) → bit_xor 0 a ≡ a
zero-bit_xor a = testbit_ext _ _ λ i. simp (testbit-bit_xor, testbit-zero)

pub bit_xor-zero : (a : ℕ) → bit_xor a 0 ≡ a
bit_xor-zero a = bit_xor_comm a 0 ∙ zero-bit_xor a

-- Adding the same number twice changes nothing.
pub bit_xor_cancel : (a b : ℕ) → bit_xor a (bit_xor a b) ≡ b
bit_xor_cancel a b =
    sym (bit_xor_assoc a a b) ∙ ap (λ (t : ℕ). bit_xor t b) (bit_xor_self a) ∙ zero-bit_xor b

pub bit_xor_left_injective : (a b c : ℕ) → bit_xor a b ≡ bit_xor a c → b ≡ c
bit_xor_left_injective a b c e = sym (bit_xor_cancel a b) ∙ ap (bit_xor a) e ∙ bit_xor_cancel a c

pub bit_xor_left_comm : (a b c : ℕ) → bit_xor a (bit_xor b c) ≡ bit_xor b (bit_xor a c)
bit_xor_left_comm a b c =
    sym (bit_xor_assoc a b c) ∙ ap (λ (t : ℕ). bit_xor t c) (bit_xor_comm a b) ∙ bit_xor_assoc b a c

pub bit_xor-mod : (k a b : ℕ) → bit_xor a b % 2 ^ k ≡ bit_xor (a % 2 ^ k) (b % 2 ^ k)
bit_xor-mod k a b = testbit_ext _ _ λ i. ground (
  arith,
  testbit-mod i k (bit_xor a b),
  testbit-bit_xor i a b,
  testbit-bit_xor i (a % 2 ^ k) (b % 2 ^ k),
  testbit-mod i k a,
  testbit-mod i k b,
)

pub bit_xor-shr : (k a b : ℕ) → bit_xor a b / 2 ^ k ≡ bit_xor (a / 2 ^ k) (b / 2 ^ k)
bit_xor-shr k a b = testbit_ext _ _ λ i. simp (testbit-shr, testbit-bit_xor)
