-- ===== src/Gpio/BitFields.antt =====
-- Bit fields of a register: what one write changes, and what a sequence of writes at the positions of
-- successive pads leaves behind.
use native.Mathlib.Nat.{mod-eq_of_lt}
use nfcee_fw.Base.{
  ℕ, ◌+◌, ◌-◌, ◌*◌, ◌/◌, ◌%◌, ◌^◌, ◌≤◌, ◌<◌, max, ◌≡◌, ◌⊎◌, inl, inr, sym, ap, ◌∙◌, arith, ◌&&◌,
  bit_and, ltb, leb, ◌==◌, if◌then◌else◌, lt→ltb, Bool-cases,
}
use nfcee_fw.Word.{◌<<<◌, not32}
use nfcee_fw.Bits.{
  testbit, testbit_ext, testbit-le-one, testbit-bit_and, testbit-bit_or, testbit-shr, testbit-shl,
  testbit-mod, testbit-mask, testbit-complement, testbit-zero,
}
use nfcee_fw.Gpio.{replace, shl32}

-- A field that is masked out and moved down is the number that its bits make.
pub field_value : (k s mode : ℕ) → bit_and mode ((2 ^ k - 1) * 2 ^ s) / 2 ^ s ≡ mode / 2 ^ s % 2 ^ k
field_value k s mode = testbit_ext _ _ (λ i.
    rw
      (
        testbit-shr s (bit_and mode ((2 ^ k - 1) * 2 ^ s)) i,
        testbit-bit_and (s + i) mode ((2 ^ k - 1) * 2 ^ s),
        testbit-shl s (2 ^ k - 1) (s + i),
        testbit-mask (s + i - s) k,
        testbit-mod i k (mode / 2 ^ s),
        testbit-shr s mode i,
      )
      (ground (arith, testbit-le-one mode (s + i))))

-- A write of `k` bits at position `s`.
pub write_field :
    (k s v reg n : ℕ)
    → n < 32
    → testbit (replace reg (shl32 (2 ^ k - 1) s) (shl32 v s)) n
      ≡ max
          (if leb s n && ltb (n - s) k then 0 else testbit reg n)
          (if leb s n then testbit v (n - s) else 0)
unfolding replace
write_field k s v reg n h =
    rw
      (
        testbit-bit_or n (bit_and reg (not32 (shl32 (2 ^ k - 1) s))) (shl32 v s),
        testbit-bit_and n reg (not32 (shl32 (2 ^ k - 1) s)),
        testbit-complement n 32 (shl32 (2 ^ k - 1) s % 2 ^ 32) (omega arith),
        testbit-mod n 32 (shl32 (2 ^ k - 1) s),
        testbit-mod n 32 ((2 ^ k - 1) <<< s),
        testbit-mod n 32 (v <<< s),
        testbit-shl s (2 ^ k - 1) n,
        testbit-shl s v n,
        testbit-mask (n - s) k,
        lt→ltb n 32 h,
      )
      (ground (arith, testbit-le-one reg n, testbit-le-one v (n - s)))

pub testbit-above : (k v i : ℕ) → v < 2 ^ k → k ≤ i → testbit v i ≡ 0
testbit-above k v i small h =
    ap (λ (t : ℕ). testbit t i) (sym (mod-eq_of_lt small)) ∙ testbit-mod i k v ∙ ground arith

pub write_field-inside :
    (k s v reg j : ℕ)
    → s + j < 32
    → j < k
    → testbit (replace reg (shl32 (2 ^ k - 1) s) (shl32 v s)) (s + j) ≡ testbit v j
write_field-inside k s v reg j h hj =
    let same : s + j - s ≡ j = omega arith in
    write_field k s v reg (s + j) h ∙ rw same (ground arith)

pub write_field-outside :
    (k s v reg n : ℕ)
    → n < 32
    → v < 2 ^ k
    → (n < s) ⊎ (s + k ≤ n)
    → testbit (replace reg (shl32 (2 ^ k - 1) s) (shl32 v s)) n ≡ testbit reg n
write_field-outside k s v reg n h small (inl below) = write_field k s v reg n h ∙ ground arith
write_field-outside k s v reg n h small (inr above) =
    write_field k s v reg n h ∙ rw (testbit-above k v (n - s) small (omega arith)) (ground arith)

-- What a register holds for the pads from number `b` on, when the pads that `mask` selects have got
-- `value`, and the others still have what they had in `reg`. The register has the fields, of `k`
-- bits at `pos`, of the pads from `lo` to `hi`.
abbrev pub choose : ℕ → ℕ → ℕ → ℕ → ℕ → ℕ
choose b mask i new old = if leb b i && (testbit mask (i - b) == 1) then new else old

abbrev pub IsWritten : (lo hi k : ℕ) → (ℕ → ℕ) → (b mask value reg reg' : ℕ) → Type 0
IsWritten lo hi k pos b mask value reg reg' =
    (i j : ℕ)
    → lo ≤ i
    → i < hi
    → j < k
    → testbit reg' (pos i + j) ≡ choose b mask i (testbit value j) (testbit reg (pos i + j))

-- The write of one pad's field, or none.
abbrev pub Touches : (lo hi k : ℕ) → (ℕ → ℕ) → (b mask value reg reg' : ℕ) → Type 0
Touches lo hi k pos b mask value reg reg' =
    (i j : ℕ)
    → lo ≤ i
    → i < hi
    → j < k
    → testbit reg' (pos i + j)
      ≡ (if (i == b) && (testbit mask 0 == 1) then testbit value j else testbit reg (pos i + j))

-- A write for pad `b`, then those for the pads behind it.
pub IsWritten-step :
    (lo hi k : ℕ) (pos : ℕ → ℕ) (b mask value reg reg1 reg' : ℕ)
    → Touches lo hi k pos b mask value reg reg1
    → IsWritten lo hi k pos (b + 1) (mask / 2) value reg1 reg'
    → IsWritten lo hi k pos b mask value reg reg'
IsWritten-step lo hi k pos b mask value reg reg1 reg' first rest i j hlo hhi hj =
    rest i j hlo hhi hj
    ∙ rw (first i j hlo hhi hj) (elim (Bool-cases (ltb b i)) [
      | inl after ↦
          let index : 1 + (i - (b + 1)) ≡ i - b = ground arith in
          rw (testbit-shr 1 mask (i - (b + 1))) (rw index (ground arith))
      | inr before ↦ elim (Bool-cases (i == b)) [
        | inl here ↦ let index : i - b ≡ 0 = ground arith in rw index (ground arith)
        | inr other ↦ ground arith
      ]
    ])

-- Nothing is left to do where the mask is zero.
pub IsWritten-none :
    (lo hi k : ℕ) (pos : ℕ → ℕ) (b value reg : ℕ) → IsWritten lo hi k pos b 0 value reg reg
IsWritten-none lo hi k pos b value reg i j hlo hhi hj = rw (testbit-zero (i - b)) (ground arith)
