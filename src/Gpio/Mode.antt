-- ===== src/Gpio/Mode.antt =====
-- One round of `_gpio_lld_setportmode`: what it changes in the registers of a port.
use native.Mathlib.Decide.{ℕ_discrete}
use nfcee_fw.Base.{
  ℕ, ◌+◌, ◌-◌, ◌*◌, ◌/◌, ◌%◌, ◌^◌, ◌≤◌, ◌<◌, ◌≡◌, ◌≢◌, ◌⊎◌, inl, inr, ◌∙◌, arith, bit_and, ltb,
  if◌then◌else◌, Bool-cases, ==_refl,
}
use nfcee_fw.Bits.{bit_and-mask}
use nfcee_fw.Gpio.{Port, Fields, shl32, replace, set_pad_mode}
use nfcee_fw.Gpio.BitFields.{write_field-inside, write_field-outside, IsWritten, Touches}

-- The five numbers that a mode is made of.
pub record Mode : Type 0 where
  pub m_moder : ℕ
  pub m_otyper : ℕ
  pub m_ospeedr : ℕ
  pub m_pupdr : ℕ
  pub m_altr : ℕ

abbrev pub mode_of : ℕ → Mode
mode_of mode = record {
  m_moder = mode % 4;
  m_otyper = mode / 4 % 2;
  m_ospeedr = mode / 8 % 4;
  m_pupdr = mode / 32 % 4;
  m_altr = mode / 128 % 16;
}

abbrev pub IsMode : Mode → Type 0
IsMode m =
    (m.m_moder < 4) × (m.m_otyper < 2) × (m.m_ospeedr < 4) × (m.m_pupdr < 4) × (m.m_altr < 16)

-- In `p'` the pads from number `b` on that `mask` selects have the mode, and the others are as in `p`:
-- two bits for each pad in three registers, one bit in another, and four bits in two registers for
-- eight pads each.
pub record HasMode (b mask : ℕ) (m : Mode) (p p' : Port) : Type 0 where
  pub moder : IsWritten 0 16 2 (λ i. i * 2) b mask m.m_moder p.moder p'.moder
  pub otyper : IsWritten 0 16 1 (λ i. i) b mask m.m_otyper p.otyper p'.otyper
  pub ospeedr : IsWritten 0 16 2 (λ i. i * 2) b mask m.m_ospeedr p.ospeedr p'.ospeedr
  pub pupdr : IsWritten 0 16 2 (λ i. i * 2) b mask m.m_pupdr p.pupdr p'.pupdr
  pub afrl : IsWritten 0 8 4 (λ i. i * 4) b mask m.m_altr p.afrl p'.afrl
  pub afrh : IsWritten 8 16 4 (λ i. (i - 8) * 4) b mask m.m_altr p.afrh p'.afrh

-- The locals of the loop at pad `b`.
abbrev pub fields_at : Mode → ℕ → Fields
fields_at m b = record {
  f_moder = shl32 m.m_moder (b * 2);
  f_otyper = shl32 m.m_otyper b;
  f_ospeedr = shl32 m.m_ospeedr (b * 2);
  f_pupdr = shl32 m.m_pupdr (b * 2);
  bit = b;
}

-- The positions of the fields do not overlap.
abbrev Apart : (lo hi k : ℕ) → (ℕ → ℕ) → ℕ → Type 0
Apart lo hi k pos b =
    (i j : ℕ)
    → lo ≤ i
    → i < hi
    → j < k
    → (pos i + j < 32) × (i ≢ b → (pos i + j < pos b) ⊎ (pos b + k ≤ pos i + j))

Touches-write :
    (lo hi k : ℕ) (pos : ℕ → ℕ) (b mask value reg : ℕ)
    → mask % 2 ≡ 1
    → value < 2 ^ k
    → Apart lo hi k pos b
    → Touches lo hi k pos b mask value reg
        (replace reg (shl32 (2 ^ k - 1) (pos b)) (shl32 value (pos b)))
Touches-write lo hi k pos b mask value reg odd small apart i j hlo hhi hj =
    let (inside, others) = apart i j hlo hhi hj in
    elim (ℕ_discrete i b) [
      | yes e ↦
          rw odd
            (rw e (rw (==_refl b) (write_field-inside k (pos b) value reg j (rw e at inside) hj)))
      | no other ↦
          write_field-outside k (pos b) value reg (pos i + j) inside small (others other)
          ∙ ground arith
    ]

Touches-keep :
    (lo hi k : ℕ) (pos : ℕ → ℕ) (b mask value reg : ℕ)
    → (mask % 2 ≡ 0) ⊎ ((b < lo) ⊎ (hi ≤ b))
    → Touches lo hi k pos b mask value reg reg
Touches-keep lo hi k pos b mask value reg (inl even) i j hlo hhi hj = rw even (ground arith)
Touches-keep lo hi k pos b mask value reg (inr (inl out)) i j hlo hhi hj = ground arith
Touches-keep lo hi k pos b mask value reg (inr (inr out)) i j hlo hhi hj = ground arith

pub record Touched (b mask : ℕ) (m : Mode) (p p' : Port) : Type 0 where
  pub t_moder : Touches 0 16 2 (λ i. i * 2) b mask m.m_moder p.moder p'.moder
  pub t_otyper : Touches 0 16 1 (λ i. i) b mask m.m_otyper p.otyper p'.otyper
  pub t_ospeedr : Touches 0 16 2 (λ i. i * 2) b mask m.m_ospeedr p.ospeedr p'.ospeedr
  pub t_pupdr : Touches 0 16 2 (λ i. i * 2) b mask m.m_pupdr p.pupdr p'.pupdr
  pub t_afrl : Touches 0 8 4 (λ i. i * 4) b mask m.m_altr p.afrl p'.afrl
  pub t_afrh : Touches 8 16 4 (λ i. (i - 8) * 4) b mask m.m_altr p.afrh p'.afrh

-- A pad that is not selected.
pub keep-Touched : (b mask : ℕ) (m : Mode) (p : Port) → mask % 2 ≡ 0 → Touched b mask m p p
keep-Touched b mask m p even = record {
  t_moder = Touches-keep 0 16 2 (λ i. i * 2) b mask m.m_moder p.moder (inl even);
  t_otyper = Touches-keep 0 16 1 (λ i. i) b mask m.m_otyper p.otyper (inl even);
  t_ospeedr = Touches-keep 0 16 2 (λ i. i * 2) b mask m.m_ospeedr p.ospeedr (inl even);
  t_pupdr = Touches-keep 0 16 2 (λ i. i * 2) b mask m.m_pupdr p.pupdr (inl even);
  t_afrl = Touches-keep 0 8 4 (λ i. i * 4) b mask m.m_altr p.afrl (inl even);
  t_afrh = Touches-keep 8 16 4 (λ i. (i - 8) * 4) b mask m.m_altr p.afrh (inl even);
}

before_or_after : (i b : ℕ) → i ≢ b → (i < b) ⊎ (b < i)
before_or_after i b other = ground arith

two_bits-Apart : (b : ℕ) → b < 16 → Apart 0 16 2 (λ i. i * 2) b
two_bits-Apart b h i j hlo hhi hj = (
  omega arith,
  λ other. elim (before_or_after i b other) [
    | inl c ↦ inl (omega arith)
    | inr c ↦ inr (omega arith)
  ],
)

one_bits-Apart : (b : ℕ) → b < 16 → Apart 0 16 1 (λ i. i) b
one_bits-Apart b h i j hlo hhi hj = (
  omega arith,
  λ other. elim (before_or_after i b other) [
    | inl c ↦ inl (omega arith)
    | inr c ↦ inr (omega arith)
  ],
)

four_bits-Apart : (b : ℕ) → b < 8 → Apart 0 8 4 (λ i. i * 4) b
four_bits-Apart b h i j hlo hhi hj = (
  omega arith,
  λ other. elim (before_or_after i b other) [
    | inl c ↦ inl (omega arith)
    | inr c ↦ inr (omega arith)
  ],
)

high_bits-Apart : (b : ℕ) → 8 ≤ b → b < 16 → Apart 8 16 4 (λ i. (i - 8) * 4) b
high_bits-Apart b h hb i j hlo hhi hj = (
  omega arith,
  λ other. elim (before_or_after i b other) [
    | inl c ↦ inl (omega arith)
    | inr c ↦ inr (omega arith)
  ],
)

-- The registers of the alternate functions: the pad's number within its register is `bit & 7`.
afrl-Touches :
    (b mask altr reg : ℕ)
    → mask % 2 ≡ 1
    → altr < 16
    → Touches 0 8 4
        (λ i. i * 4)
        b
        mask
        altr
        reg
        (if ltb b 8
          then replace reg (shl32 15 (bit_and b 7 * 4)) (shl32 altr (bit_and b 7 * 4))
          else reg)
afrl-Touches b mask altr reg odd small = elim (Bool-cases (ltb b 8)) [
  | inl low ↦
      let place : bit_and b 7 ≡ b = bit_and-mask 3 b ∙ ground arith in
      rw low (
        rw place (
          Touches-write 0 8 4 (λ i. i * 4) b mask altr reg odd small
            (four_bits-Apart b (ground arith))))
  | inr high ↦ rw high (Touches-keep 0 8 4 (λ i. i * 4) b mask altr reg (inr (inr (ground arith))))
]

afrh-Touches :
    (b mask altr reg : ℕ)
    → mask % 2 ≡ 1
    → altr < 16
    → b < 16
    → Touches 8 16 4
        (λ i. (i - 8) * 4)
        b
        mask
        altr
        reg
        (if ltb b 8
          then reg
          else replace reg (shl32 15 (bit_and b 7 * 4)) (shl32 altr (bit_and b 7 * 4)))
afrh-Touches b mask altr reg odd small hb = elim (Bool-cases (ltb b 8)) [
  | inl low ↦
      rw low (Touches-keep 8 16 4 (λ i. (i - 8) * 4) b mask altr reg (inr (inl (ground arith))))
  | inr high ↦
      let place : bit_and b 7 ≡ b - 8 = bit_and-mask 3 b ∙ ground arith in
      rw high (
        rw place (
          Touches-write 8 16 4 (λ i. (i - 8) * 4) b mask altr reg odd small
            (high_bits-Apart b (ground arith) hb)))
]

-- A pad that is selected.
pub set_pad_mode-Touched :
    (b mask : ℕ) (m : Mode) (p : Port)
    → mask % 2 ≡ 1
    → b < 16
    → IsMode m
    → Touched b mask m p (set_pad_mode m.m_altr (fields_at m b) p)
unfolding set_pad_mode
set_pad_mode-Touched b mask m p odd hb valid = record {
  t_moder =
      Touches-write 0 16 2 (λ i. i * 2) b mask m.m_moder p.moder odd valid.0 (two_bits-Apart b hb);
  t_otyper =
      Touches-write 0 16 1 (λ i. i) b mask m.m_otyper p.otyper odd valid.1 (one_bits-Apart b hb);
  t_ospeedr =
      Touches-write 0 16 2 (λ i. i * 2) b mask m.m_ospeedr p.ospeedr odd valid.2
        (two_bits-Apart b hb);
  t_pupdr =
      Touches-write 0 16 2 (λ i. i * 2) b mask m.m_pupdr p.pupdr odd valid.3 (two_bits-Apart b hb);
  t_afrl = afrl-Touches b mask m.m_altr p.afrl odd valid.4;
  t_afrh = afrh-Touches b mask m.m_altr p.afrh odd valid.4 hb;
}
