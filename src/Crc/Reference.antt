-- ===== src/Crc/Reference.antt =====
-- `crca` against the shift register of ISO 14443-3, bit by bit.
use nfcee_fw.Base.{
  ℕ, zero, suc, ◌*◌, ◌/◌, ◌%◌, ◌^◌, ◌<◌, ◌==◌, bit_xor, ◌≡◌, refl, sym, ap, ◌∙◌, arith, List, [],
  ◌∷◌, if◌then◌else◌,
}
use mathlib.Core.Path.{ap₂}
use nfcee_fw.Word.{u8, u16, ◌<<<◌, ◌>>>◌}
use nfcee_fw.Bits.{
  all_below, table_eq, bit_xor_comm, bit_xor_assoc, bit_xor_left_comm, bit_xor-mod, bit_xor-shr,
  bit_xor-zero, bit_xor-shl,
}
use nfcee_fw.Crc.{crc_step, crca_loop, crca}

-- One clock of the register with the reflected polynomial x^16 + x^12 + x^5 + 1.
abbrev pub clock : ℕ → ℕ
clock r = bit_xor (r / 2) (if r % 2 == 1 then 0x8408 else 0)

abbrev pub clocks : ℕ → ℕ → ℕ
clocks zero r = r
clocks (suc n) r = clocks n (clock r)

abbrev pub reference_loop : ℕ → List ℕ → ℕ
reference_loop r [] = r
reference_loop r (byte ∷ rest) = reference_loop (clocks 8 (bit_xor r byte)) rest

-- What `crc_step` adds to the shifted register for one mixed byte.
abbrev pub mixed_part : ℕ → ℕ
mixed_part mixed =
    let ch = u8 (bit_xor mixed (mixed <<< 4)) in bit_xor (ch <<< 8) (bit_xor (ch <<< 3) (ch >>> 4))

abbrev pub IsBytes : List ℕ → Type 0
IsBytes [] = Unit
IsBytes (b ∷ bs) = (b < 256) × IsBytes bs

-- The feedback is linear in the bit that falls out.
feedback_linear :
    (x y : ℕ)
    → x < 2
    → y < 2
    → (if bit_xor x y == 1 then 0x8408 else 0)
      ≡ bit_xor (if x == 1 then 0x8408 else 0) (if y == 1 then 0x8408 else 0)
feedback_linear zero zero p q = refl
feedback_linear zero (suc zero) p q = refl
feedback_linear (suc zero) zero p q = refl
feedback_linear (suc zero) (suc zero) p q = refl
feedback_linear (suc (suc x)) y p q = absurd (omega arith)
feedback_linear zero (suc (suc y)) p q = absurd (omega arith)
feedback_linear (suc zero) (suc (suc y)) p q = absurd (omega arith)

bit_xor_exchange :
    (a b c d : ℕ) → bit_xor (bit_xor a b) (bit_xor c d) ≡ bit_xor (bit_xor a c) (bit_xor b d)
bit_xor_exchange a b c d = simp bit_xor_assoc (ap (bit_xor a) (bit_xor_left_comm b c d))

clock_linear : (a b : ℕ) → clock (bit_xor a b) ≡ bit_xor (clock a) (clock b)
clock_linear a b =
    rw
      (
        bit_xor-shr 1 a b,
        bit_xor-mod 1 a b,
        feedback_linear (a % 2) (b % 2) (omega arith) (omega arith),
      )
      (bit_xor_exchange (a / 2) (b / 2) _ _)

clocks_linear : (n a b : ℕ) → clocks n (bit_xor a b) ≡ bit_xor (clocks n a) (clocks n b)
clocks_linear zero a b = refl
clocks_linear (suc n) a b = rw (clock_linear a b) (clocks_linear n (clock a) (clock b))

-- Eight clocks move a high byte down.
clocks-high : (h : ℕ) → h < 256 → clocks 8 (h * 256) ≡ h
unfolding all_below
clocks-high h lt = table_eq 256 (λ x. clocks 8 (x * 256)) (λ x. x) refl h lt

clocks-low : (l : ℕ) → l < 256 → clocks 8 l ≡ mixed_part l
unfolding all_below
clocks-low l lt = table_eq 256 (clocks 8) mixed_part refl l lt

mixed_part-lt : (l : ℕ) → l < 256 → mixed_part l % 2 ^ 16 ≡ mixed_part l
unfolding all_below
mixed_part-lt l lt = table_eq 256 (λ x. mixed_part x % 2 ^ 16) mixed_part refl l lt

split_bytes : (x : ℕ) → bit_xor (x / 256 * 256) (x % 256) ≡ x
split_bytes x = bit_xor-shl 8 (x / 256) (x % 256) (omega arith) ∙ omega arith

-- The step of the code in one formula.
pub crc_step_lem :
    (crc byte : ℕ)
    → crc < 2 ^ 16
    → crc_step crc byte ≡ bit_xor (crc / 256) (mixed_part (bit_xor byte crc % 256))
unfolding crc_step
crc_step_lem crc byte h =
    ap u16 (bit_xor_assoc _ _ _ ∙ bit_xor_assoc _ _ _)
    ∙ bit_xor-mod 16 (crc / 256) part
    ∙ ap (λ (t : ℕ). bit_xor t (part % 2 ^ 16)) (small)
    ∙ ap (bit_xor (crc / 256)) (mixed_part-lt _ (omega arith))
  where
    part : ℕ
    part = mixed_part (bit_xor byte crc % 256)

    small : crc / 256 % 2 ^ 16 ≡ crc / 256
    small = omega arith

pub crc_step-lt : (crc byte : ℕ) → crc_step crc byte < 2 ^ 16
unfolding crc_step
crc_step-lt crc byte = omega arith

byte_shr : (b : ℕ) → b < 256 → b / 256 ≡ 0
byte_shr b h = omega arith

-- Eight clocks of the register that a byte was added to.
clocks-eq-step :
    (crc byte : ℕ) → crc < 2 ^ 16 → byte < 256 → clocks 8 (bit_xor crc byte) ≡ crc_step crc byte
clocks-eq-step crc byte hc hb =
    ap (clocks 8) (sym (split_bytes x))
    ∙ clocks_linear 8 (x / 256 * 256) (x % 256)
    ∙ ap₂ bit_xor (clocks-high (x / 256) high_lt ∙ high) (clocks-low (x % 256) (omega arith) ∙ low)
    ∙ sym (crc_step_lem crc byte hc)
  where
    x : ℕ
    x = bit_xor crc byte

    high : x / 256 ≡ crc / 256
    high = bit_xor-shr 8 crc byte ∙ ap (bit_xor (crc / 256)) (byte_shr byte hb) ∙ bit_xor-zero _

    high_lt : x / 256 < 256
    high_lt = omega (arith, high)

    low : mixed_part (x % 256) ≡ mixed_part (bit_xor byte crc % 256)
    low = ap (λ (t : ℕ). mixed_part (t % 256)) (bit_xor_comm crc byte)

crca_loop-eq-reference :
    (frame : List ℕ) (crc : ℕ)
    → crc < 2 ^ 16
    → IsBytes frame
    → crca_loop crc frame ≡ reference_loop crc frame
unfolding crca_loop
crca_loop-eq-reference [] crc hc hb = refl
crca_loop-eq-reference (byte ∷ rest) crc hc hb =
    rw (clocks-eq-step crc byte hc hb.0)
      (crca_loop-eq-reference rest (crc_step crc byte) (crc_step-lt crc byte) hb.1)

-- On every frame of bytes, of any length, `crca` is the checksum of the bitwise shift register of
-- ISO 14443-3 type A: start value 0x6363, reflected polynomial 0x8408, least significant bit first.
pub crca-eq-reference : (frame : List ℕ) → IsBytes frame → crca frame ≡ reference_loop 0x6363 frame
unfolding crca
crca-eq-reference frame h = crca_loop-eq-reference frame 0x6363 (omega arith) h
