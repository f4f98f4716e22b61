-- ===== src/Crc/Detection.antt =====
-- The checksum of two frames that differ in one byte.
use nfcee_fw.Base.{
  ℕ, ◌/◌, ◌%◌, ◌^◌, ◌<◌, bit_xor, ◌≡◌, ◌≢◌, sym, ap, ◌∙◌, arith, List, [], ◌∷◌, ◌++◌,
}
use nfcee_fw.Bits.{bit_xor_comm, bit_xor_left_injective}
use nfcee_fw.Crc.{crc_step, crca_loop, crca}
use nfcee_fw.Crc.Reference.{mixed_part, crc_step_lem, crc_step-lt, IsBytes}
use nfcee_fw.Crc.Residue.{
  crca_loop-append, crca_loop-lt, mixed_part_injective, crc_step-high, mixed_byte,
}

mixed : ℕ → ℕ → ℕ
mixed crc byte = bit_xor byte crc % 256

-- From one register, different bytes lead to different registers.
crc_step_injective_byte :
    (crc x y : ℕ) → crc < 2 ^ 16 → x < 256 → y < 256 → crc_step crc x ≡ crc_step crc y → x ≡ y
unfolding mixed
crc_step_injective_byte crc x y hc hx hy e =
    bit_xor_left_injective (crc % 256) x y (sym (mixed_byte crc x hx) ∙ same ∙ mixed_byte crc y hy)
  where
    same : mixed crc x ≡ mixed crc y
    same =
        mixed_part_injective (mixed crc x) (mixed crc y) (omega arith) (omega arith)
          (sym (crc_step-high crc x hc) ∙ ap (λ (t : ℕ). t / 256) e ∙ crc_step-high crc y hc)

-- From different registers, one byte leads to different registers.
crc_step_injective :
    (a b byte : ℕ)
    → a < 2 ^ 16
    → b < 2 ^ 16
    → byte < 256
    → crc_step a byte ≡ crc_step b byte
    → a ≡ b
unfolding mixed
crc_step_injective a b byte ha hb hbyte e = omega (arith, low, high)
  where
    same : mixed a byte ≡ mixed b byte
    same =
        mixed_part_injective (mixed a byte) (mixed b byte) (omega arith) (omega arith)
          (sym (crc_step-high a byte ha) ∙ ap (λ (t : ℕ). t / 256) e ∙ crc_step-high b byte hb)

    low : a % 256 ≡ b % 256
    low = bit_xor_left_injective byte (a % 256) (b % 256) (
        bit_xor_comm byte (a % 256)
        ∙ sym (mixed_byte a byte hbyte)
        ∙ same
        ∙ mixed_byte b byte hbyte
        ∙ bit_xor_comm (b % 256) byte)

    high : a / 256 ≡ b / 256
    high = bit_xor_left_injective (mixed_part (mixed a byte)) (a / 256) (b / 256) (
        bit_xor_comm _ _
        ∙ sym (crc_step_lem a byte ha)
        ∙ e
        ∙ crc_step_lem b byte hb
        ∙ ap (λ (t : ℕ). bit_xor (b / 256) (mixed_part t)) (sym same)
        ∙ bit_xor_comm _ _)

crca_loop_injective :
    (frame : List ℕ) (a b : ℕ)
    → a < 2 ^ 16
    → b < 2 ^ 16
    → IsBytes frame
    → crca_loop a frame ≡ crca_loop b frame
    → a ≡ b
unfolding crca_loop
crca_loop_injective [] a b ha hb h e = e
crca_loop_injective (byte ∷ rest) a b ha hb h e = crc_step_injective a b byte ha hb h.0 (
    crca_loop_injective rest (crc_step a byte) (crc_step b byte) (crc_step-lt a byte)
      (crc_step-lt b byte) h.1 e)

same_byte :
    (front back : List ℕ) (x y : ℕ)
    → x < 256
    → y < 256
    → IsBytes back
    → crca (front ++ x ∷ back) ≡ crca (front ++ y ∷ back)
    → x ≡ y
unfolding crca crca_loop
same_byte front back x y hx hy h e =
    crc_step_injective_byte c x y (crca_loop-lt front 0x6363 (omega arith)) hx hy (
      crca_loop_injective back (crc_step c x) (crc_step c y) (crc_step-lt c x) (crc_step-lt c y) h (
        sym (crca_loop-append front (x ∷ back) 0x6363)
        ∙ e
        ∙ crca_loop-append front (y ∷ back) 0x6363))
  where
    c : ℕ
    c = crca_loop 0x6363 front

-- Two frames of the same length that differ in one byte, wherever it stands and whatever is in front
-- of it, have different `crca`s, if the bytes from that one on are bytes: the checksum detects every
-- error that is confined to one byte.
pub crca_detects_byte :
    (front back : List ℕ) (x y : ℕ)
    → x < 256
    → y < 256
    → IsBytes back
    → x ≢ y
    → crca (front ++ x ∷ back) ≢ crca (front ++ y ∷ back)
crca_detects_byte front back x y hx hy h differ e = differ (same_byte front back x y hx hy h e)
