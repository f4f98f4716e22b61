-- ===== src/Crc/Residue.antt =====
-- What the checksum says of a frame that is received with its two checksum bytes.
use nfcee_fw.Base.{
  ℕ, ◌/◌, ◌%◌, ◌^◌, ◌<◌, bit_xor, ◌≡◌, ◌↔◌, refl, sym, ap, ◌∙◌, arith, List, [], ◌∷◌, ◌++◌,
}
use nfcee_fw.Word.{u8, ◌<<<◌}
use nfcee_fw.Bits.{
  all_below, table_eq, bit_xor_comm, bit_xor_left_injective, bit_xor_self, bit_xor-mod, bit_xor-shr,
  bit_xor-zero, zero-bit_xor,
}
use nfcee_fw.Crc.{crc_step, crca_loop, crca, crc_bytes}
use nfcee_fw.Crc.Reference.{mixed_part, crc_step_lem, crc_step-lt}

pub crca_loop-append :
    (front back : List ℕ) (crc : ℕ)
    → crca_loop crc (front ++ back) ≡ crca_loop (crca_loop crc front) back
unfolding crca_loop
crca_loop-append [] back crc = refl
crca_loop-append (b ∷ front) back crc = crca_loop-append front back (crc_step crc b)

pub crca_loop-lt : (frame : List ℕ) (crc : ℕ) → crc < 2 ^ 16 → crca_loop crc frame < 2 ^ 16
unfolding crca_loop
crca_loop-lt [] crc h = h
crca_loop-lt (b ∷ frame) crc h = crca_loop-lt frame (crc_step crc b) (crc_step-lt crc b)

pub crca-lt : (frame : List ℕ) → crca frame < 2 ^ 16
unfolding crca
crca-lt frame = crca_loop-lt frame 0x6363 (omega arith)

-- The mixed byte can be had back from the high byte that it adds.
abbrev unmix : ℕ → ℕ
unmix high = let ch = bit_xor high (high / 32) in u8 (bit_xor ch (ch <<< 4))

unmix_lem : (m : ℕ) → m < 256 → unmix (mixed_part m / 256) ≡ m
unfolding all_below
unmix_lem m h = table_eq 256 (λ x. unmix (mixed_part x / 256)) (λ x. x) refl m h

pub mixed_part_injective :
    (m n : ℕ) → m < 256 → n < 256 → mixed_part m / 256 ≡ mixed_part n / 256 → m ≡ n
mixed_part_injective m n hm hn e = sym (unmix_lem m hm) ∙ ap unmix e ∙ unmix_lem n hn

-- The high byte of the register after a step, and the byte that was mixed in.
pub crc_step-high :
    (crc byte : ℕ)
    → crc < 2 ^ 16
    → crc_step crc byte / 256 ≡ mixed_part (bit_xor byte crc % 256) / 256
crc_step-high crc byte h =
    ap (λ (t : ℕ). t / 256) (crc_step_lem crc byte h)
    ∙ bit_xor-shr 8 (crc / 256) (mixed_part (bit_xor byte crc % 256))
    ∙ ap (λ (t : ℕ). bit_xor t (mixed_part (bit_xor byte crc % 256) / 256)) (none_left)
    ∙ zero-bit_xor _
  where
    none_left : crc / 256 / 256 ≡ 0
    none_left = omega arith

pub mixed_byte : (crc byte : ℕ) → byte < 256 → bit_xor byte crc % 256 ≡ bit_xor (crc % 256) byte
mixed_byte crc byte h =
    bit_xor-mod 8 byte crc
    ∙ bit_xor_comm (byte % 256) (crc % 256)
    ∙ ap (bit_xor (crc % 256)) (omega arith)

-- A byte equal to the low half of the register clears it; the high half moves down.
crc_step-low : (crc : ℕ) → crc < 2 ^ 16 → crc_step crc (crc % 256) ≡ crc / 256
crc_step-low crc h =
    crc_step_lem crc (crc % 256) h
    ∙ ap (λ (t : ℕ). bit_xor (crc / 256) (mixed_part t))
        (mixed_byte crc (crc % 256) (omega arith) ∙ bit_xor_self (crc % 256))
    ∙ bit_xor-zero (crc / 256)

-- Only that byte leaves a register below 256.
crc_step-small :
    (crc byte : ℕ)
    → crc < 2 ^ 16
    → byte < 256
    → crc_step crc byte < 256
    → (byte ≡ crc % 256) × (crc_step crc byte ≡ crc / 256)
crc_step-small crc byte hc hb small = (byte_eq, ap (crc_step crc) byte_eq ∙ crc_step-low crc hc)
  where
    no_high : mixed_part (bit_xor byte crc % 256) / 256 ≡ 0
    no_high = omega (arith, crc_step-high crc byte hc)

    no_mix : bit_xor byte crc % 256 ≡ 0
    no_mix = mixed_part_injective (bit_xor byte crc % 256) 0 (omega arith) (omega arith) no_high

    byte_eq : byte ≡ crc % 256
    byte_eq =
        bit_xor_left_injective (crc % 256) byte (crc % 256)
          (sym (mixed_byte crc byte hb) ∙ no_mix ∙ sym (bit_xor_self (crc % 256)))

-- Two steps clear the register exactly when they are given its own bytes, the low one first.
two_steps :
    (c x y : ℕ)
    → c < 2 ^ 16
    → x < 256
    → y < 256
    → (crc_step (crc_step c x) y ≡ 0) ↔ ((x ≡ c % 256) × (y ≡ c / 256))
two_steps c x y hc hx hy = (forward, back)
  where
    forward : crc_step (crc_step c x) y ≡ 0 → (x ≡ c % 256) × (y ≡ c / 256)
    forward e =
        let second = crc_step-small (crc_step c x) y (crc_step-lt c x) hy (omega arith) in
        let first = crc_step-small c x hc hx (omega arith) in (first.0, omega arith)

    back : (x ≡ c % 256) × (y ≡ c / 256) → crc_step (crc_step c x) y ≡ 0
    back (p, q) = rw (p, crc_step-low c hc, q) cleared
      where
        same : c / 256 ≡ c / 256 % 256
        same = omega arith

        cleared : crc_step (c / 256) (c / 256) ≡ 0
        cleared = ap (crc_step (c / 256)) same ∙ crc_step-low (c / 256) (omega arith) ∙ omega arith

crca-append_two :
    (frame : List ℕ) (x y : ℕ) → crca (frame ++ x ∷ y ∷ []) ≡ crc_step (crc_step (crca frame) x) y
unfolding crca crca_loop
crca-append_two frame x y = crca_loop-append frame (x ∷ y ∷ []) 0x6363

-- A frame followed by two bytes has the checksum 0 exactly when the two bytes are those that the
-- driver sends with that frame: `crc & 0xff`, then `crc >> 8`.
pub crca-append-eq-zero_iff :
    (frame : List ℕ) (x y : ℕ)
    → x < 256
    → y < 256
    → (crca (frame ++ x ∷ y ∷ []) ≡ 0) ↔ ((x ∷ y ∷ []) ≡ crc_bytes frame)
unfolding crc_bytes
crca-append-eq-zero_iff frame x y hx hy =
    let steps = two_steps (crca frame) x y (crca-lt frame) hx hy in
    (
      λ e. let eqs = steps.0 (sym (crca-append_two frame x y) ∙ e) in cc (eqs.0, eqs.1),
      λ e. crca-append_two frame x y ∙ steps.1 (cc, cc),
    )
