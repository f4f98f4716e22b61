-- ===== src/Trf/Initiator/Errors.antt =====
-- The errors that the reader reports: `irq2error`.
use nfcee_fw.Base.{ℕ, ◌%◌, ◌≡◌, refl, sym, ap, ◌∙◌, arith, Bool, true, false, not, bit_and, ◌==◌}
use nfcee_fw.Bits.{all_below, all_below_sound, bit_and_assoc, bit_and-mask}
use nfcee_fw.Nfc.{is_fail}
use nfcee_fw.Trf.Registers.{
  irq_error, irq_col, irq_crc_error, irq_framing_eof_error, irq_parity_error,
}
use nfcee_fw.Trf.Initiator.{irq2error}

abbrev same : Bool → Bool → Bool
same true b = b
same false b = not b

same→eq : (a b : Bool) → same a b ≡ true → a ≡ b
same→eq true b h = ground (arith, h)
same→eq false b h = ground (arith, h)

-- A mask below 32 reads the low five bits.
bit_and-low : (x m : ℕ) → bit_and 31 m ≡ m → bit_and x m ≡ bit_and (x % 32) m
bit_and-low x m h =
    ap (λ (k : ℕ). bit_and x k) (sym h)
    ∙ sym (bit_and_assoc x 31 m)
    ∙ ap (λ (k : ℕ). bit_and k m) (bit_and-mask 5 x)

irq2error-low : (irq : ℕ) → irq2error irq ≡ irq2error (irq % 32)
unfolding irq2error
irq2error-low irq =
    rw
      (
        bit_and-low irq irq_col refl,
        bit_and-low irq irq_crc_error refl,
        bit_and-low irq irq_framing_eof_error refl,
        bit_and-low irq irq_parity_error refl,
      )
      refl

-- `irq2error` gives an error code for exactly the interrupts with one of the error bits that the
-- receiving loop tests for: none is lost, and none is made up.
pub irq2error-is_fail : (irq : ℕ) → is_fail (irq2error irq) ≡ not (bit_and irq irq_error == 0)
unfolding irq2error all_below
irq2error-is_fail irq = rw (irq2error-low irq) (
    rw (bit_and-low irq irq_error refl) (
      same→eq (is_fail (irq2error (irq % 32))) (not (bit_and (irq % 32) irq_error == 0)) (
        all_below_sound 32 (λ i. same (is_fail (irq2error i)) (not (bit_and i irq_error == 0)))
          (irq % 32) refl (omega arith))))
