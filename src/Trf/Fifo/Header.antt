-- ===== src/Trf/Fifo/Header.antt =====
-- The length that `trf797x_transmit` announces to the chip.
use nfcee_fw.Base.{
  ℕ, ◌+◌, ◌*◌, ◌/◌, ◌%◌, ◌^◌, ◌<◌, Bool, ◌≡◌, arith, ◌==◌, if◌then◌else◌, bit_and, bit_or, get_or,
}
use nfcee_fw.Word.{u8, ◌<<<◌}
use nfcee_fw.Bits.{bit_and-mask, bit_or-shl}
use nfcee_fw.Trf.Fifo.{transmit_header}

-- The second length byte, without bit operations.
length_byte :
    (bits flag : ℕ) → flag < 2 → u8 (bit_or (bit_and bits 0xFF <<< 1) flag) ≡ bits % 128 * 2 + flag
length_byte bits flag h =
    rw (bit_and-mask 8 bits) (rw (bit_or-shl 1 (bits % 256) flag h) (omega arith))

-- For a message of fewer than 32768 bits, the two length bytes are laid out as the chip reads them:
-- together, without the low nibble of the second one, the number of whole bytes; in the low nibble
-- the number of bits that are left over, and in bit 0 whether there are any.
pub transmit_header-length :
    (bits : ℕ) (crc : Bool)
    → bits < 2 ^ 15
    → let high = get_or (transmit_header bits crc) 3 0 in
      let low = get_or (transmit_header bits crc) 4 0 in
      (high * 16 + low / 16 ≡ bits / 8)
      × (low / 2 % 8 ≡ bits % 8)
      × (low % 2 ≡ (if bits % 8 == 0 then 0 else 1))
unfolding transmit_header
transmit_header-length bits crc h =
    let flag : ℕ = if bits % 8 == 0 then 0 else 1 in
    let small : flag < 2 = ground arith in
    let low = length_byte bits flag small in
    rw low (omega (arith, small), omega (arith, small), omega (arith, small))
