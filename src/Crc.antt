-- ===== src/Crc.antt =====
-- The CRC_A of ISO 14443-3 as libs/nfc/iso14443a.c computes it: `crca`.
pub mod Reference
pub mod Residue
pub mod Detection
mod Tests
use nfcee_fw.Base.{ℕ, ◌/◌, ◌%◌, List, [], ◌∷◌, bit_xor}
use nfcee_fw.Word.{u8, u16, ◌<<<◌, ◌>>>◌}

-- The body of the loop: `ch` is a `uint8_t`, `crc` a `uint16_t`.
unfoldable pub crc_step : ℕ → ℕ → ℕ
crc_step crc byte =
    let mixed = u8 (bit_xor byte crc) in
    let ch = u8 (bit_xor mixed (mixed <<< 4)) in
    u16 (bit_xor (bit_xor (bit_xor (crc >>> 8) (ch <<< 8)) (ch <<< 3)) (ch >>> 4))

-- The loop `while (len--)` over the bytes that are left.
unfoldable pub crca_loop : ℕ → List ℕ → ℕ
crca_loop crc [] = crc
crca_loop crc (byte ∷ rest) = crca_loop (crc_step crc byte) rest

unfoldable pub crca : List ℕ → ℕ
crca frame = crca_loop 0x6363 frame

-- `uint8_t crc[] = { c & 0xff, c >> 8 }`, the two bytes that a frame is sent with.
unfoldable pub crc_bytes : List ℕ → List ℕ
crc_bytes frame = let c = crca frame in (c % 256) ∷ (c >>> 8) ∷ []
