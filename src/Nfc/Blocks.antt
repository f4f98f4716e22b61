-- ===== src/Nfc/Blocks.antt =====
-- The classes of a block of ISO 14443-4 by its first byte: the macros of libs/nfc/iso14443.c.
use nfcee_fw.Bits.{all_below, all_below_sound}
use nfcee_fw.Base.{ℕ, ◌<◌, Bool, true, ◌&&◌, not, ◌≡◌, refl, bit_and, ◌==◌}

-- The classes of a block by its first byte.
unfoldable pub is_iblock : ℕ → Bool
is_iblock b = bit_and b 0xE2 == 0x02

unfoldable pub is_rblock : ℕ → Bool
is_rblock b = bit_and b 0xE6 == 0xA2

unfoldable pub is_sblock : ℕ → Bool
is_sblock b = bit_and b 0xC7 == 0xC2

unfoldable pub is_ack : ℕ → Bool
unfolding is_rblock
is_ack b = is_rblock b && (bit_and b 0x10 == 0)

unfoldable pub is_wtx : ℕ → Bool
unfolding is_sblock
is_wtx b = is_sblock b && (bit_and b 0x30 == 0x30)

unfoldable pub togglebit : ℕ → ℕ
togglebit b = bit_and b 1

-- At most one of three tests holds.
abbrev at_most_one : Bool → Bool → Bool → Bool
at_most_one i r s = not (i && r) && not (i && s) && not (r && s)

-- A byte announces one kind of block at most: an I-block is no acknowledgement and no request for
-- more time, and a request is no acknowledgement.
block_kinds_disjoint : (b : ℕ) → b < 256 → at_most_one (is_iblock b) (is_ack b) (is_wtx b) ≡ true
unfolding is_iblock is_ack is_wtx all_below
block_kinds_disjoint b h =
    all_below_sound 256 (λ c. at_most_one (is_iblock c) (is_ack c) (is_wtx c)) b refl h
