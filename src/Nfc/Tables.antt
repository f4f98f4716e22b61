-- ===== src/Nfc/Tables.antt =====
-- The conversions of libs/nfc/iso14443.c between the codes of ISO 14443-4 and sizes or times.
use mathlib.Core.Path.{subst, ap}
use native.Mathlib.Decide.{ℕ_discrete}
use nfcee_fw.Bits.{all_below, all_below_sound, table_eq}
use nfcee_fw.Base.{
  ◌&&◌, ℕ, zero, suc, ◌≤◌, ◌<◌, min, ◌≡◌, refl, arith, List, [], ◌∷◌, leb, get_or, if◌then◌else◌,
  leb_of_le,
}

abbrev fsc_lut : List ℕ
fsc_lut = 16 ∷ 24 ∷ 32 ∷ 40 ∷ 48 ∷ 64 ∷ 96 ∷ 128 ∷ 256 ∷ []

abbrev fwt_lut : List ℕ
fwt_lut = 1 ∷ 1 ∷ 2 ∷ 3 ∷ 5 ∷ 10 ∷ 20 ∷ 40 ∷ 80 ∷ 160 ∷ 310 ∷ 620 ∷ 1240 ∷ 2480 ∷ 4950 ∷ []

-- A `uint8_t` code indexes the table, capped at its last entry.
unfoldable pub fsci2fsc : ℕ → ℕ
fsci2fsc fsci = get_or fsc_lut (min fsci 8) 0

-- The loop `for (i = size - 1; i >= 0; i--)`, with `i + 1` rounds left.
unfoldable pub fsd2fsdi_loop : ℕ → ℕ → ℕ
fsd2fsdi_loop zero fsd = 0
fsd2fsdi_loop (suc i) fsd =
    let rest = fsd2fsdi_loop i fsd in if leb (get_or fsc_lut i 0) fsd then i else rest

-- `fsd` is an `int` that the driver passes a frame size, so it is not negative.
unfoldable pub fsd2fsdi : ℕ → ℕ
unfolding fsd2fsdi_loop
fsd2fsdi fsd = fsd2fsdi_loop 9 fsd

unfoldable pub fwi2fw : ℕ → ℕ
fwi2fw fwi = get_or fwt_lut (min fwi 14) 0

-- The search returns a code whose size fits, if the smallest size does.
loop_fits : (n fsd : ℕ) → n ≤ 9 → 16 ≤ fsd → get_or fsc_lut (fsd2fsdi_loop n fsd) 0 ≤ fsd
unfolding fsd2fsdi_loop
loop_fits zero fsd hn h = h
loop_fits (suc i) fsd hn h = ground (arith, loop_fits i fsd)

-- It skips no code that it has yet to try and whose size fits.
loop_greatest :
    (n fsd code : ℕ) → code < n → get_or fsc_lut code 0 ≤ fsd → code ≤ fsd2fsdi_loop n fsd
unfolding fsd2fsdi_loop
loop_greatest zero fsd code hn h = absurd (omega arith)
loop_greatest (suc i) fsd code hn h = elim (ℕ_discrete code i) [
  | yes same ↦ rw (leb_of_le _ _ (subst (λ (c : ℕ). get_or fsc_lut c 0 ≤ fsd) same h)) (omega arith)
  | no other ↦ ground (arith, loop_greatest i fsd code)
]

loop-le : (n fsd : ℕ) → n ≤ 9 → fsd2fsdi_loop n fsd ≤ 8
unfolding fsd2fsdi_loop
loop-le zero fsd h = omega arith
loop-le (suc i) fsd h = ground (arith, loop-le i fsd)

capped : (code : ℕ) → code ≤ 8 → fsci2fsc code ≡ get_or fsc_lut code 0
unfolding fsci2fsc
capped code h = ap (λ (c : ℕ). get_or fsc_lut c 0) (omega arith)

-- The code that is announced for a frame size of at least 16 bytes is the greatest one whose size
-- fits: `fsci2fsc` of it is at most the frame size, and no code up to 8 with such a size is greater.
pub fsd2fsdi_greatest :
    (fsd code : ℕ)
    → 16 ≤ fsd
    → code ≤ 8
    → fsci2fsc code ≤ fsd
    → (fsci2fsc (fsd2fsdi fsd) ≤ fsd) × (code ≤ fsd2fsdi fsd)
unfolding fsd2fsdi
fsd2fsdi_greatest fsd code h hc fits = (
  rw (capped (fsd2fsdi_loop 9 fsd) (loop-le 9 fsd (omega arith))) (loop_fits 9 fsd (omega arith) h),
  loop_greatest 9 fsd code (omega arith) (subst (λ (t : ℕ). t ≤ fsd) (capped code hc) fits),
)

fsci2fsc_bounds_below :
    (code : ℕ) → code ≤ 8 → (16 ≤ get_or fsc_lut code 0) × (get_or fsc_lut code 0 ≤ 256)
unfolding all_below
fsci2fsc_bounds_below code h =
    let checked =
      all_below_sound 9 (λ c. leb 16 (get_or fsc_lut c 0) && leb (get_or fsc_lut c 0) 256) code refl
        (omega arith) in
    ground arith

-- Whatever code a card sends, the frame size that is taken from it is from 16 to 256 bytes.
pub fsci2fsc_bounds : (code : ℕ) → (16 ≤ fsci2fsc code) × (fsci2fsc code ≤ 256)
unfolding fsci2fsc
fsci2fsc_bounds code = fsci2fsc_bounds_below (min code 8) (omega arith)

-- On the codes that the standard defines the two conversions are inverse to one another.
pub fsd2fsdi-fsci2fsc : (code : ℕ) → code ≤ 8 → fsd2fsdi (fsci2fsc code) ≡ code
unfolding fsd2fsdi fsci2fsc all_below
fsd2fsdi-fsci2fsc code h = table_eq 9 (λ c. fsd2fsdi (fsci2fsc c)) (λ c. c) refl code (omega arith)
