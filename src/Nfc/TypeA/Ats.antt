-- ===== src/Nfc/TypeA/Ats.antt =====
-- The answer to select: what a card announces in it, and what the driver reads out of it.
use nfcee_fw.Base.{
  ℕ, ◌+◌, ◌*◌, ◌/◌, ◌%◌, ◌^◌, ◌≤◌, ◌<◌, ◌≡◌, refl, ◌∙◌, arith, Bool, true, false, Option, none,
  some, List, [], ◌∷◌, ◌++◌, bit_and, lt→ltb,
}
use nfcee_fw.Bits.{bit_and-mask, table_eq, all_below}
use nfcee_fw.Nfc.{Driver, Device}
use nfcee_fw.Nfc.Tables.{fsci2fsc, fwi2fw}
use nfcee_fw.Nfc.TypeA.{apply_ats}

-- The answer by its meaning: its length, the code of the frame size, the byte TA with the bit rates, the
-- byte TB with the code of the waiting time above a nibble, and whether the byte TC follows.
pub record Ats : Type 0 where
  pub tl : ℕ
  pub fsci : ℕ
  pub ta : Option ℕ
  pub tb : Option (ℕ × ℕ)
  pub has_tc : Bool

abbrev pub flag : Bool → ℕ
flag true = 1
flag false = 0

abbrev pub is_some {ℓ} : {A : Type ℓ} → Option A → Bool
is_some none = false
is_some (some a) = true

-- The format byte.
abbrev pub format_byte : Ats → ℕ
format_byte a = a.fsci + 16 * flag (is_some a.ta) + 32 * flag (is_some a.tb) + 64 * flag a.has_tc

abbrev pub ta_bytes : Option ℕ → List ℕ
ta_bytes none = []
ta_bytes (some b) = b ∷ []

abbrev pub tb_bytes : Option (ℕ × ℕ) → List ℕ
tb_bytes none = []
tb_bytes (some (fwi, sfgi)) = (fwi * 16 + sfgi) ∷ []

-- The bytes of the answer up to TB, and those behind it.
abbrev pub ats_bytes : Ats → List ℕ → List ℕ
ats_bytes a rest = a.tl ∷ format_byte a ∷ (ta_bytes a.ta ++ (tb_bytes a.tb ++ rest))

abbrev IsNibble : Option (ℕ × ℕ) → Type 0
IsNibble none = Unit
IsNibble (some (fwi, sfgi)) = sfgi < 16

pub record IsAts (a : Ats) : Type 0 where
  pub with_format : 1 < a.tl
  pub small_code : a.fsci < 16
  pub small_guard : IsNibble a.tb

-- Without TB the standard's default is 4; the driver takes 8.
abbrev pub announced_fwi : Option (ℕ × ℕ) → ℕ
announced_fwi none = 8
announced_fwi (some (fwi, sfgi)) = fwi

bit_4 : (n : ℕ) → n < 128 → bit_and n 0x10 ≡ n / 16 % 2 * 16
unfolding all_below
bit_4 = table_eq 128 (λ n. bit_and n 0x10) (λ n. n / 16 % 2 * 16) refl

bit_5 : (n : ℕ) → n < 128 → bit_and n 0x20 ≡ n / 32 % 2 * 32
unfolding all_below
bit_5 = table_eq 128 (λ n. bit_and n 0x20) (λ n. n / 32 % 2 * 32) refl

-- What the driver reads from the format byte.
pub record IsFormat (a : Ats) (t0 : ℕ) : Type 0 where
  pub code : bit_and t0 0x0F ≡ a.fsci
  pub ta_bit : bit_and t0 0x10 ≡ 16 * flag (is_some a.ta)
  pub tb_bit : bit_and t0 0x20 ≡ 32 * flag (is_some a.tb)

flag-le-one : (b : Bool) → flag b ≤ 1
flag-le-one true = omega arith
flag-le-one false = omega arith

format_byte-IsFormat : (a : Ats) → a.fsci < 16 → IsFormat a (format_byte a)
format_byte-IsFormat a h =
    let x = flag-le-one (is_some a.ta) in
    let y = flag-le-one (is_some a.tb) in
    let z = flag-le-one a.has_tc in
    record {
      code = bit_and-mask 4 (format_byte a) ∙ omega arith;
      ta_bit = bit_4 (format_byte a) (omega arith) ∙ omega arith;
      tb_bit = bit_5 (format_byte a) (omega arith) ∙ omega arith;
    }

abbrev pub with_ats : Driver → Ats → List ℕ → Driver
with_ats d a rest = record d { ats = ats_bytes a rest }

abbrev pub announced : Driver → Ats → List ℕ → Driver
announced d a rest = record (with_ats d a rest) {
  fsc = fsci2fsc a.fsci;
  fwt = fwi2fw (announced_fwi a.tb);
}

reads_parts :
    {W : Type 0} (dev : Device W) (tl fsci : ℕ) (ta : Option ℕ) (tb : Option (ℕ × ℕ)) (tc : Bool)
    (d : Driver) (rest : List ℕ)
    → let a : Ats = record { tl = tl; fsci = fsci; ta = ta; tb = tb; has_tc = tc } in
      1 < tl
      → fsci < 16
      → IsNibble tb
      → IsFormat a (format_byte a)
      → apply_ats dev (with_ats d a rest) ≡ announced d a rest
unfolding apply_ats
reads_parts dev tl fsci none none tc d rest long small guard f =
    rw (lt→ltb 1 tl long, f.code, f.ta_bit, f.tb_bit) refl
reads_parts dev tl fsci (some x) none tc d rest long small guard f =
    rw (lt→ltb 1 tl long, f.code, f.ta_bit, f.tb_bit) refl
reads_parts dev tl fsci none (some (fwi, sfgi)) tc d rest long small guard f =
    let upper : (fwi * 16 + sfgi) / 2 ^ 4 ≡ fwi = omega arith in
    rw (lt→ltb 1 tl long, f.code, f.ta_bit, f.tb_bit) (rw upper refl)
reads_parts dev tl fsci (some x) (some (fwi, sfgi)) tc d rest long small guard f =
    let upper : (fwi * 16 + sfgi) / 2 ^ 4 ≡ fwi = omega arith in
    rw (lt→ltb 1 tl long, f.code, f.ta_bit, f.tb_bit) (rw upper refl)

-- From an answer to select with a format byte the driver takes exactly the frame size and the waiting
-- time that the card announces, whether or not the bytes TA and TC are there, and the code 8 where the
-- byte TB is missing; nothing else of the driver changes.
pub apply_ats-reads :
    {W : Type 0} (dev : Device W) (a : Ats) (d : Driver) (rest : List ℕ)
    → IsAts a
    → apply_ats dev (with_ats d a rest) ≡ announced d a rest
apply_ats-reads dev a d rest h =
    reads_parts dev a.tl a.fsci a.ta a.tb a.has_tc d rest h.with_format h.small_code h.small_guard
      (format_byte-IsFormat a h.small_code)
