-- ===== src/Gpio/Locals.antt =====
-- The locals of `_gpio_lld_setportmode` from one round to the next.
use native.Mathlib.Nat.{pow-succ'}
use native.Mathlib.Numerals.{add-one}
use nfcee_fw.Base.{ℕ, suc, ◌+◌, ◌*◌, ◌/◌, ◌%◌, ◌^◌, ◌<◌, ◌≡◌, refl, ap, arith}
use nfcee_fw.Word.{u32}
use nfcee_fw.Gpio.{shl32, fields_of, next_fields}
use nfcee_fw.Gpio.BitFields.{field_value}
use nfcee_fw.Gpio.Mode.{Mode, mode_of, fields_at}

times_pow_next : (v s : ℕ) → v * 2 ^ suc s ≡ v * 2 ^ s * 2
times_pow_next v s = omega (arith, ap (λ (t : ℕ). v * t) (pow-succ' 2 s))

double_wrapped : (x y : ℕ) → y ≡ x * 2 → x % 2 ^ 32 * 2 ^ 1 % 2 ^ 32 ≡ y % 2 ^ 32
double_wrapped x y h = omega arith

shift_by_one : (v b : ℕ) → shl32 (shl32 v b) 1 ≡ shl32 v (b + 1)
shift_by_one v b = rw (add-one b) (double_wrapped (v * 2 ^ b) (v * 2 ^ suc b) (times_pow_next v b))

shift_by_two : (v b : ℕ) → shl32 (shl32 v (b * 2)) 2 ≡ shl32 v ((b + 1) * 2)
shift_by_two v b =
    let next : (b + 1) * 2 ≡ suc (suc (b * 2)) = omega arith in
    rw next (
      quadruple (v * 2 ^ (b * 2)) (v * 2 ^ suc (suc (b * 2)))
        (omega (arith, times_pow_next v (suc (b * 2)), times_pow_next v (b * 2))))
  where
    quadruple : (x y : ℕ) → y ≡ x * 4 → x % 2 ^ 32 * 2 ^ 2 % 2 ^ 32 ≡ y % 2 ^ 32
    quadruple x y h = omega arith

pub next_fields-at : (m : Mode) (b : ℕ) → b < 16 → next_fields (fields_at m b) ≡ fields_at m (b + 1)
unfolding next_fields
next_fields-at m b h =
    let number : u32 (b + 1) ≡ b + 1 = omega arith in
    rw
      (
        shift_by_two m.m_moder b,
        shift_by_one m.m_otyper b,
        shift_by_two m.m_ospeedr b,
        shift_by_two m.m_pupdr b,
        number,
      )
      refl

at_zero : (v : ℕ) → v < 16 → shl32 v 0 ≡ v
at_zero v h = omega arith

pub fields_of-at : (mode : ℕ) → fields_of mode ≡ fields_at (mode_of mode) 0
unfolding fields_of
fields_of-at mode =
    let lowest : mode / 2 ^ 0 % 2 ^ 2 ≡ mode % 4 = omega arith in
    rw
      (
        field_value 2 0 mode,
        field_value 1 2 mode,
        field_value 2 3 mode,
        field_value 2 5 mode,
        lowest,
        at_zero (mode % 4) (omega arith),
        at_zero (mode / 4 % 2) (omega arith),
        at_zero (mode / 8 % 4) (omega arith),
        at_zero (mode / 32 % 4) (omega arith),
      )
      refl
