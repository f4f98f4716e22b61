-- ===== src/Bits.antt =====
-- Laws of `&`, `|`, `^`, shifts and casts at variables, by binary digits.
mod Step
mod Testbit
mod Xor
mod Mask
pub use Testbit.*
pub use Xor.*
unfoldable pub use Mask.{all_below}
pub use Mask.*
