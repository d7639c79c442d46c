-- ===== src/Base/Bits.antt =====
-- `&`, `|` and `^` on words of any width, as arithmetic.
mod Low
mod Or
mod Xor
mod And
pub use Or.{bit_or-lt, le-bit_or_left, le-bit_or_right, bit_or_fields}
pub use Xor.{
  bit_xor-lt, bit_xor_fields, bit_xor_cancel, bit_xor_cancel_right, bit_xor-mod, bit_xor-zero,
}
pub use And.{bit_and_mask, bit_and-zero}
