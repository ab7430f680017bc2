-- ===== src/Bits.antt =====
-- Laws of the bit operations of C at variables, at every width.
mod Step
mod Fields
mod Tables
pub mod Xor
pub mod Binary
pub use Step.{bit_or_step, bit_and_step, bit_xor_step, zero-bit_xor}
pub use Fields.{mul-two-pow-suc, bit_or_comm, bit_or_fields, bit_and_mask, bit_and_one}
unfoldable pub use Tables.*
