-- ===== src/Bits.antt =====
-- Masks and fields of 32-bit words as arithmetic. A field is given by its shift and its width.
mod Step
pub mod Fields
pub mod Insert
pub mod Slots
pub use Step.{or-and, and-zero, and-le, and_comm, or_comm, bit_and_step, bit_or_step}
