-- ===== src/Base/Bits.antt =====
-- Bit operations at variables: exclusive or as a group of involutions, masks as remainders, and
-- exclusive or of disjoint fields as a sum.
mod Step
mod Xor
mod Mask
pub use Xor.*
pub use Mask.*
