-- ===== src/Float.antt =====
-- Python's `float`, which the program computes with and does not implement: a type with the
-- operations that the source uses. Their rounding is not modelled. `IsOrdered` and `IsArith` are what
-- IEEE 754 arithmetic, rounding included, satisfies on finite values as long as nothing overflows.
pub mod Order
pub mod Fixed
unfoldable pub use Order.*
