-- ===== src/Decimal.antt =====
-- Python's `decimal.Decimal` under the default context: 28 significant digits, rounded half to
-- even. A finite number is coeff * 10 ^ -scale; two representations of one value are `==`, so that
-- all tests go by the value. Comparisons are exact, and every operation rounds its exact result.
mod Defs
pub mod Order
pub mod Sign
mod Tests
unfoldable pub use Defs.*
