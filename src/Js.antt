-- ===== src/Js.antt =====
-- What the source uses of JavaScript's standard library.
pub mod Hex
pub mod Text
pub mod BigInt
pub mod Json
pub mod Uri
pub mod Decimal
