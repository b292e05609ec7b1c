-- ===== src/Trinary.antt =====
-- common/trinary: trits, and the numbers and codes that sequences of trits stand for.
pub mod Trit
pub mod Long
pub mod Bytes
pub mod Trytes
pub mod Add
pub mod Examples
