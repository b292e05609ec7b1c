-- ===== src/Kerl.antt =====
-- common/crypto/kerl: the big integers behind the conversion of hashes for Keccak.
pub mod BigInt
pub mod Examples
