-- ===== src/Mam.antt =====
-- mam: the masked authenticated messaging protocol; its trits, the sponge in overwrite mode that
-- hashes, encrypts and authenticates them, and the encoding of its messages.
pub mod Trits
pub mod Spongos
pub mod Sponge
pub mod Trints
pub mod SizeT
pub mod Pb3
pub mod Buffers
pub mod Examples
