-- ===== src/Access.antt =====
-- access and api/access: where the pieces of a file are, and how a location is written, signed and read.
pub mod Outcome
pub mod Location
pub mod Codec
pub mod Sign
pub mod Ranges
