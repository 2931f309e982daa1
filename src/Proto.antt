-- ===== src/Proto.antt =====
-- common/proto: the identifiers that the services share.
pub mod Vuid
