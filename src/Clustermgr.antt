-- ===== src/Clustermgr.antt =====
-- clustermgr: the volume manager.
pub mod Token
pub mod Volume
pub mod Idle
pub mod Allocator
pub mod Sharded
pub mod VolumeMgr
pub mod Units
pub mod ScopeMgr
