-- ===== src/Watchtower.antt =====
-- The watchtower of the atomizer architecture, src/uhs/atomizer/watchtower.
pub mod BlockCache
pub mod ErrorCache
pub mod Service
