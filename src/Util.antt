-- ===== src/Util.antt =====
-- src/util: serialization and the bounded set.
pub mod Serialization
pub mod CacheSet
mod Examples
