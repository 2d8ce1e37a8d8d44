-- ===== src/Storage.antt =====
-- neo/Storage/Common: the caches over the database.
pub mod DataCache
pub mod CloneCache
mod Tests
