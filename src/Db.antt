-- ===== src/Db.antt =====
-- db/: the seven engines, and SQL scripts.
pub mod Engine
pub mod Script
