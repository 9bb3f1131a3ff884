-- ===== src/Query.antt =====
-- application/: the results of queries.
pub mod Selection
pub mod Escaping
pub mod Copying
pub mod Bounds
mod Tests
