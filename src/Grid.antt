-- ===== src/Grid.antt =====
-- application/grid_session.rs and its modules: the data grid of a table.
pub mod Types
pub mod Drafts
pub mod Changes
pub mod Selection
pub mod Page
pub mod Plan
pub mod Session
mod Tests
