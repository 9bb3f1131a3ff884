-- ===== src/Mcp.antt =====
-- mcp_runtime/: the service that runs the MCP sidecar.
pub mod State
pub mod Termination
pub mod Steps
pub mod Owners
pub mod Unlocked
pub mod Invariant
pub mod Signals
pub mod Ends
pub mod Records
pub mod Reachable
pub mod Reaper
mod Tests
