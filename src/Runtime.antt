-- ===== src/Runtime.antt =====
-- The runtime service, procri/pkg/runtimeservice.
pub mod Container
pub mod Sandbox
pub mod Records
pub mod Types
pub mod Duration
pub mod Terminate
pub mod Create
pub mod Start
pub mod Stop
pub mod Pods
pub mod Listing
pub mod Exec
pub mod Info
pub mod Stats
pub mod LogPipe
pub mod Version
pub mod Service
pub mod Overlap
mod Tests
