-- ===== src/Collaboration/Outcomes.antt =====
-- internal/collaboration: what the operations leave behind.
pub mod Granting
pub mod Finding
pub mod Creating
pub mod Patching
pub mod Repositories
pub mod Updating
pub mod Threading
pub mod Writing
