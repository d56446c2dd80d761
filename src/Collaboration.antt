-- ===== src/Collaboration.antt =====
-- internal/collaboration: channels, threads and messages. Model has the state, Config and
-- RepositoryIds what a channel inherits, Channels, Threads and Messages the operations.
pub mod Model
pub mod Config
pub mod RepositoryIds
pub mod Channels
pub mod Threads
pub mod Messages
pub mod Quiet
pub mod Outcomes
pub mod Ids
pub mod Calls
pub mod Invariant
mod Tests
