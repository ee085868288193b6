-- ===== src/Call.antt =====
-- The call runtime, internal/call: the calls, the store that holds them and the service.
pub mod Types
pub mod Store
pub mod Creation
pub mod Edits
pub mod Service
pub mod Roster
pub mod Actions
pub mod Lifecycle
pub mod Validity
pub mod Atomic
pub mod Users
pub mod Index
pub mod Effects
pub mod Reach
pub mod Sound
pub mod Answers
pub mod Outcome
pub mod Created
pub mod Orchestrator
mod Tests
