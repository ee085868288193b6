-- ===== src/Push.antt =====
-- Push messages: internal/domain, internal/service/message.go, internal/repository and
-- internal/queue/worker.go.
pub mod Types
pub mod Select
pub mod Validate
pub mod Tables
pub mod Devices
pub mod Registration
pub mod Send
pub mod Calls
pub mod Worker
mod Tests
