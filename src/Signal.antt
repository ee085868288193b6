-- ===== src/Signal.antt =====
-- The WebSocket signaling: internal/signaling/protocol, connection and websocket.
pub mod Protocol
pub mod Connection
pub mod Hub
pub mod Replies
pub mod Login
pub mod CallHandlers
pub mod Relay
pub mod Handlers
pub mod Scan
pub mod Reach
pub mod Delivery
pub mod Guards
pub mod Leaving
mod Tests
