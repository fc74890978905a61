-- ===== src/Events.antt =====
-- The events that clients send: websocket/events.
pub mod Classes
pub mod Helpers
pub mod State
pub mod Receivers
pub mod Dispatch
pub mod Payload
pub mod Execute
pub mod Binary
pub mod Tenant
pub mod Qossing
mod Examples
