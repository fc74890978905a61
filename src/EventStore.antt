-- ===== src/EventStore.antt =====
-- The event store: src/modules/websocket/services/event-store.service.ts.
pub mod State
pub mod Remove
pub mod Limits
pub mod Stats
pub mod Create
pub mod Marks
pub mod Queries
pub mod Cleanup
pub mod Index
pub mod Invariant
pub mod Removal
pub mod ForceOut
pub mod Marked
pub mod Bound
pub mod Steps
pub mod Acked
pub mod Sample
mod Examples
pub mod SortedIds
pub mod Delivery
pub mod Pending
pub mod Forced
pub mod PerUser
pub mod Due
pub mod Listed
pub mod Exact
