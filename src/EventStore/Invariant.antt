-- ===== src/EventStore/Invariant.antt =====
-- What holds of the two maps of the event store at every moment:
-- services/event-store.service.ts.
pub mod Changes
pub mod Eviction
pub mod Creation
use gateway_realtime.Common.{
  Distinct, Map, map_get, map_has, set_contains, nat_eq, string_eq, ℕ, String, ◌≡◌, Bool, true,
  false, Option, none, some,
}
use gateway_realtime.EventRecord.{EventRecord}
use gateway_realtime.EventStore.State.{Index, EventStore, index_of}

abbrev pub has_target : ℕ → Option EventRecord → Bool
has_target user none = false
has_target user (some r) = map_has user r.user_status

abbrev pub NamedAs : String → Option EventRecord → Type 0
NamedAs event_id none = Unit {0}
NamedAs event_id (some r) = r.event_id ≡ event_id

-- Every id that the index has for a user belongs to an event that has a status for that user; an
-- event is stored under its own id, and no id twice.
pub record Indexed (events : Map String EventRecord) (index : Index) : Type 0 where
  pub listed :
      (user : ℕ) (event_id : String)
      → set_contains event_id (index_of user index) ≡ true
      → has_target user (map_get event_id events) ≡ true
  pub named : (event_id : String) → NamedAs event_id (map_get event_id events)
  pub distinct : Distinct events

abbrev pub IsIndexed : EventStore → Type 0
IsIndexed st = Indexed st.events st.user_events
