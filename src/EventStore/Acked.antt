-- ===== src/EventStore/Acked.antt =====
-- An event that a user has acknowledged stays acknowledged: services/event-store.service.ts.
pub mod Keeps
pub mod Limits
pub mod History
use gateway_realtime.Common.{
  map_get, set_contains, nat_eq, string_eq, ℕ, String, ◌≡◌, Bool, true, false, Option, none, some,
}
use gateway_realtime.EventRecord.{EventRecord, get_user_status, is_applied}
use gateway_realtime.EventStore.State.{EventStore, index_of}

abbrev pub listed : ℕ → String → EventStore → Bool
listed user event_id st = set_contains event_id (index_of user st.user_events)

abbrev pub found_applied : ℕ → Option EventRecord → Bool
found_applied user none = false
found_applied user (some r) = is_applied (get_user_status user r)

-- If the index still has the event for the user, then as APPLIED.
abbrev pub Acked : ℕ → String → EventStore → Type 0
Acked user event_id st =
    listed user event_id st ≡ true → found_applied user (map_get event_id st.events) ≡ true

-- A change that lists the event for the user only if it was listed, and keeps it APPLIED then.
pub record KeepsAck (user : ℕ) (event_id : String) (st st' : EventStore) : Type 0 where
  pub unlisted : listed user event_id st' ≡ true → listed user event_id st ≡ true
  pub status :
      listed user event_id st' ≡ true
      → found_applied user (map_get event_id st.events) ≡ true
      → found_applied user (map_get event_id st'.events) ≡ true

pub KeepsAck-Acked :
    (user : ℕ) (event_id : String) (st st' : EventStore)
    → KeepsAck user event_id st st'
    → Acked user event_id st
    → Acked user event_id st'
KeepsAck-Acked user event_id st st' k a l = k.status l (a (k.unlisted l))

pub KeepsAck-refl : (user : ℕ) (event_id : String) (st : EventStore) → KeepsAck user event_id st st
KeepsAck-refl user event_id st = record { unlisted = λ l. l; status = λ l a. a }

pub KeepsAck-trans :
    (user : ℕ) (event_id : String) (st st₁ st₂ : EventStore)
    → KeepsAck user event_id st st₁
    → KeepsAck user event_id st₁ st₂
    → KeepsAck user event_id st st₂
KeepsAck-trans user event_id st st₁ st₂ k₁ k₂ = record {
  unlisted = λ l. k₁.unlisted (k₂.unlisted l);
  status = λ l a. k₂.status l (k₁.status (k₂.unlisted l) a);
}
