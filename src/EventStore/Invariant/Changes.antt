-- ===== src/EventStore/Invariant/Changes.antt =====
-- Changes of one event, and removals, keep the index right: services/event-store.service.ts.
use gateway_realtime.Common.{
  Bool-cases, contains-keys, delete-Distinct, update-Distinct, Map, map_option, map_get, map_delete,
  map_update, map_has, map_keys, get-set, get-delete, get-update, contains-delete, ◌==◌, nat_eq,
  string_eq, ℕ, String, ◌≡◌, refl, ◌∙◌, inl, inr, true, Option, none, some, List, [], ◌∷◌, arith,
  eq_iff,
}
use gateway_realtime.EventRecord.{
  EventStatus, delivered, failed, EventRecord, set_expiry_timer, set_user_status,
  increment_delivery_attempt, add_delivery_error,
}
use gateway_realtime.EventStore.Index.{index_of-unindex}
use gateway_realtime.EventStore.Invariant.{has_target, NamedAs, Indexed, IsIndexed}
use gateway_realtime.EventStore.Remove.{unindex, remove_found, remove_event, remove_events}
use gateway_realtime.EventStore.State.{RemoveReason, Index, EventStore, index_of}

-- A change that keeps the id of a record and every user of it.
pub record KeepsUsers (f : EventRecord → EventRecord) : Type 0 where
  pub same_id : (r : EventRecord) → (f r).event_id ≡ r.event_id
  pub users :
      (user : ℕ) (r : EventRecord)
      → map_has user r.user_status ≡ true
      → map_has user (f r).user_status ≡ true

has_target-option :
    (f : EventRecord → EventRecord) (k : KeepsUsers f) (user : ℕ) (found : Option EventRecord)
    → has_target user found ≡ true
    → has_target user (map_option f found) ≡ true
has_target-option f k user none h = h
has_target-option f k user (some r) h = k.users user r h

NamedAs-option :
    (f : EventRecord → EventRecord) (event_id : String) (found : Option EventRecord)
    → ((r : EventRecord) → (f r).event_id ≡ r.event_id)
    → NamedAs event_id found
    → NamedAs event_id (map_option f found)
NamedAs-option f event_id none same h = tt
NamedAs-option f event_id (some r) same h = same r ∙ h

pub update-named :
    (f : EventRecord → EventRecord) (event_id id : String) (events : Map String EventRecord)
    → ((r : EventRecord) → (f r).event_id ≡ r.event_id)
    → NamedAs id (map_get id events)
    → NamedAs id (map_get id (map_update event_id f events))
update-named f event_id id events same h = rw get-update (elim (Bool-cases (event_id == id)) [
  | inl hit ↦ rw hit (NamedAs-option f id (map_get id events) same h)
  | inr miss ↦ rw miss h
])

pub update-Indexed :
    (f : EventRecord → EventRecord) (event_id : String) (events : Map String EventRecord)
    (index : Index)
    → KeepsUsers f
    → Indexed events index
    → Indexed (map_update event_id f events) index
update-Indexed f event_id events index k v = record {
  listed = λ user id h.
      let found = map_get id events in
      let before = v.listed user id h in
      ground (arith, get-update id event_id f events, has_target-option f k user found);
  named = λ id. update-named f event_id id events k.same_id (v.named id);
  distinct = update-Distinct event_id f events v.distinct;
}

pub set_user_status-KeepsUsers :
    (user : ℕ) (status : EventStatus) → KeepsUsers (set_user_status user status)
unfolding set_user_status
set_user_status-KeepsUsers user status = record {
  same_id = λ r. refl;
  users = λ other r h. ground (arith, get-set other user status r.user_status);
}

pub delivered-KeepsUsers :
    (now user : ℕ)
    → KeepsUsers (λ r. increment_delivery_attempt now user (set_user_status user delivered r))
unfolding set_user_status increment_delivery_attempt
delivered-KeepsUsers now user = record {
  same_id = λ r. refl;
  users = λ other r h. ground (arith, get-set other user delivered r.user_status);
}

pub failed-KeepsUsers :
    (now user : ℕ) (error : String)
    → KeepsUsers (λ r.
      add_delivery_error user error
        (increment_delivery_attempt now user (set_user_status user failed r)))
unfolding set_user_status increment_delivery_attempt add_delivery_error
failed-KeepsUsers now user error = record {
  same_id = λ r. refl;
  users = λ other r h. ground (arith, get-set other user failed r.user_status);
}

pub timer-KeepsUsers : (due : ℕ) → KeepsUsers (set_expiry_timer due)
unfolding set_expiry_timer
timer-KeepsUsers due = record { same_id = λ r. refl; users = λ other r h. h }

remove-Indexed :
    (event_id : String) (r : EventRecord) (events : Map String EventRecord) (index : Index)
    → map_get event_id events ≡ some r
    → Indexed events index
    → Indexed (map_delete event_id events) (unindex event_id (map_keys r.user_status) index)
remove-Indexed event_id r events index e v = record {
  listed = λ user id h. ground (
    arith,
    v.listed user id,
    get-delete id event_id events,
    index_of-unindex event_id (map_keys r.user_status) user index,
    contains-keys user r.user_status,
    contains-delete id event_id (index_of user index),
    eq_iff event_id id,
  );
  named = λ id. rw get-delete (elim (Bool-cases (event_id == id)) [
    | inl same ↦ rw same tt
    | inr other ↦ rw other (v.named id)
  ]);
  distinct = delete-Distinct event_id events v.distinct;
}

remove_found-Indexed :
    (event_id : String) (reason : RemoveReason) (found : Option EventRecord) (st : EventStore)
    → map_get event_id st.events ≡ found
    → IsIndexed st
    → IsIndexed (remove_found event_id reason found st)
unfolding remove_found
remove_found-Indexed event_id reason none st e v = v
remove_found-Indexed event_id reason (some r) st e v =
    remove-Indexed event_id r st.events st.user_events e v

pub remove_event-IsIndexed :
    (event_id : String) (reason : RemoveReason) (st : EventStore)
    → IsIndexed st
    → IsIndexed (remove_event event_id reason st)
unfolding remove_event
remove_event-IsIndexed event_id reason st v =
    remove_found-Indexed event_id reason (map_get event_id st.events) st refl v

pub remove_events-IsIndexed :
    (reason : RemoveReason) (ids : List String) (st : EventStore)
    → IsIndexed st
    → IsIndexed (remove_events reason ids st)
unfolding remove_events
remove_events-IsIndexed reason [] st v = v
remove_events-IsIndexed reason (event_id ∷ ids) st v =
    remove_events-IsIndexed reason ids (remove_event event_id reason st)
      (remove_event-IsIndexed event_id reason st v)
