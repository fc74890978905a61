-- ===== src/EventStore/Remove.antt =====
-- `removeEvent`: services/event-store.service.ts. The timer goes with the record that holds it.
use gateway_realtime.Common.{
  if◌then◌else◌, truthy, map_get, map_set, map_delete, map_keys, set_delete, nat_eq, string_eq, ℕ,
  String, Bool, true, false, ◌&&◌, not, Option, none, some, List, [], ◌∷◌, ◌++◌,
}
use gateway_realtime.EventRecord.{EventRecord}
use gateway_realtime.EventStore.State.{RemoveReason, by_applied, ExpiredNotice, Index, EventStore}

-- A user whose set becomes empty leaves the index.
unfoldable pub put_ids : ℕ → List String → Index → Index
put_ids user [] index = map_delete user index
put_ids user (x ∷ xs) index = map_set user (x ∷ xs) index

unfoldable pub unindex_found : String → ℕ → Option (List String) → Index → Index
unfolding put_ids
unindex_found event_id user none index = index
unindex_found event_id user (some ids) index = put_ids user (set_delete event_id ids) index

-- The loop over `event.userStatus.keys()`.
unfoldable pub unindex : String → List ℕ → Index → Index
unfolding unindex_found
unindex event_id [] index = index
unindex event_id (user ∷ users) index =
    unindex event_id users (unindex_found event_id user (map_get user index) index)

abbrev pub is_by_applied : RemoveReason → Bool
is_by_applied by_applied = true
is_by_applied _ = false

abbrev pub notice_of : RemoveReason → EventRecord → ExpiredNotice
notice_of reason r = record {
  event_id = r.event_id;
  event_name = r.event_name;
  sender_event_name = r.sender_event_name;
  reason = reason;
  sender_id = r.sender_id;
}

unfoldable pub feedback : RemoveReason → EventRecord → List ExpiredNotice
feedback reason r =
    if not (is_by_applied reason) && (r.notify_sender && truthy r.sender_id)
    then notice_of reason r ∷ []
    else []

unfoldable pub remove_found : String → RemoveReason → Option EventRecord → EventStore → EventStore
remove_found event_id reason none st = st
remove_found event_id reason (some r) st = record st {
  events = map_delete event_id st.events;
  user_events = unindex event_id (map_keys r.user_status) st.user_events;
  notices = st.notices ++ feedback reason r;
}

unfoldable pub remove_event : String → RemoveReason → EventStore → EventStore
unfolding remove_found
remove_event event_id reason st = remove_found event_id reason (map_get event_id st.events) st

-- Removals one after the other.
unfoldable pub remove_events : RemoveReason → List String → EventStore → EventStore
remove_events reason [] st = st
remove_events reason (event_id ∷ ids) st =
    remove_events reason ids (remove_event event_id reason st)
