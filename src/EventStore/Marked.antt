-- ===== src/EventStore/Marked.antt =====
-- The three marks as changes of one event: services/event-store.service.ts.
use gateway_realtime.Common.{
  Bool-cases, map_get, length-update, length, nat_eq, string_eq, ℕ, ◌≤◌, String, inl, inr, Option,
  none, some, arith,
}
use gateway_realtime.EventRecord.{
  applied, EventRecord, get_user_status, set_user_status, is_applied, is_failed, is_all_applied,
}
use gateway_realtime.EventStore.Invariant.{IsIndexed}
use gateway_realtime.EventStore.Invariant.Changes.{
  KeepsUsers, update-Indexed, set_user_status-KeepsUsers, delivered-KeepsUsers, failed-KeepsUsers,
  remove_event-IsIndexed,
}
use gateway_realtime.EventStore.Marks.{
  change_event, delivered_found, mark_delivered, failed_found, mark_failed, applied_found,
  mark_applied,
}
use gateway_realtime.EventStore.Removal.{length-remove_event-le}
use gateway_realtime.EventStore.Remove.{remove_event}
use gateway_realtime.EventStore.State.{Stats, by_applied, EventStore}

-- What a mark does to the two maps: nothing, a change of the event, or a change and the removal.
pub data Marking (event_id : String) (st : EventStore) : EventStore → Type 0 where
  unmarked : Marking event_id st st
  marked :
      (f : EventRecord → EventRecord) (stats : Stats)
      → KeepsUsers f
      → Marking event_id st (record (change_event event_id f st) { stats = stats })
  marked_done :
      (f : EventRecord → EventRecord) (stats : Stats)
      → KeepsUsers f
      → Marking event_id st
          (remove_event event_id by_applied (record (change_event event_id f st) { stats = stats }))

pub mark_delivered-Marking :
    (now user : ℕ) (event_id : String) (st : EventStore)
    → Marking event_id st (mark_delivered now user event_id st)
unfolding mark_delivered
mark_delivered-Marking now user event_id st = go (map_get event_id st.events)
  where
    go :
        (found : Option EventRecord)
        → Marking event_id st (delivered_found now user event_id found st)
    go none = unfold delivered_found in unmarked
    go (some r) = elim (Bool-cases (is_applied (get_user_status user r))) [
      | inl done ↦ unfold delivered_found in rw done unmarked
      | inr open_yet ↦
          unfold delivered_found in rw open_yet (marked _ _ (delivered-KeepsUsers now user))
    ]

pub mark_failed-Marking :
    (now user : ℕ) (event_id error : String) (st : EventStore)
    → Marking event_id st (mark_failed now user event_id error st)
unfolding mark_failed
mark_failed-Marking now user event_id error st = go (map_get event_id st.events)
  where
    go :
        (found : Option EventRecord)
        → Marking event_id st (failed_found now user event_id error found st)
    go none = unfold failed_found in unmarked
    go (some r) = elim (Bool-cases (is_failed (get_user_status user r))) [
      | inl done ↦ unfold failed_found in rw done unmarked
      | inr open_yet ↦
          unfold failed_found in rw open_yet (marked _ _ (failed-KeepsUsers now user error))
    ]

pub mark_applied-Marking :
    (user : ℕ) (event_id : String) (st : EventStore)
    → Marking event_id st (mark_applied user event_id st)
unfolding mark_applied
mark_applied-Marking user event_id st = go (map_get event_id st.events)
  where
    go : (found : Option EventRecord) → Marking event_id st (applied_found user event_id found st)
    go none = unfold applied_found in unmarked
    go (some r) = elim (Bool-cases (is_all_applied (set_user_status user applied r))) [
      | inl done ↦
          unfold applied_found in
          rw done (marked_done _ _ (set_user_status-KeepsUsers user applied))
      | inr more ↦
          unfold applied_found in rw more (marked _ _ (set_user_status-KeepsUsers user applied))
    ]

pub Marking-IsIndexed :
    (event_id : String) (st st' : EventStore)
    → Marking event_id st st'
    → IsIndexed st
    → IsIndexed st'
Marking-IsIndexed event_id st st' unmarked v = v
Marking-IsIndexed event_id st st' (marked f stats k) v =
    update-Indexed f event_id st.events st.user_events k v
Marking-IsIndexed event_id st st' (marked_done f stats k) v =
    remove_event-IsIndexed event_id by_applied
      (record (change_event event_id f st) { stats = stats })
      (update-Indexed f event_id st.events st.user_events k v)

pub length-Marking :
    (event_id : String) (st st' : EventStore)
    → Marking event_id st st'
    → length st'.events ≤ length st.events
length-Marking event_id st st' unmarked = omega arith
length-Marking event_id st st' (marked f stats k) =
    omega (arith, length-update event_id f st.events)
length-Marking event_id st st' (marked_done f stats k) = omega (
  arith,
  length-update event_id f st.events,
  length-remove_event-le event_id by_applied
      (record (change_event event_id f st) { stats = stats }),
)
