-- ===== src/EventStore/Acked/Keeps.antt =====
-- Changes of one event and removals keep an acknowledgement: services/event-store.service.ts.
use gateway_realtime.Common.{
  Bool-cases, map_option, map_get, map_keys, get-set, get-update, contains-delete, ◌==◌, nat_eq,
  string_eq, ℕ, ◌+◌, String, ◌≡◌, refl, sym, ap, subst, inl, inr, true, false, Option, none, some,
  List, [], ◌∷◌, arith, eq_iff,
}
use gateway_realtime.EventRecord.{
  delivered, applied, EventRecord, get_user_status, set_user_status, increment_delivery_attempt,
  is_applied, is_all_applied,
}
use gateway_realtime.EventRecord.Laws.{get_user_status-set}
use gateway_realtime.EventStore.Acked.{
  listed, found_applied, Acked, KeepsAck, KeepsAck-Acked, KeepsAck-refl, KeepsAck-trans,
}
use gateway_realtime.EventStore.Index.{index_of-unindex}
use gateway_realtime.EventStore.Invariant.{IsIndexed}
use gateway_realtime.EventStore.Invariant.Changes.{
  update-Indexed, set_user_status-KeepsUsers, remove_event-IsIndexed,
}
use gateway_realtime.EventStore.Marks.{
  change_event, delivered_found, mark_delivered, applied_found, mark_applied,
}
use gateway_realtime.EventStore.Removal.{get-remove_event}
use gateway_realtime.EventStore.Remove.{remove_found, remove_event, remove_events}
use gateway_realtime.EventStore.State.{Stats, RemoveReason, by_applied, EventStore, index_of}

-- A change of one event that leaves the APPLIED status of the user, if it is this event.
pub update-KeepsAck :
    (user : ℕ) (id event_id : String) (f : EventRecord → EventRecord) (st : EventStore)
    (stats : Stats)
    → ((r : EventRecord)
        → event_id ≡ id
        → map_get id st.events ≡ some r
        → is_applied (get_user_status user r) ≡ true
        → is_applied (get_user_status user (f r)) ≡ true)
    → KeepsAck user id st (record (change_event event_id f st) { stats = stats })
update-KeepsAck user id event_id f st stats keep = record {
  unlisted = λ l. l;
  status = λ l a. rw get-update (elim (Bool-cases (event_id == id)) [
    | inl same ↦ rw same (go (map_get id st.events) refl ((eq_iff event_id id).0 same) a)
    | inr other ↦ rw other a
  ]);
}
  where
    go :
        (found : Option EventRecord)
        → map_get id st.events ≡ found
        → event_id ≡ id
        → found_applied user found ≡ true
        → found_applied user (map_option f found) ≡ true
    go none s e a = a
    go (some r) s e a = keep r e s a

listed-remove :
    (user : ℕ) (id event_id : String) (reason : RemoveReason) (found : Option EventRecord)
    (st : EventStore)
    → listed user id (remove_found event_id reason found st) ≡ true
    → listed user id st ≡ true
unfolding remove_found
listed-remove user id event_id reason none st l = l
listed-remove user id event_id reason (some r) st l = ground (
  arith,
  index_of-unindex event_id (map_keys r.user_status) user st.user_events,
  contains-delete id event_id (index_of user st.user_events),
)

pub remove_event-KeepsAck :
    (user : ℕ) (id event_id : String) (reason : RemoveReason) (st : EventStore)
    → IsIndexed st
    → KeepsAck user id st (remove_event event_id reason st)
remove_event-KeepsAck user id event_id reason st v =
    let after = remove_event-IsIndexed event_id reason st v in
    record {
      unlisted = λ l.
          unfold remove_event in
          listed-remove user id event_id reason (map_get event_id st.events) st l;
      status =
          λ l a. ground (arith, after.listed user id l, get-remove_event event_id id reason st);
    }

pub remove_events-KeepsAck :
    (user : ℕ) (id : String) (reason : RemoveReason) (ids : List String) (st : EventStore)
    → IsIndexed st
    → KeepsAck user id st (remove_events reason ids st)
unfolding remove_events
remove_events-KeepsAck user id reason [] st v = KeepsAck-refl user id st
remove_events-KeepsAck user id reason (x ∷ ids) st v =
    KeepsAck-trans user id st (remove_event x reason st) _
      (remove_event-KeepsAck user id x reason st v)
      (remove_events-KeepsAck user id reason ids (remove_event x reason st)
        (remove_event-IsIndexed x reason st v))

delivered_keeps :
    (user other now : ℕ) (r : EventRecord)
    → is_applied (get_user_status other r) ≡ false
    → is_applied (get_user_status user r) ≡ true
    → is_applied (
        get_user_status user
          (increment_delivery_attempt now other (set_user_status other delivered r)))
      ≡ true
unfolding get_user_status set_user_status increment_delivery_attempt
delivered_keeps user other now r open_yet a =
    ground (arith, get-set user other delivered r.user_status)

-- `markDelivered` leaves an event alone that the user has acknowledged.
pub mark_delivered-KeepsAck :
    (user : ℕ) (id : String) (now other : ℕ) (event_id : String) (st : EventStore)
    → KeepsAck user id st (mark_delivered now other event_id st)
unfolding mark_delivered
mark_delivered-KeepsAck user id now other event_id st = go (map_get event_id st.events) refl
  where
    go :
        (found : Option EventRecord)
        → map_get event_id st.events ≡ found
        → KeepsAck user id st (delivered_found now other event_id found st)
    go none e = unfold delivered_found in KeepsAck-refl user id st
    go (some r) e = elim (Bool-cases (is_applied (get_user_status other r))) [
      | inl done ↦ unfold delivered_found in rw done (KeepsAck-refl user id st)
      | inr open_yet ↦
          unfold delivered_found in
          rw open_yet (
            update-KeepsAck user id event_id _ st _ (λ r' same e' a.
              let one : r' ≡ r = ground (arith, ap (λ j. map_get j st.events) same, e, e') in
              delivered_keeps user other now r'
                (subst (λ x. is_applied (get_user_status other x) ≡ false) (sym one) open_yet) a))
    ]

set_applied-keeps :
    (user other : ℕ) (r : EventRecord)
    → is_applied (get_user_status user r) ≡ true
    → is_applied (get_user_status user (set_user_status other applied r)) ≡ true
set_applied-keeps user other r a = ground (arith, get_user_status-set other user applied r)

pub mark_applied-KeepsAck :
    (user : ℕ) (id : String) (other : ℕ) (event_id : String) (st : EventStore)
    → IsIndexed st
    → KeepsAck user id st (mark_applied other event_id st)
unfolding mark_applied
mark_applied-KeepsAck user id other event_id st v = go (map_get event_id st.events)
  where
    stats : Stats
    stats = record st.stats { total_events_applied = st.stats.total_events_applied + 1 }

    st' : EventStore
    st' = record (change_event event_id (set_user_status other applied) st) { stats = stats }

    first : KeepsAck user id st st'
    first =
        update-KeepsAck user id event_id (set_user_status other applied) st stats
          (λ r same e a. set_applied-keeps user other r a)

    v' : IsIndexed st'
    v' =
        update-Indexed (set_user_status other applied) event_id st.events st.user_events
          (set_user_status-KeepsUsers other applied) v

    go : (found : Option EventRecord) → KeepsAck user id st (applied_found other event_id found st)
    go none = unfold applied_found in KeepsAck-refl user id st
    go (some r) = elim (Bool-cases (is_all_applied (set_user_status other applied r))) [
      | inl done ↦
          unfold applied_found in
          rw done (
            KeepsAck-trans user id st st' (remove_event event_id by_applied st') first
              (remove_event-KeepsAck user id event_id by_applied st' v'))
      | inr more ↦ unfold applied_found in rw more first
    ]

-- An acknowledgement makes it so.
pub mark_applied-Acked :
    (user : ℕ) (id : String) (st : EventStore)
    → IsIndexed st
    → Acked user id (mark_applied user id st)
unfolding mark_applied
mark_applied-Acked user id st v = go (map_get id st.events) refl
  where
    stats : Stats
    stats = record st.stats { total_events_applied = st.stats.total_events_applied + 1 }

    st' : EventStore
    st' = record (change_event id (set_user_status user applied) st) { stats = stats }

    v' : IsIndexed st'
    v' =
        update-Indexed (set_user_status user applied) id st.events st.user_events
          (set_user_status-KeepsUsers user applied) v

    go :
        (found : Option EventRecord)
        → map_get id st.events ≡ found
        → Acked user id (applied_found user id found st)
    go none e = unfold applied_found in λ l. absurd (ground (arith, v.listed user id l, e))
    go (some r) e =
        let now_applied : Acked user id st' = λ l. ground (
          arith,
          get-update id id (set_user_status user applied) st.events,
          eq_iff id id,
          e,
          get_user_status-set user user applied r,
        ) in
        elim (Bool-cases (is_all_applied (set_user_status user applied r))) [
          | inl done ↦
              unfold applied_found in
              rw done (
                KeepsAck-Acked user id st' (remove_event id by_applied st')
                  (remove_event-KeepsAck user id id by_applied st' v') now_applied)
          | inr more ↦ unfold applied_found in rw more now_applied
        ]
