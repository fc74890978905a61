-- ===== src/EventStore/Exact.antt =====
-- The index is exactly the users of the events: services/event-store.service.ts.
use gateway_realtime.Common.{
  ltb, leb, nat_beq, nat_beq_iff, Bool-cases, Option-cases, or_default, truthy, map_get, get-set,
  set_contains, length, string_eq, nat_eq, ℕ, ◌+◌, String, ◌≡◌, sym, ap, ◌∙◌, subst, inl, inr, true,
  Option, none, some, List, arith, eq_iff,
}
use gateway_realtime.EventRecord.{
  EventStatus, delivered, applied, failed, Qos, EventRecord, set_expiry_timer, get_user_status,
  set_user_status, increment_delivery_attempt, add_delivery_error, is_applied, is_failed,
  is_all_applied,
}
use gateway_realtime.EventStore.Cleanup.{
  expired_ids, cleanup_expired_events, cleanup_stale_delivered, cleanup,
}
use gateway_realtime.EventStore.Cleanup.Laws.{get-stale_events, has_target-stale}
use gateway_realtime.EventStore.Create.{
  CreateOptions, new_record, add_targets, enforce_limits, make_room, insert_event, schedule_expiry,
  count_created, create, found_expired, expiry_fired,
}
use gateway_realtime.EventStore.Index.{contains-index_targets, has-add_targets}
use gateway_realtime.EventStore.Invariant.{has_target, IsIndexed}
use gateway_realtime.EventStore.Limits.{ids_of, to_force_out, force_cleanup, enforce_memory_limits}
use gateway_realtime.EventStore.Listed.{
  IsCovered, AddsListed, update-Covered, remove_event-Covered, remove_events-Covered, some_inj,
  enforce_limits-IsCovered,
}
use gateway_realtime.EventStore.Marks.{
  delivered_found, mark_delivered, failed_found, mark_failed, applied_found, mark_applied,
}
use gateway_realtime.EventStore.State.{
  StoreConfig, by_applied, by_expired, by_force, Index, EventStore, empty_store, index_of,
}
use gateway_realtime.EventStore.Stats.{update_stats}
use gateway_realtime.EventStore.Steps.{
  Step, creates, delivers, fails, applies, expires, cleans, Reach, starts, next, Reach-IsIndexed,
}
use gateway_realtime.Json.{Fields}

insert-IsCovered :
    (now : ℕ) (event_id : String) (targets : List ℕ) (event_name : String) (payload : Fields)
    (qos : Qos) (options : CreateOptions) (st : EventStore)
    → IsCovered st
    → IsCovered (insert_event now event_id targets event_name payload qos options st)
unfolding insert_event new_record map_get
insert-IsCovered now event_id targets event_name payload qos options st c user id h =
    let r = new_record event_id event_name payload qos now options in
    let new = add_targets now targets r in
    ground (
      arith,
      c user id,
      contains-index_targets event_id id targets user st.user_events,
      has-add_targets now targets user r,
      get-set id event_id new st.events,
      eq_iff event_id id,
      h,
    )

schedule-IsCovered :
    (now : ℕ) (event_id : String) (ttl : Option ℕ) (st : EventStore)
    → IsCovered st
    → IsCovered (schedule_expiry now event_id ttl st)
unfolding schedule_expiry set_expiry_timer
schedule-IsCovered now event_id ttl st c = elim (Bool-cases (truthy ttl)) [
  | inl set ↦ rw set (
      update-Covered (set_expiry_timer (now + or_default ttl 0)) event_id st.events st.user_events
        (λ user r h. inl h) c)
  | inr unset ↦ rw unset c
]

make_room-IsCovered :
    (config : StoreConfig) (st : EventStore) → IsCovered st → IsCovered (make_room config st)
unfolding make_room force_cleanup
make_room-IsCovered config st c =
    let ids = ids_of (to_force_out config.max_events_total st.events) in
    elim (Bool-cases (leb config.max_events_total (length st.events))) [
      | inl full ↦ rw full (remove_events-Covered by_force ids st c)
      | inr room ↦ rw room c
    ]

create-IsCovered :
    (config : StoreConfig) (now : ℕ) (event_id : String) (targets : List ℕ) (event_name : String)
    (payload : Fields) (qos : Qos) (options : CreateOptions) (st st' : EventStore)
    → IsCovered st
    → create config now event_id targets event_name payload qos options st ≡ some st'
    → IsCovered st'
unfolding create count_created update_stats
create-IsCovered config now event_id targets event_name payload qos options st st' c e =
    let start =
      insert_event now event_id targets event_name payload qos options (make_room config st) in
    let start_c =
      insert-IsCovered now event_id targets event_name payload qos options (make_room config st)
        (make_room-IsCovered config st c) in
    elim (Option-cases (enforce_limits config now targets start)) [
      | inl q ↦ absurd (cc (rw q at e))
      | inr (limited, q) ↦ subst IsCovered (some_inj _ st' (rw q at e)) (
          schedule-IsCovered now event_id options.ttl limited
            (enforce_limits-IsCovered config now targets start limited start_c q))
    ]

stale-IsCovered :
    (config : StoreConfig) (now : ℕ) (st : EventStore)
    → IsCovered st
    → IsCovered (cleanup_stale_delivered config now st)
unfolding cleanup_stale_delivered
stale-IsCovered config now st c user id h = c user id (
    sym (
      ap (has_target user) (get-stale_events config now id st.events)
      ∙ has_target-stale config now user (map_get id st.events))
    ∙ h)

cleanup-IsCovered :
    (config : StoreConfig) (now : ℕ) (st : EventStore)
    → IsCovered st
    → IsCovered (cleanup config now st)
unfolding cleanup cleanup_expired_events enforce_memory_limits force_cleanup
cleanup-IsCovered config now st c =
    let st1 = cleanup_expired_events now st in
    let c1 : IsCovered st1 = remove_events-Covered by_expired (expired_ids now st.events) st c in
    let st2 = cleanup_stale_delivered config now st1 in
    let c2 = stale-IsCovered config now st1 c1 in
    let ids = ids_of (to_force_out config.max_events_total st2.events) in
    elim (Bool-cases (ltb config.max_events_total (length st2.events))) [
      | inl over ↦ rw over (remove_events-Covered by_force ids st2 c2)
      | inr fits ↦ rw fits c2
    ]

expiry_fired-IsCovered :
    (now : ℕ) (event_id : String) (st : EventStore)
    → IsCovered st
    → IsCovered (expiry_fired now event_id st)
unfolding expiry_fired
expiry_fired-IsCovered now event_id st c =
    elim (Bool-cases (found_expired now (map_get event_id st.events))) [
      | inl over ↦ rw over (remove_event-Covered event_id by_expired st c)
      | inr fresh ↦ rw fresh c
    ]

-- A change of the status of a user who has the event in the index.
AddsListed-set_user_status :
    (user : ℕ) (status : EventStatus) (event_id : String) (index : Index)
    → set_contains event_id (index_of user index) ≡ true
    → AddsListed (set_user_status user status) event_id index
unfolding set_user_status
AddsListed-set_user_status user status event_id index l other r h =
    elim (Bool-cases (nat_beq user other)) [
      | inl same ↦ inr (
          subst (λ u. set_contains event_id (index_of u index) ≡ true)
            ((nat_beq_iff user other).0 same) l)
      | inr differs ↦ inl (ground (arith, get-set other user status r.user_status, differs, h))
    ]

delivered_found-IsCovered :
    (now user : ℕ) (event_id : String) (found : Option EventRecord) (st : EventStore)
    → set_contains event_id (index_of user st.user_events) ≡ true
    → IsCovered st
    → IsCovered (delivered_found now user event_id found st)
unfolding delivered_found increment_delivery_attempt set_user_status
delivered_found-IsCovered now user event_id none st l c = c
delivered_found-IsCovered now user event_id (some r) st l c =
    elim (Bool-cases (is_applied (get_user_status user r))) [
      | inl done ↦ rw done c
      | inr open_yet ↦ rw open_yet (
          update-Covered
            (λ x. increment_delivery_attempt now user (set_user_status user delivered x)) event_id
            st.events st.user_events
            (AddsListed-set_user_status user delivered event_id st.user_events l) c)
    ]

failed_found-IsCovered :
    (now user : ℕ) (event_id error : String) (found : Option EventRecord) (st : EventStore)
    → set_contains event_id (index_of user st.user_events) ≡ true
    → IsCovered st
    → IsCovered (failed_found now user event_id error found st)
unfolding failed_found increment_delivery_attempt set_user_status add_delivery_error
failed_found-IsCovered now user event_id error none st l c = c
failed_found-IsCovered now user event_id error (some r) st l c =
    elim (Bool-cases (is_failed (get_user_status user r))) [
      | inl done ↦ rw done c
      | inr open_yet ↦ rw open_yet (
          update-Covered
            (λ x.
              add_delivery_error user error
                (increment_delivery_attempt now user (set_user_status user failed x)))
            event_id st.events st.user_events
            (AddsListed-set_user_status user failed event_id st.user_events l) c)
    ]

applied_found-IsCovered :
    (user : ℕ) (event_id : String) (found : Option EventRecord) (st : EventStore)
    → set_contains event_id (index_of user st.user_events) ≡ true
    → IsCovered st
    → IsCovered (applied_found user event_id found st)
unfolding applied_found
applied_found-IsCovered user event_id none st l c = c
applied_found-IsCovered user event_id (some r) st l c =
    let changed =
      update-Covered (set_user_status user applied) event_id st.events st.user_events
        (AddsListed-set_user_status user applied event_id st.user_events l) c in
    elim (Bool-cases (is_all_applied (set_user_status user applied r))) [
      | inl done ↦ rw done (remove_event-Covered event_id by_applied _ changed)
      | inr more ↦ rw more changed
    ]

-- A step that marks an event for a user does so for one that the index has it for.
abbrev pub MarksListed : {config : StoreConfig} {st st' : EventStore} → Step config st st' → Type 0
MarksListed {config} {st} (delivers now user id) =
    set_contains id (index_of user st.user_events) ≡ true
MarksListed {config} {st} (fails now user id error) =
    set_contains id (index_of user st.user_events) ≡ true
MarksListed {config} {st} (applies user id) = set_contains id (index_of user st.user_events) ≡ true
MarksListed _ = Unit

-- All steps of a history are such.
abbrev pub AllMarksListed : {config : StoreConfig} {st : EventStore} → Reach config st → Type 0
AllMarksListed (starts now) = Unit
AllMarksListed (next r s) = AllMarksListed r × MarksListed s

Step-IsCovered :
    {config : StoreConfig} {st st' : EventStore} (s : Step config st st')
    → MarksListed s
    → IsCovered st
    → IsCovered st'
unfolding mark_delivered mark_failed mark_applied
Step-IsCovered {config} {st} (creates now id targets name payload qos options st' fresh e) l c =
    create-IsCovered config now id targets name payload qos options st st' c e
Step-IsCovered {config} {st} (delivers now user id) l c =
    delivered_found-IsCovered now user id (map_get id st.events) st l c
Step-IsCovered {config} {st} (fails now user id error) l c =
    failed_found-IsCovered now user id error (map_get id st.events) st l c
Step-IsCovered {config} {st} (applies user id) l c =
    applied_found-IsCovered user id (map_get id st.events) st l c
Step-IsCovered {config} {st} (expires now id) l c = expiry_fired-IsCovered now id st c
Step-IsCovered {config} {st} (cleans now) l c = cleanup-IsCovered config now st c

Reach-IsCovered :
    {config : StoreConfig} {st : EventStore} (r : Reach config st) → AllMarksListed r → IsCovered st
unfolding empty_store map_get
Reach-IsCovered (starts now) l = λ user id h. absurd (cc)
Reach-IsCovered (next r s) l = Step-IsCovered s l.1 (Reach-IsCovered r l.0)

-- After every history of creations, marks, timers and cleanups, each event id that the index has
-- for a user is that of an event with a status for the user, which is stored under its own id. If
-- every mark was for a user that the index had the event for, the index has for each user exactly
-- the events with a status for the user.
pub Reach-listed :
    {config : StoreConfig} {st : EventStore} (r : Reach config st)
    → IsIndexed st
      × (AllMarksListed r
          → (user : ℕ) (id : String)
          → set_contains id (index_of user st.user_events) ≡ has_target user (map_get id st.events))
Reach-listed {config} {st} r = (
  Reach-IsIndexed r,
  λ l user id.
      let v = Reach-IsIndexed r in
      let c = Reach-IsCovered r l in ground (arith, v.listed user id, c user id),
)
