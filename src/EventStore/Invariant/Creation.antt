-- ===== src/EventStore/Invariant/Creation.antt =====
-- `create` keeps the index right: services/event-store.service.ts.
use gateway_realtime.Common.{
  leb, Bool-cases, or_default, truthy, set-Distinct, Map, map_get, get-set, set_contains, length,
  ◌==◌, nat_eq, string_eq, ℕ, ◌+◌, String, ◌≡◌, refl, ◌∙◌, inl, inr, false, Option, none, some,
  List, [], ◌∷◌, arith, eq_iff,
}
use gateway_realtime.EventRecord.{Qos, EventRecord, set_expiry_timer}
use gateway_realtime.EventStore.Create.{
  CreateOptions, new_record, add_targets, enforce_limits, make_room, insert_event, schedule_expiry,
  count_created, create,
}
use gateway_realtime.EventStore.Index.{contains-index_targets, has-add_targets, id-add_targets}
use gateway_realtime.EventStore.Invariant.{Indexed, IsIndexed}
use gateway_realtime.EventStore.Invariant.Changes.{
  update-Indexed, timer-KeepsUsers, remove_events-IsIndexed,
}
use gateway_realtime.EventStore.Invariant.Eviction.{enforce_per_user_limit-IsIndexed}
use gateway_realtime.EventStore.Limits.{ids_of, to_force_out, force_cleanup}
use gateway_realtime.EventStore.State.{StoreConfig, by_force, Index, EventStore, index_of}
use gateway_realtime.EventStore.Stats.{update_stats}
use gateway_realtime.Json.{Fields}

-- A fresh id is listed for nobody.
fresh-unlisted :
    (event_id : String) (user : ℕ) (events : Map String EventRecord) (index : Index)
    → Indexed events index
    → map_get event_id events ≡ none
    → set_contains event_id (index_of user index) ≡ false
fresh-unlisted event_id user events index v fresh =
    elim (Bool-cases (set_contains event_id (index_of user index))) [
      | inl listed ↦
          let target = v.listed user event_id listed in absurd (ground (arith, fresh, target))
      | inr free ↦ free
    ]

pub insert-IsIndexed :
    (now : ℕ) (event_id : String) (targets : List ℕ) (event_name : String) (payload : Fields)
    (qos : Qos) (options : CreateOptions) (st : EventStore)
    → map_get event_id st.events ≡ none
    → IsIndexed st
    → IsIndexed (insert_event now event_id targets event_name payload qos options st)
unfolding insert_event new_record
insert-IsIndexed now event_id targets event_name payload qos options st fresh v =
    let r = new_record event_id event_name payload qos now options in
    let new = add_targets now targets r in
    record {
      listed = λ user id h. ground (
        arith,
        v.listed user id,
        fresh-unlisted event_id user st.events st.user_events v fresh,
        contains-index_targets event_id id targets user st.user_events,
        has-add_targets now targets user r,
        get-set id event_id new st.events,
        eq_iff event_id id,
      );
      named = λ id. rw get-set (elim (Bool-cases (event_id == id)) [
        | inl same ↦ rw same (id-add_targets now targets r ∙ (eq_iff event_id id).0 same)
        | inr other ↦ rw other (v.named id)
      ]);
      distinct = set-Distinct event_id new st.events v.distinct;
    }

pub enforce_limits-IsIndexed :
    (config : StoreConfig) (now : ℕ) (targets : List ℕ) (st : EventStore)
    → IsIndexed st
    → (st' : EventStore) × (enforce_limits config now targets st ≡ some st') × IsIndexed st'
unfolding enforce_limits
enforce_limits-IsIndexed config now [] st v = (st, refl, v)
enforce_limits-IsIndexed config now (user ∷ users) st v =
    let (st₁, e₁, v₁) = enforce_per_user_limit-IsIndexed config now user st v in
    let (st₂, e₂, v₂) = enforce_limits-IsIndexed config now users st₁ v₁ in (st₂, rw (e₁, e₂), v₂)

pub make_room-IsIndexed :
    (config : StoreConfig) (st : EventStore) → IsIndexed st → IsIndexed (make_room config st)
unfolding make_room force_cleanup
make_room-IsIndexed config st v =
    let ids = ids_of (to_force_out config.max_events_total st.events) in
    elim (Bool-cases (leb config.max_events_total (length st.events))) [
      | inl full ↦ rw full (remove_events-IsIndexed by_force ids st v)
      | inr room ↦ rw room v
    ]

pub schedule_expiry-IsIndexed :
    (now : ℕ) (event_id : String) (ttl : Option ℕ) (st : EventStore)
    → IsIndexed st
    → IsIndexed (schedule_expiry now event_id ttl st)
unfolding schedule_expiry
schedule_expiry-IsIndexed now event_id ttl st v = elim (Bool-cases (truthy ttl)) [
  | inl set ↦ rw set (
      update-Indexed (set_expiry_timer (now + or_default ttl 0)) event_id st.events st.user_events
        (timer-KeepsUsers (now + or_default ttl 0)) v)
  | inr unset ↦ rw unset v
]

-- Creating an event under an id that is not in use throws nothing, and keeps the index right.
pub create-IsIndexed :
    (config : StoreConfig) (now : ℕ) (event_id : String) (targets : List ℕ) (event_name : String)
    (payload : Fields) (qos : Qos) (options : CreateOptions) (st : EventStore)
    → IsIndexed st
    → map_get event_id (make_room config st).events ≡ none
    → (st' : EventStore) × (create config now event_id targets event_name payload qos options st
        ≡ some st')
      × IsIndexed st'
unfolding create count_created update_stats
create-IsIndexed config now event_id targets event_name payload qos options st v fresh =
    let (st₁, e, v₁) =
      enforce_limits-IsIndexed config now targets
        (insert_event now event_id targets event_name payload qos options (make_room config st))
        (insert-IsIndexed now event_id targets event_name payload qos options (make_room config st)
          fresh (make_room-IsIndexed config st v)) in
    (
      update_stats now (count_created (schedule_expiry now event_id options.ttl st₁)),
      rw e,
      schedule_expiry-IsIndexed now event_id options.ttl st₁ v₁,
    )
