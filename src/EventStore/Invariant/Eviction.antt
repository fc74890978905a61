-- ===== src/EventStore/Invariant/Eviction.antt =====
-- The per-user limit keeps the index right and never meets a missing event:
-- services/event-store.service.ts.
use gateway_realtime.Common.{
  leb, if◌then◌else◌, Bool-cases, Option-cases, update-Distinct, Map, map_option, map_get,
  map_update, get-delete, get-update, set_contains, set_delete, contains-delete, length, string_eq,
  nat_eq, ◌==◌, ℕ, String, ◌≡◌, refl, ◌≢◌, inl, inr, true, Option, none, some, List, [], ◌∷◌, arith,
  eq_iff,
}
use gateway_realtime.EventRecord.{EventRecord}
use gateway_realtime.EventStore.Invariant.{has_target, Indexed, IsIndexed}
use gateway_realtime.EventStore.Invariant.Changes.{update-named, remove_event-IsIndexed}
use gateway_realtime.EventStore.Limits.{
  cons_found, gather, forget_user, has_no_users, evict, evict_all, ids_of, over_limit,
  enforce_found, enforce_per_user_limit,
}
use gateway_realtime.EventStore.State.{StoreConfig, by_force, Index, EventStore, index_of}

has_target-forget :
    (user other : ℕ) (found : Option EventRecord)
    → user ≢ other
    → has_target other found ≡ true
    → has_target other (map_option (forget_user user) found) ≡ true
has_target-forget user other none ne h = h
has_target-forget user other (some r) ne h = ground (arith, get-delete other user r.user_status)

pub index_of-update :
    (event_id : String) (user other : ℕ) (index : Index)
    → index_of other (map_update user (set_delete event_id) index)
      ≡ (if user == other then set_delete event_id (index_of other index) else index_of other index)
unfolding set_delete
index_of-update event_id user other index = elim (Option-cases (map_get other index)) [
  | inl e ↦ ground (arith, get-update other user (set_delete event_id) index, e)
  | inr (ids, e) ↦ ground (arith, get-update other user (set_delete event_id) index, e)
]

pub evict-Indexed :
    (user : ℕ) (event_id : String) (events : Map String EventRecord) (index : Index)
    → Indexed events index
    → Indexed
        (map_update event_id (forget_user user) events)
        (map_update user (set_delete event_id) index)
evict-Indexed user event_id events index v = record {
  listed = λ other id h. ground (
    arith,
    v.listed other id,
    index_of-update event_id user other index,
    contains-delete id event_id (index_of other index),
    get-update id event_id (forget_user user) events,
    has_target-forget user other (map_get id events),
    eq_iff event_id id,
  );
  named = λ id. update-named (forget_user user) event_id id events (λ r. refl) (v.named id);
  distinct = update-Distinct event_id (forget_user user) events v.distinct;
}

pub evict-IsIndexed :
    (user : ℕ) (event_id : String) (st : EventStore)
    → IsIndexed st
    → IsIndexed (evict user event_id st)
unfolding evict
evict-IsIndexed user event_id st v =
    let st' : EventStore = record st {
      user_events = map_update user (set_delete event_id) st.user_events;
      events = map_update event_id (forget_user user) st.events;
    } in
    let v' : IsIndexed st' = evict-Indexed user event_id st.events st.user_events v in
    elim (Bool-cases (has_no_users (map_get event_id st'.events))) [
      | inl done ↦ rw done (remove_event-IsIndexed event_id by_force st' v')
      | inr more ↦ rw more v'
    ]

evict_all-IsIndexed :
    (user : ℕ) (ids : List String) (st : EventStore)
    → IsIndexed st
    → IsIndexed (evict_all user ids st)
unfolding evict_all
evict_all-IsIndexed user [] st v = v
evict_all-IsIndexed user (event_id ∷ ids) st v =
    evict_all-IsIndexed user ids (evict user event_id st) (evict-IsIndexed user event_id st v)

pub is_some-of_has_target :
    (user : ℕ) (found : Option EventRecord)
    → has_target user found ≡ true
    → (r : EventRecord) × (found ≡ some r)
is_some-of_has_target user none h = absurd (cc)
is_some-of_has_target user (some r) h = (r, refl)

-- Where every id has an event, reading the events of a user throws nothing.
gather-total :
    (ids : List String) (user : ℕ) (events : Map String EventRecord)
    → ((id : String) → set_contains id ids ≡ true → has_target user (map_get id events) ≡ true)
    → (rs : List EventRecord) × (gather ids events ≡ some rs)
unfolding gather set_contains cons_found
gather-total [] user events h = ([], refl)
gather-total (x ∷ ids) user events h =
    let (r, e) = is_some-of_has_target user (map_get x events) (h x (ground (arith, eq_iff x x))) in
    let (rs, es) = gather-total ids user events (λ id c. h id (ground (arith, eq_iff x id))) in
    (r ∷ rs, rw (e, es))

enforce_found-IsIndexed :
    (config : StoreConfig) (now user : ℕ) (found : Option (List String)) (st : EventStore)
    → map_get user st.user_events ≡ found
    → IsIndexed st
    → (st' : EventStore) × (enforce_found config now user found st ≡ some st') × IsIndexed st'
unfolding enforce_found
enforce_found-IsIndexed config now user none st e v = (st, refl, v)
enforce_found-IsIndexed config now user (some ids) st e v =
    elim (Bool-cases (leb (length ids) config.max_events_per_user)) [
      | inl few ↦ (st, rw few, v)
      | inr many ↦
          let (rs, es) =
            gather-total ids user st.events (λ id c. v.listed user id (ground (arith, e, c))) in
          let out = ids_of (over_limit config.max_events_per_user now user rs) in
          (evict_all user out st, rw (many, es), evict_all-IsIndexed user out st v)
    ]

-- Enforcing the limit of one user throws nothing and keeps the index right.
pub enforce_per_user_limit-IsIndexed :
    (config : StoreConfig) (now user : ℕ) (st : EventStore)
    → IsIndexed st
    → (st' : EventStore) × (enforce_per_user_limit config now user st ≡ some st') × IsIndexed st'
unfolding enforce_per_user_limit
enforce_per_user_limit-IsIndexed config now user st v =
    enforce_found-IsIndexed config now user (map_get user st.user_events) st refl v
