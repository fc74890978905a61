-- ===== src/EventStore/PerUser.antt =====
-- What the limit of events per user takes out of the index: `enforcePerUserLimit` in
-- services/event-store.service.ts.
use gateway_realtime.Common.{
  leb, nat_beq, if◌then◌else◌, Bool-cases, or_default, Map, map_get, map_update, map_keys,
  set_contains, set_delete, contains-delete, length, take, filter, sort_by, string_eq, nat_eq, ◌==◌,
  ℕ, ◌-◌, ◌*◌, ◌≤◌, ◌<◌, String, ◌≡◌, refl, ap, ◌∙◌, inl, inr, Bool, true, false, ◌&&◌, not, Option,
  none, some, List, [], ◌∷◌, arith, eq_iff,
}
use gateway_realtime.EventRecord.{EventStatus, EventRecord}
use gateway_realtime.EventStore.Invariant.{has_target, IsIndexed}
use gateway_realtime.EventStore.Invariant.Eviction.{index_of-update, is_some-of_has_target}
use gateway_realtime.EventStore.Limits.{
  slice_end, created_le, cons_found, gather, is_pending, forget_user, has_no_users, evict,
  evict_all, ids_of, over_limit, enforce_found, enforce_per_user_limit,
}
use gateway_realtime.EventStore.Queries.{keep_found, select_events, get_pending}
use gateway_realtime.EventStore.Remove.{unindex, remove_found, remove_event}
use gateway_realtime.EventStore.State.{StoreConfig, RemoveReason, by_force, EventStore, index_of}

has_no_users-keys : (r : EventRecord) → has_no_users (some r) ≡ true → map_keys r.user_status ≡ []
has_no_users-keys r h = go r.user_status h
  where
    go : (m : Map ℕ EventStatus) → nat_beq (length m) 0 ≡ true → map_keys m ≡ []
    go [] h = refl
    go (x ∷ m) h = absurd (ground (arith, h))

remove_found-index :
    (event_id : String) (reason : RemoveReason) (found : Option EventRecord) (st : EventStore)
    → has_no_users found ≡ true
    → (remove_found event_id reason found st).user_events ≡ st.user_events
unfolding remove_found unindex
remove_found-index event_id reason none st h = refl
remove_found-index event_id reason (some r) st h = rw (has_no_users-keys r h) refl

index_of-evict :
    (user : ℕ) (event_id : String) (other : ℕ) (st : EventStore)
    → index_of other (evict user event_id st).user_events ≡ (
        if user == other
        then set_delete event_id (index_of other st.user_events)
        else index_of other st.user_events)
unfolding evict remove_event
index_of-evict user event_id other st =
    let st' : EventStore = record st {
      user_events = map_update user (set_delete event_id) st.user_events;
      events = map_update event_id (forget_user user) st.events;
    } in
    let moved = index_of-update event_id user other st.user_events in
    elim (Bool-cases (has_no_users (map_get event_id st'.events))) [
      | inl done ↦ rw done (
          ap (λ index. index_of other index)
            (remove_found-index event_id by_force (map_get event_id st'.events) st' done)
          ∙ moved)
      | inr more ↦ rw more moved
    ]

contains-evict_all :
    (user : ℕ) (ids : List String) (id : String) (st : EventStore)
    → set_contains id (index_of user (evict_all user ids st).user_events)
      ≡ (set_contains id (index_of user st.user_events) && not (set_contains id ids))
unfolding evict_all set_contains
contains-evict_all user [] id st = ground arith
contains-evict_all user (x ∷ ids) id st = ground (
  arith,
  contains-evict_all user ids id (evict user x st),
  index_of-evict user x user st,
  contains-delete id x (index_of user st.user_events),
)

index_of-evict_all :
    (user other : ℕ) (ids : List String) (st : EventStore)
    → (user == other) ≡ false
    → index_of other (evict_all user ids st).user_events ≡ index_of other st.user_events
unfolding evict_all
index_of-evict_all user other [] st n = refl
index_of-evict_all user other (x ∷ ids) st n =
    index_of-evict_all user other ids (evict user x st) n
    ∙ index_of-evict user x other st
    ∙ rw n refl

-- Where every id has an event, what the limit reads is what `getPending` selects from.
gather-select :
    (p : EventRecord → Bool) (ids : List String) (user : ℕ) (events : Map String EventRecord)
    → ((id : String) → set_contains id ids ≡ true → has_target user (map_get id events) ≡ true)
    → (rs : List EventRecord) × ((gather ids events ≡ some rs)
        × (select_events p ids events ≡ filter p rs))
unfolding gather cons_found select_events keep_found set_contains
gather-select p [] user events h = ([], (refl, refl))
gather-select p (x ∷ ids) user events h =
    let (r, e) = is_some-of_has_target user (map_get x events) (h x (ground (arith, eq_iff x x))) in
    let (rs, (es, fs)) =
      gather-select p ids user events (λ id c. h id (ground (arith, eq_iff x id))) in
    (r ∷ rs, (rw (e, es) refl, rw (e, fs) refl))

-- How many events the limit takes from a user who has `pending` of them: those over the limit, or,
-- where `slice` gets a negative end, as many as are left when that many are taken from the back.
abbrev pub dropped_count : ℕ → ℕ → ℕ
dropped_count limit pending = if leb limit pending then pending - limit else 2 * pending - limit

le→leb : (a b : ℕ) → a ≤ b → leb a b ≡ true
le→leb a b h = ground arith

lt→leb_false : (a b : ℕ) → b < a → leb a b ≡ false
lt→leb_false a b h = ground arith

slice_end-dropped_count : (size limit : ℕ) → slice_end size limit ≡ dropped_count limit size
unfolding slice_end
slice_end-dropped_count size limit = ground arith

-- The limit throws nothing. A user who has not more ids in the index than the limit says keeps the
-- store as it is. From one who has more it takes the oldest of the events that `getPending` gives and
-- no other: of `p` pending ones and a limit `m`, the `p - m` oldest if there are `m` at least, and if
-- there are fewer still the `2 * p - m` oldest. The ids of every other user stay.
pub enforce_takes_oldest :
    (config : StoreConfig) (now user : ℕ) (ids : List String) (st : EventStore)
    → IsIndexed st
    → map_get user st.user_events ≡ some ids
    → let pending = get_pending now user st in
      let out = ids_of (take (dropped_count config.max_events_per_user (length pending)) pending) in
      (length ids ≤ config.max_events_per_user
        → enforce_per_user_limit config now user st ≡ some st)
      × (config.max_events_per_user < length ids
          → (st' : EventStore) × ((enforce_per_user_limit config now user st ≡ some st')
              × (((id : String)
                    → set_contains id (index_of user st'.user_events)
                      ≡ (set_contains id ids && not (set_contains id out)))
                  × ((other : ℕ)
                      → (user == other) ≡ false
                      → index_of other st'.user_events ≡ index_of other st.user_events))))
unfolding enforce_per_user_limit enforce_found over_limit get_pending
enforce_takes_oldest config now user ids st v e =
    let limit = config.max_events_per_user in
    let p = is_pending now user in
    let (rs, (es, fs)) =
      gather-select p ids user st.events (λ id c. v.listed user id (ground (arith, e, c))) in
    let pending : get_pending now user st ≡ sort_by created_le (filter p rs) = rw (e, fs) refl in
    let out : ids_of (over_limit limit now user rs)
        ≡ ids_of (
            take (dropped_count limit (length (get_pending now user st)))
              (get_pending now user st)) =
      rw (pending, slice_end-dropped_count (length (sort_by created_le (filter p rs))) limit)
        refl in
    let dropped = ids_of (over_limit limit now user rs) in
    (
      λ few. rw (e, le→leb (length ids) limit few) refl,
      λ many. (
        evict_all user dropped st,
        (
          rw (e, lt→leb_false (length ids) limit many, es) refl,
          (
            λ id.
                contains-evict_all user dropped id st
                ∙ ap (λ o. set_contains id o && not (set_contains id dropped))
                    (ap (λ o. or_default o []) e)
                ∙ ap (λ o. set_contains id ids && not (set_contains id o)) out,
            λ other n. index_of-evict_all user other dropped st n,
          ),
        ),
      ),
    )
