-- ===== src/EventStore/Listed.antt =====
-- The index lists every user that an event has a status for, if marks are set for such users only:
-- services/event-store.service.ts.
use gateway_realtime.Common.{
  leb, if◌then◌else◌, Bool-cases, Option-cases, or_default, Map, map_option, map_get, map_delete,
  map_update, map_has, map_keys, get-delete, get-update, set_contains, set_delete, contains-delete,
  length, string_eq, nat_eq, ◌==◌, ℕ, String, ◌≡◌, refl, sym, ap, ◌∙◌, subst, ◌⊎◌, inl, inr, true,
  false, Option, none, some, List, [], ◌∷◌, arith, eq_iff,
}
use gateway_realtime.EventRecord.{EventRecord}
use gateway_realtime.EventStore.Create.{enforce_next, enforce_limits}
use gateway_realtime.EventStore.Index.{index_of-unindex}
use gateway_realtime.EventStore.Invariant.{has_target}
use gateway_realtime.EventStore.Invariant.Eviction.{index_of-update}
use gateway_realtime.EventStore.Limits.{
  gather, forget_user, has_no_users, evict, evict_all, ids_of, over_limit, enforce_found,
  enforce_per_user_limit,
}
use gateway_realtime.EventStore.Remove.{unindex, remove_found, remove_event, remove_events}
use gateway_realtime.EventStore.State.{
  StoreConfig, RemoveReason, by_force, Index, EventStore, index_of,
}

-- Every user that an event has a status for has the event in the index.
abbrev pub Covered : Map String EventRecord → Index → Type 0
Covered events index =
    (user : ℕ) (id : String)
    → has_target user (map_get id events) ≡ true
    → set_contains id (index_of user index) ≡ true

abbrev pub IsCovered : EventStore → Type 0
IsCovered st = Covered st.events st.user_events

-- A change of one event gives a status to nobody but to users that it has in the index.
abbrev pub AddsListed : (EventRecord → EventRecord) → String → Index → Type 0
AddsListed f event_id index =
    (user : ℕ) (r : EventRecord)
    → map_has user (f r).user_status ≡ true
    → (map_has user r.user_status ≡ true) ⊎ (set_contains event_id (index_of user index) ≡ true)

has_target-changed :
    (f : EventRecord → EventRecord) (event_id : String) (index : Index) (user : ℕ)
    (found : Option EventRecord)
    → AddsListed f event_id index
    → has_target user (map_option f found) ≡ true
    → (has_target user found ≡ true) ⊎ (set_contains event_id (index_of user index) ≡ true)
has_target-changed f event_id index user none k h = inl h
has_target-changed f event_id index user (some r) k h = k user r h

pub update-Covered :
    (f : EventRecord → EventRecord) (event_id : String) (events : Map String EventRecord)
    (index : Index)
    → AddsListed f event_id index
    → Covered events index
    → Covered (map_update event_id f events) index
update-Covered f event_id events index k c user id h = elim (Bool-cases (event_id == id)) [
  | inr other ↦ c user id (ground (arith, get-update id event_id f events, other, h))
  | inl same ↦
      let own : event_id ≡ id = (eq_iff event_id id).0 same in
      let changed : has_target user (map_option f (map_get id events)) ≡ true =
        ap (has_target user) (sym (get-update id event_id f events ∙ rw same refl)) ∙ h in
      elim (has_target-changed f event_id index user (map_get id events) k changed) [
        | inl had ↦ c user id had
        | inr listed_now ↦ subst (λ i. set_contains i (index_of user index) ≡ true) own listed_now
      ]
]

remove-Covered :
    (event_id : String) (r : EventRecord) (events : Map String EventRecord) (index : Index)
    → Covered events index
    → Covered (map_delete event_id events) (unindex event_id (map_keys r.user_status) index)
remove-Covered event_id r events index c user id h = ground (
  arith,
  c user id,
  get-delete id event_id events,
  index_of-unindex event_id (map_keys r.user_status) user index,
  contains-delete id event_id (index_of user index),
  eq_iff event_id id,
  h,
)

remove_found-Covered :
    (event_id : String) (reason : RemoveReason) (found : Option EventRecord) (st : EventStore)
    → IsCovered st
    → IsCovered (remove_found event_id reason found st)
unfolding remove_found
remove_found-Covered event_id reason none st c = c
remove_found-Covered event_id reason (some r) st c =
    remove-Covered event_id r st.events st.user_events c

pub remove_event-Covered :
    (event_id : String) (reason : RemoveReason) (st : EventStore)
    → IsCovered st
    → IsCovered (remove_event event_id reason st)
unfolding remove_event
remove_event-Covered event_id reason st c =
    remove_found-Covered event_id reason (map_get event_id st.events) st c

pub remove_events-Covered :
    (reason : RemoveReason) (ids : List String) (st : EventStore)
    → IsCovered st
    → IsCovered (remove_events reason ids st)
unfolding remove_events
remove_events-Covered reason [] st c = c
remove_events-Covered reason (x ∷ ids) st c =
    remove_events-Covered reason ids (remove_event x reason st) (remove_event-Covered x reason st c)

has_target-forgotten :
    (user other : ℕ) (found : Option EventRecord)
    → has_target other (map_option (forget_user user) found)
      ≡ (if user == other then false else has_target other found)
has_target-forgotten user other none = ground arith
has_target-forgotten user other (some r) = ground (arith, get-delete other user r.user_status)

evict-Covered :
    (user : ℕ) (event_id : String) (events : Map String EventRecord) (index : Index)
    → Covered events index
    → Covered
        (map_update event_id (forget_user user) events)
        (map_update user (set_delete event_id) index)
evict-Covered user event_id events index c other id h = ground (
  arith,
  c other id,
  index_of-update event_id user other index,
  contains-delete id event_id (index_of other index),
  get-update id event_id (forget_user user) events,
  has_target-forgotten user other (map_get id events),
  eq_iff event_id id,
  h,
)

evict-IsCovered :
    (user : ℕ) (event_id : String) (st : EventStore)
    → IsCovered st
    → IsCovered (evict user event_id st)
unfolding evict
evict-IsCovered user event_id st c =
    let st' : EventStore = record st {
      user_events = map_update user (set_delete event_id) st.user_events;
      events = map_update event_id (forget_user user) st.events;
    } in
    let c' : IsCovered st' = evict-Covered user event_id st.events st.user_events c in
    elim (Bool-cases (has_no_users (map_get event_id st'.events))) [
      | inl done ↦ rw done (remove_event-Covered event_id by_force st' c')
      | inr more ↦ rw more c'
    ]

evict_all-IsCovered :
    (user : ℕ) (ids : List String) (st : EventStore)
    → IsCovered st
    → IsCovered (evict_all user ids st)
unfolding evict_all
evict_all-IsCovered user [] st c = c
evict_all-IsCovered user (x ∷ ids) st c =
    evict_all-IsCovered user ids (evict user x st) (evict-IsCovered user x st c)

pub some_inj : (a b : EventStore) → some a ≡ some b → a ≡ b
some_inj a b e = ap (λ o. or_default o a) e

dropped-IsCovered :
    (user limit now : ℕ) (read : Option (List EventRecord)) (st st' : EventStore)
    → IsCovered st
    → map_option (λ rs. evict_all user (ids_of (over_limit limit now user rs)) st) read ≡ some st'
    → IsCovered st'
dropped-IsCovered user limit now none st st' c e = absurd (cc)
dropped-IsCovered user limit now (some rs) st st' c e =
    subst IsCovered (some_inj _ st' e)
      (evict_all-IsCovered user (ids_of (over_limit limit now user rs)) st c)

enforce_found-IsCovered :
    (config : StoreConfig) (now user : ℕ) (found : Option (List String)) (st st' : EventStore)
    → IsCovered st
    → enforce_found config now user found st ≡ some st'
    → IsCovered st'
unfolding enforce_found
enforce_found-IsCovered config now user none st st' c e = subst IsCovered (some_inj st st' e) c
enforce_found-IsCovered config now user (some ids) st st' c e =
    elim (Bool-cases (leb (length ids) config.max_events_per_user)) [
      | inl few ↦ subst IsCovered (some_inj st st' (rw few at e)) c
      | inr many ↦
          dropped-IsCovered user config.max_events_per_user now (gather ids st.events) st st' c
            (rw many at e)
    ]

pub enforce_limits-IsCovered :
    (config : StoreConfig) (now : ℕ) (users : List ℕ) (st st' : EventStore)
    → IsCovered st
    → enforce_limits config now users st ≡ some st'
    → IsCovered st'
unfolding enforce_limits enforce_next enforce_per_user_limit
enforce_limits-IsCovered config now [] st st' c e = subst IsCovered (some_inj st st' e) c
enforce_limits-IsCovered config now (user ∷ users) st st' c e =
    elim (Option-cases (enforce_found config now user (map_get user st.user_events) st)) [
      | inl q ↦ absurd (cc (rw q at e))
      | inr (st1, q) ↦
          enforce_limits-IsCovered config now users st1 st'
            (enforce_found-IsCovered config now user (map_get user st.user_events) st st1 c q)
            (rw q at e)
    ]
