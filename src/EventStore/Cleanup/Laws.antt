-- ===== src/EventStore/Cleanup/Laws.antt =====
-- What the periodic cleanup does to each event: services/event-store.service.ts.
use gateway_realtime.Common.{
  nat_beq, if◌then◌else◌, nat_beq_iff, Bool-cases, Option-cases, Distinct, Map, map_option, map_get,
  map_has, set_contains, string_eq, nat_eq, ℕ, String, ◌≡◌, refl, ap, ◌∙◌, inl, inr, Option, none,
  some, [], ◌∷◌, arith, eq_iff,
}
use gateway_realtime.EventRecord.{EventStatus, failed, EventRecord, get_user_status}
use gateway_realtime.EventStore.Cleanup.{
  expired_ids, cleanup_expired_events, is_stale, fail_stale, stale_events, cleanup_stale_delivered,
}
use gateway_realtime.EventStore.Create.{found_expired}
use gateway_realtime.EventStore.Invariant.{has_target, NamedAs, IsIndexed}
use gateway_realtime.EventStore.Invariant.Changes.{remove_events-IsIndexed}
use gateway_realtime.EventStore.Removal.{get-remove_events}
use gateway_realtime.EventStore.State.{StoreConfig, by_expired, EventStore}

contains-expired_ids :
    (now : ℕ) (id : String) (events : Map String EventRecord)
    → Distinct events
    → set_contains id (expired_ids now events) ≡ found_expired now (map_get id events)
unfolding expired_ids set_contains map_get found_expired
contains-expired_ids now id [] d = refl
contains-expired_ids now id ((k, r) ∷ events) d =
    ground (arith, contains-expired_ids now id events d.1, eq_iff k id, d.0)

-- After the cleanup no event is left that had expired, and every other event is as it was.
pub get-cleanup_expired :
    (now : ℕ) (id : String) (st : EventStore)
    → IsIndexed st
    → map_get id (cleanup_expired_events now st).events
      ≡ (if found_expired now (map_get id st.events) then none else map_get id st.events)
unfolding cleanup_expired_events
get-cleanup_expired now id st v =
    get-remove_events by_expired (expired_ids now st.events) id st
    ∙ ap (λ b. if b then none else map_get id st.events)
        (contains-expired_ids now id st.events v.distinct)

pub cleanup_expired-IsIndexed :
    (now : ℕ) (st : EventStore) → IsIndexed st → IsIndexed (cleanup_expired_events now st)
unfolding cleanup_expired_events
cleanup_expired-IsIndexed now st v =
    remove_events-IsIndexed by_expired (expired_ids now st.events) st v

abbrev pub stale_status : StoreConfig → ℕ → EventRecord → ℕ → EventStatus → EventStatus
stale_status config now r user status = if is_stale config now r user status then failed else status

pub get-fail_stale :
    (config : StoreConfig) (now user : ℕ) (r : EventRecord) (m : Map ℕ EventStatus)
    → map_get user (fail_stale config now r m).0
      ≡ map_option (stale_status config now r user) (map_get user m)
unfolding fail_stale map_get
get-fail_stale config now user r [] = refl
get-fail_stale config now user r ((k, status) ∷ m) = elim (Bool-cases (nat_beq k user)) [
  | inl same ↦
      let e : k ≡ user = (nat_beq_iff k user).0 same in
      rw (← e) (ground (arith, get-fail_stale config now user r m, nat_beq_iff k k))
  | inr other ↦ ground (arith, get-fail_stale config now user r m, other)
]

abbrev pub stale_record : StoreConfig → ℕ → EventRecord → EventRecord
stale_record config now r = record r { user_status = (fail_stale config now r r.user_status).0 }

pub get-stale_events :
    (config : StoreConfig) (now : ℕ) (id : String) (events : Map String EventRecord)
    → map_get id (stale_events config now events).0
      ≡ map_option (stale_record config now) (map_get id events)
unfolding stale_events map_get
get-stale_events config now id [] = refl
get-stale_events config now id ((k, r) ∷ events) =
    ground (arith, get-stale_events config now id events)

has-stale_record :
    (config : StoreConfig) (now user : ℕ) (r : EventRecord)
    → map_has user (stale_record config now r).user_status ≡ map_has user r.user_status
has-stale_record config now user r = elim (Option-cases (map_get user r.user_status)) [
  | inl e ↦ rw (get-fail_stale config now user r r.user_status, e)
  | inr (s, e) ↦ rw (get-fail_stale config now user r r.user_status, e)
]

pub has_target-stale :
    (config : StoreConfig) (now user : ℕ) (found : Option EventRecord)
    → has_target user (map_option (stale_record config now) found) ≡ has_target user found
has_target-stale config now user none = refl
has_target-stale config now user (some r) = has-stale_record config now user r

NamedAs-stale :
    (config : StoreConfig) (now : ℕ) (id : String) (found : Option EventRecord)
    → NamedAs id found
    → NamedAs id (map_option (stale_record config now) found)
NamedAs-stale config now id none h = h
NamedAs-stale config now id (some r) h = h

stale-Distinct :
    (config : StoreConfig) (now : ℕ) (events : Map String EventRecord)
    → Distinct events
    → Distinct (stale_events config now events).0
unfolding stale_events
stale-Distinct config now [] d = tt
stale-Distinct config now ((k, r) ∷ events) d =
    (rw (get-stale_events config now k events, d.0) refl, stale-Distinct config now events d.1)

pub cleanup_stale-IsIndexed :
    (config : StoreConfig) (now : ℕ) (st : EventStore)
    → IsIndexed st
    → IsIndexed (cleanup_stale_delivered config now st)
unfolding cleanup_stale_delivered
cleanup_stale-IsIndexed config now st v = record {
  listed = λ user id h.
      rw get-stale_events
        (has_target-stale config now user (map_get id st.events) ∙ v.listed user id h);
  named =
      λ id. rw get-stale_events (NamedAs-stale config now id (map_get id st.events) (v.named id));
  distinct = stale-Distinct config now st.events v.distinct;
}

pub get_user_status-stale :
    (config : StoreConfig) (now user : ℕ) (r : EventRecord)
    → get_user_status user (stale_record config now r)
      ≡ stale_status config now r user (get_user_status user r)
unfolding get_user_status is_stale
get_user_status-stale config now user r = elim (Option-cases (map_get user r.user_status)) [
  | inl e ↦ rw (get-fail_stale config now user r r.user_status, e) refl
  | inr (s, e) ↦ rw (get-fail_stale config now user r r.user_status, e) refl
]
