-- ===== src/EventStore/Pending.antt =====
-- What `getPending` and `getPendingWithRetry` give:
-- services/event-store.service.ts.
use gateway_realtime.Common.{
  Bool-cases, Option-cases, Map, map_get, set_contains, IsSorted, sort_by-IsSorted, string_eq,
  nat_eq, ◌==◌, ℕ, String, ◌≡◌, refl, sym, ap, ◌∙◌, inl, inr, Bool, true, false, ◌&&◌, Option, none,
  some, List, [], ◌∷◌, arith, eq_iff,
}
use gateway_realtime.EventRecord.{EventRecord}
use gateway_realtime.EventStore.Invariant.{NamedAs, IsIndexed}
use gateway_realtime.EventStore.Limits.{created_le, is_pending, ids_of}
use gateway_realtime.EventStore.Queries.{
  keep_found, select_events, get_pending, retry_le, is_due, get_pending_with_retry,
}
use gateway_realtime.EventStore.SortedIds.{contains-sort_by}
use gateway_realtime.EventStore.State.{StoreConfig, EventStore, index_of}

abbrev pub found_and : (EventRecord → Bool) → Option EventRecord → Bool
found_and p none = false
found_and p (some r) = p r

contains-select :
    (p : EventRecord → Bool) (id : String) (ids : List String) (events : Map String EventRecord)
    → ((x : String) → NamedAs x (map_get x events))
    → set_contains id (ids_of (select_events p ids events))
      ≡ (set_contains id ids && found_and p (map_get id events))
unfolding select_events keep_found set_contains
contains-select p id [] events named = refl
contains-select p id (x ∷ ids) events named =
    let ih = contains-select p id ids events named in
    elim (Option-cases (map_get x events)) [
      | inl e ↦ elim (Bool-cases (x == id)) [
        | inl same ↦
            let here : map_get id events ≡ none =
              sym (ap (λ y. map_get y events) ((eq_iff x id).0 same)) ∙ e in
            ground (arith, e, same, here, ih)
        | inr other ↦ ground (arith, e, other, ih)
      ]
      | inr (r, e) ↦
          let own : r.event_id ≡ x = rw e at (named x) in
          elim (Bool-cases (x == id)) [
            | inl same ↦
                let here : map_get id events ≡ some r =
                  sym (ap (λ y. map_get y events) ((eq_iff x id).0 same)) ∙ e in
                ground (arith, e, own, same, here, ih, eq_iff r.event_id id, eq_iff x id)
            | inr other ↦ ground (arith, e, own, other, ih, eq_iff r.event_id id, eq_iff x id)
          ]
    ]

created_le_total : (a b : EventRecord) → created_le a b ≡ false → created_le b a ≡ true
created_le_total a b h = ground arith

created_le_trans :
    (a b c : EventRecord) → created_le a b ≡ true → created_le b c ≡ true → created_le a c ≡ true
created_le_trans a b c h k = ground arith

retry_le_total :
    (user : ℕ) (a b : EventRecord) → retry_le user a b ≡ false → retry_le user b a ≡ true
retry_le_total user a b h = ground arith

retry_le_trans :
    (user : ℕ) (a b c : EventRecord)
    → retry_le user a b ≡ true
    → retry_le user b c ≡ true
    → retry_le user a c ≡ true
retry_le_trans user a b c h k = ground arith

pub get_pending_exact :
    (now user : ℕ) (st : EventStore)
    → IsIndexed st
    → ((id : String)
        → set_contains id (ids_of (get_pending now user st)) ≡ (
            set_contains id (index_of user st.user_events)
            && found_and (is_pending now user) (map_get id st.events)))
      × IsSorted created_le (get_pending now user st)
unfolding get_pending
get_pending_exact now user st v =
    let ids = index_of user st.user_events in
    (
      λ id.
          contains-sort_by created_le id (select_events (is_pending now user) ids st.events)
          ∙ contains-select (is_pending now user) id ids st.events v.named,
      sort_by-IsSorted created_le created_le_total created_le_trans
          (select_events (is_pending now user) ids st.events),
    )

pub get_pending_with_retry_exact :
    (config : StoreConfig) (draws : String → ℕ) (now user : ℕ) (st : EventStore)
    → IsIndexed st
    → ((id : String)
        → set_contains id (ids_of (get_pending_with_retry config draws now user st)) ≡ (
            set_contains id (index_of user st.user_events)
            && found_and (is_due config draws now user) (map_get id st.events)))
      × IsSorted (retry_le user) (get_pending_with_retry config draws now user st)
unfolding get_pending_with_retry
get_pending_with_retry_exact config draws now user st v =
    let ids = index_of user st.user_events in
    let due = is_due config draws now user in
    (
      λ id.
          contains-sort_by (retry_le user) id (select_events due ids st.events)
          ∙ contains-select due id ids st.events v.named,
      sort_by-IsSorted (retry_le user) (retry_le_total user) (retry_le_trans user)
          (select_events due ids st.events),
    )
