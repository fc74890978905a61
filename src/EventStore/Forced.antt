-- ===== src/EventStore/Forced.antt =====
-- Which events a forced cleanup takes out of the store: `forceCleanup` in
-- services/event-store.service.ts.
use gateway_realtime.Common.{
  nat_beq, if◌then◌else◌, Bool-cases, or_default, is_some, Map, map_get, map_values, set_contains,
  length, take, drop, All, sort_by, IsSorted, sort_by-IsSorted, string_eq, nat_eq, ◌==◌, ℕ, zero,
  suc, ◌+◌, ◌*◌, ◌≤◌, ◌<◌, String, ◌≡◌, refl, sym, ap, ◌∙◌, subst, ◌⊎◌, inl, inr, Bool, true, false,
  ◌||◌, not, none, some, List, [], ◌∷◌, arith, eq_iff,
}
use gateway_realtime.EventRecord.{
  EventStatus, stored, delivered, applied, failed, EventRecord, is_applied, is_delivered, is_failed,
}
use gateway_realtime.EventStore.ForceOut.{
  Named, sort_by-Named, contains-take, events-Entries, contains-values, values-Named,
  priority_le_total, priority_le_trans, take-before-drop,
}
use gateway_realtime.EventStore.Invariant.{IsIndexed}
use gateway_realtime.EventStore.Limits.{
  slice_end, ids_of, weight_sum, priority, priority_le, to_force_out, force_cleanup,
}
use gateway_realtime.EventStore.Removal.{get-remove_events}
use gateway_realtime.EventStore.SortedIds.{contains-sort_by}
use gateway_realtime.EventStore.State.{StoreConfig, by_force, EventStore}

abbrev is_stored : EventStatus → Bool
is_stored stored = true
is_stored _ = false

-- How many users have a status of a kind.
abbrev count_status : (EventStatus → Bool) → Map ℕ EventStatus → ℕ
count_status kind [] = 0
count_status kind ((user, status) ∷ m) = (if kind status then 1 else 0) + count_status kind m

-- The weight of an event by the numbers of its users.
abbrev pub weight : EventRecord → ℕ
weight r =
    4 * count_status is_failed r.user_status
    + 3 * count_status is_delivered r.user_status
    + 2 * count_status is_stored r.user_status
    + count_status is_applied r.user_status

weight_sum-counts :
    (m : Map ℕ EventStatus)
    → weight_sum m
      ≡ 4 * count_status is_failed m
        + 3 * count_status is_delivered m
        + 2 * count_status is_stored m
        + count_status is_applied m
unfolding weight_sum
weight_sum-counts [] = refl
weight_sum-counts ((user, stored) ∷ m) = omega (arith, weight_sum-counts m)
weight_sum-counts ((user, delivered) ∷ m) = omega (arith, weight_sum-counts m)
weight_sum-counts ((user, applied) ∷ m) = omega (arith, weight_sum-counts m)
weight_sum-counts ((user, failed) ∷ m) = omega (arith, weight_sum-counts m)

-- What holds of every record of a list holds of the one that has a given id.
pub All-named {κ} :
    (P : EventRecord → Type κ) (id : String) (r : EventRecord) (events : Map String EventRecord)
    (rs : List EventRecord)
    → Named events rs
    → map_get id events ≡ some r
    → All P rs
    → set_contains id (ids_of rs) ≡ true
    → P r
unfolding set_contains
All-named P id r events [] named e h c = absurd (cc)
All-named P id r events (x ∷ rs) named e h c = elim (Bool-cases (x.event_id == id)) [
  | inl same ↦
      let own : some x ≡ some r =
        sym (named.0) ∙ ap (λ j. map_get j events) ((eq_iff x.event_id id).0 same) ∙ e in
      subst P (ap (λ o. or_default o x) own) h.0
  | inr other ↦ All-named P id r events rs named.2 e h.1 (rw other at c)
]

pub Named-take :
    (events : Map String EventRecord) (n : ℕ) (rs : List EventRecord)
    → Named events rs
    → Named events (take n rs)
Named-take events zero rs h = tt
Named-take events (suc n) [] h = tt
Named-take events (suc n) (r ∷ rs) h =
    (h.0, contains-take r.event_id n rs h.1, Named-take events n rs h.2)

pub Named-drop :
    (events : Map String EventRecord) (n : ℕ) (rs : List EventRecord)
    → Named events rs
    → Named events (drop n rs)
Named-drop events zero rs h = h
Named-drop events (suc n) [] h = h
Named-drop events (suc n) (r ∷ rs) h = Named-drop events n rs h.2

pub contains-take-drop :
    (id : String) (n : ℕ) (rs : List EventRecord)
    → set_contains id (ids_of rs)
      ≡ (set_contains id (ids_of (take n rs)) || set_contains id (ids_of (drop n rs)))
unfolding set_contains
contains-take-drop id zero rs = refl
contains-take-drop id (suc n) [] = refl
contains-take-drop id (suc n) (r ∷ rs) = ground (arith, contains-take-drop id n rs)

-- Two records of a sorted list, one taken and one left, are in order.
pub taken_before_left :
    (le : EventRecord → EventRecord → Bool) (n : ℕ) (rs : List EventRecord) (a b : String)
    (ra rb : EventRecord) (events : Map String EventRecord)
    → IsSorted le rs
    → Named events rs
    → map_get a events ≡ some ra
    → map_get b events ≡ some rb
    → set_contains a (ids_of (take n rs)) ≡ true
    → set_contains b (ids_of rs) ≡ true
    → set_contains b (ids_of (take n rs)) ≡ false
    → le ra rb ≡ true
taken_before_left le n rs a b ra rb events s named ea eb ca cb nb =
    let all_left =
      All-named (λ x. All (λ y. le x y ≡ true) (drop n rs)) a ra events (take n rs)
        (Named-take events n rs named) ea (take-before-drop le n rs s) ca in
    All-named (λ y. le ra y ≡ true) b rb events (drop n rs) (Named-drop events n rs named) eb
      all_left (ground (arith, contains-take-drop b n rs, cb, nb))

priority_le-weight :
    (a b : EventRecord)
    → priority_le a b ≡ true
    → (weight b < weight a) ⊎ ((weight b ≡ weight a) × (a.created_at ≤ b.created_at))
priority_le-weight a b h =
    let wa = weight_sum-counts a.user_status in
    let wb = weight_sum-counts b.user_status in
    elim (Bool-cases (nat_beq (priority a) (priority b))) [
      | inl same ↦ inr (ground (arith, wa, wb, same, h), ground (arith, same, h))
      | inr other ↦ inl (ground (arith, wa, wb, other, h))
    ]

dropped_id :
    (config : StoreConfig) (id : String) (r : EventRecord) (st : EventStore)
    → map_get id st.events ≡ some r
    → set_contains id (ids_of (to_force_out config.max_events_total st.events))
      ≡ not (is_some (map_get id (force_cleanup config st).events))
unfolding force_cleanup
dropped_id config id r st e =
    let out = ids_of (to_force_out config.max_events_total st.events) in
    elim (Bool-cases (set_contains id out)) [
      | inl q ↦ rw (get-remove_events by_force out id st, q) refl
      | inr q ↦ rw (get-remove_events by_force out id st, q, e) refl
    ]

-- Of two events in the store, one that a forced cleanup removes and one that it keeps, the removed
-- one weighs more, or they weigh the same and the removed one is not the younger. An event weighs 4
-- for each user whose status is FAILED, 3 for DELIVERED, 2 for STORED and 1 for APPLIED.
pub removed_before_kept :
    (config : StoreConfig) (removed kept : String) (rr rk : EventRecord) (st : EventStore)
    → IsIndexed st
    → map_get removed st.events ≡ some rr
    → map_get kept st.events ≡ some rk
    → map_get removed (force_cleanup config st).events ≡ none
    → is_some (map_get kept (force_cleanup config st).events) ≡ true
    → (weight rk < weight rr) ⊎ ((weight rk ≡ weight rr) × (rr.created_at ≤ rk.created_at))
unfolding to_force_out
removed_before_kept config removed kept rr rk st v er ek gone there =
    let entries = events-Entries st.events v.distinct v.named in
    let values = map_values st.events in
    let has =
      contains-sort_by priority_le kept values ∙ contains-values kept st.events st.events entries in
    priority_le-weight rr rk (
      taken_before_left priority_le (slice_end (length st.events) config.max_events_total)
        (sort_by priority_le values) removed kept rr rk st.events
        (sort_by-IsSorted priority_le priority_le_total priority_le_trans values)
        (sort_by-Named st.events values (values-Named st.events st.events v.distinct entries)) er ek
        (dropped_id config removed rr st er ∙ ap (λ o. not (is_some o)) gone) (rw (has, ek) refl)
        (dropped_id config kept rk st ek ∙ ap not there))
