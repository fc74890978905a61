-- ===== src/EventStore/ForceOut.antt =====
-- Which events a forced cleanup drops, and how many: `forceCleanup` in
-- services/event-store.service.ts.
-- The ids of records that are stored under their own ids, all different.
use gateway_realtime.Common.{
  if◌then◌else◌, Bool-cases, Distinct, Map, map_get, map_has, map_values, set_contains, length,
  take, drop, length-take, All, insert_by, sort_by, IsSorted, length-sort_by, string_eq, nat_eq,
  ◌==◌, ℕ, zero, suc, ◌-◌, ◌≤◌, String, ◌≡◌, refl, ap, ◌∙◌, subst, inl, inr, Bool, true, false,
  none, some, List, [], ◌∷◌, arith, eq_iff,
}
use gateway_realtime.EventRecord.{EventRecord}
use gateway_realtime.EventStore.Invariant.{NamedAs, Indexed, IsIndexed}
use gateway_realtime.EventStore.Limits.{slice_end, ids_of, priority_le, to_force_out, force_cleanup}
use gateway_realtime.EventStore.Removal.{AllPresent, length-remove_events}
use gateway_realtime.EventStore.SortedIds.{contains-insert_by, contains-sort_by}
use gateway_realtime.EventStore.State.{StoreConfig, by_force, Index, EventStore}

abbrev pub Named : Map String EventRecord → List EventRecord → Type 0
Named events [] = Unit {0}
Named events (r ∷ rs) =
    (map_get r.event_id events ≡ some r)
    × (set_contains r.event_id (ids_of rs) ≡ false)
    × Named events rs

insert_by-Named :
    (events : Map String EventRecord) (r : EventRecord) (rs : List EventRecord)
    → Named events (r ∷ rs)
    → Named events (insert_by priority_le r rs)
unfolding insert_by set_contains
insert_by-Named events r [] h = h
insert_by-Named events r (x ∷ rs) h = elim (Bool-cases (priority_le r x)) [
  | inl le ↦ rw le h
  | inr gt ↦ rw gt (
    h.2.0,
    ground (
      arith,
      h.1,
      h.2.1,
      contains-insert_by priority_le x.event_id r rs,
      eq_iff r.event_id x.event_id,
      eq_iff x.event_id r.event_id,
    ),
    insert_by-Named events r rs (h.0, ground (arith, h.1), h.2.2),
  )
]

pub sort_by-Named :
    (events : Map String EventRecord) (rs : List EventRecord)
    → Named events rs
    → Named events (sort_by priority_le rs)
unfolding sort_by
sort_by-Named events [] h = tt
sort_by-Named events (r ∷ rs) h =
    insert_by-Named events r (sort_by priority_le rs)
      (h.0, contains-sort_by priority_le r.event_id rs ∙ h.1, sort_by-Named events rs h.2)

pub contains-take :
    (id : String) (n : ℕ) (rs : List EventRecord)
    → set_contains id (ids_of rs) ≡ false
    → set_contains id (ids_of (take n rs)) ≡ false
unfolding set_contains
contains-take id zero rs h = refl
contains-take id (suc n) [] h = refl
contains-take id (suc n) (r ∷ rs) h = ground (arith, contains-take id n rs)

take-AllPresent :
    (events : Map String EventRecord) (n : ℕ) (rs : List EventRecord)
    → Named events rs
    → AllPresent (ids_of (take n rs)) events
take-AllPresent events zero rs h = tt
take-AllPresent events (suc n) [] h = tt
take-AllPresent events (suc n) (r ∷ rs) h =
    (contains-take r.event_id n rs h.1, ground (arith, h.0), take-AllPresent events n rs h.2)

-- The entries of a part of the map, each found in the map under its key and named by it.
abbrev Entries : Map String EventRecord → Map String EventRecord → Type 0
Entries events [] = Unit {0}
Entries events ((k, r) ∷ m) = (map_get k events ≡ some r) × (r.event_id ≡ k) × Entries events m

Entries-cons :
    (k : String) (r : EventRecord) (events m : Map String EventRecord)
    → map_get k events ≡ none
    → Entries events m
    → Entries ((k, r) ∷ events) m
unfolding map_get
Entries-cons k r events [] fresh h = tt
Entries-cons k r events ((j, x) ∷ m) fresh h =
    (ground (arith, h.0, eq_iff k j), h.1, Entries-cons k r events m fresh h.2)

pub events-Entries :
    (m : Map String EventRecord)
    → Distinct m
    → ((id : String) → NamedAs id (map_get id m))
    → Entries m m
unfolding map_get
events-Entries [] d named = tt
events-Entries ((k, r) ∷ m) d named =
    let self : (k == k) ≡ true = (eq_iff k k).1 refl in
    (
      rw self refl,
      rw self at (named k),
      Entries-cons k r m m d.0 (events-Entries m d.1 (λ id. NamedAs-tail k r id m d.0 (named id))),
    )
  where
    NamedAs-tail :
        (k : String) (r : EventRecord) (id : String) (m : Map String EventRecord)
        → map_get k m ≡ none
        → NamedAs id (if k == id then some r else map_get id m)
        → NamedAs id (map_get id m)
    NamedAs-tail k r id m e h = elim (Bool-cases (k == id)) [
      | inl same ↦ rw (subst (λ j. map_get j m ≡ none) ((eq_iff k id).0 same) e) tt
      | inr other ↦ rw other at h
    ]

pub contains-values :
    (id : String) (events m : Map String EventRecord)
    → Entries events m
    → set_contains id (ids_of (map_values m)) ≡ map_has id m
unfolding set_contains map_get
contains-values id events [] h = refl
contains-values id events ((k, r) ∷ m) h = ground (arith, contains-values id events m h.2)

pub values-Named :
    (events m : Map String EventRecord)
    → Distinct m
    → Entries events m
    → Named events (map_values m)
values-Named events [] d h = tt
values-Named events ((k, r) ∷ m) d h = (
  ap (λ j. map_get j events) h.1 ∙ h.0,
  ap (λ j. set_contains j (ids_of (map_values m))) h.1
      ∙ ground (arith, contains-values k events m h.2, d.0),
  values-Named events m d.1 h.2,
)

-- The events that a forced cleanup drops are there, and all different.
pub to_force_out-AllPresent :
    (limit : ℕ) (events : Map String EventRecord) (index : Index)
    → Indexed events index
    → AllPresent (ids_of (to_force_out limit events)) events
unfolding to_force_out
to_force_out-AllPresent limit events index v =
    take-AllPresent events (slice_end (length events) limit)
      (sort_by priority_le (map_values events))
      (sort_by-Named events (map_values events)
        (values-Named events events v.distinct (events-Entries events v.distinct v.named)))

length-map_values : (events : Map String EventRecord) → length (map_values events) ≡ length events
length-map_values [] = refl
length-map_values (x ∷ events) = omega (arith, length-map_values events)

length-ids_of : (rs : List EventRecord) → length (ids_of rs) ≡ length rs
length-ids_of [] = refl
length-ids_of (r ∷ rs) = omega (arith, length-ids_of rs)

pub length-to_force_out :
    (limit : ℕ) (events : Map String EventRecord)
    → limit ≤ length events
    → length (ids_of (to_force_out limit events)) ≡ length events - limit
unfolding to_force_out slice_end
length-to_force_out limit events h =
    let sorted = sort_by priority_le (map_values events) in
    ground (
      arith,
      length-ids_of (take (slice_end (length events) limit) sorted),
      length-take (slice_end (length events) limit) sorted,
      length-sort_by priority_le (map_values events),
      length-map_values events,
    )

-- A forced cleanup of a store that has reached the limit brings it down to the limit or below.
pub force_cleanup-le :
    (config : StoreConfig) (st : EventStore)
    → IsIndexed st
    → config.max_events_total ≤ length st.events
    → length (force_cleanup config st).events ≤ config.max_events_total
unfolding force_cleanup
force_cleanup-le config st v h =
    let out = ids_of (to_force_out config.max_events_total st.events) in
    omega (
      arith,
      length-remove_events by_force out st
          (to_force_out-AllPresent config.max_events_total st.events st.user_events v),
      length-to_force_out config.max_events_total st.events h,
    )

pub priority_le_total : (a b : EventRecord) → priority_le a b ≡ false → priority_le b a ≡ true
priority_le_total a b h = ground arith

pub priority_le_trans :
    (a b c : EventRecord) → priority_le a b ≡ true → priority_le b c ≡ true → priority_le a c ≡ true
priority_le_trans a b c h k = ground arith

All-drop {κ} :
    (P : EventRecord → Type κ) (n : ℕ) (rs : List EventRecord) → All P rs → All P (drop n rs)
All-drop P zero rs h = h
All-drop P (suc n) [] h = h
All-drop P (suc n) (r ∷ rs) h = All-drop P n rs h.1

-- In a sorted list what is taken comes before what is left.
pub take-before-drop :
    (le : EventRecord → EventRecord → Bool) (n : ℕ) (rs : List EventRecord)
    → IsSorted le rs
    → All (λ a. All (λ b. le a b ≡ true) (drop n rs)) (take n rs)
take-before-drop le zero rs s = tt
take-before-drop le (suc n) [] s = tt
take-before-drop le (suc n) (r ∷ rs) s =
    (All-drop (λ b. le r b ≡ true) n rs s.0, take-before-drop le n rs s.1)
