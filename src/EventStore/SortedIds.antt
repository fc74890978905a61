-- ===== src/EventStore/SortedIds.antt =====
-- Sorting events leaves the ids that there are: services/event-store.service.ts.
use gateway_realtime.Common.{
  if◌then◌else◌, set_contains, insert_by, sort_by, ◌==◌, nat_eq, string_eq, String, ◌≡◌, refl, Bool,
  true, List, [], ◌∷◌, arith,
}
use gateway_realtime.EventRecord.{EventRecord}
use gateway_realtime.EventStore.Limits.{ids_of}

module _ (le : EventRecord → EventRecord → Bool) where
  pub contains-insert_by :
      (id : String) (r : EventRecord) (rs : List EventRecord)
      → set_contains id (ids_of (insert_by le r rs))
        ≡ (if r.event_id == id then true else set_contains id (ids_of rs))
  unfolding insert_by set_contains
  contains-insert_by id r [] = refl
  contains-insert_by id r (x ∷ rs) = ground (arith, contains-insert_by id r rs)

  pub contains-sort_by :
      (id : String) (rs : List EventRecord)
      → set_contains id (ids_of (sort_by le rs)) ≡ set_contains id (ids_of rs)
  unfolding sort_by set_contains
  contains-sort_by id [] = refl
  contains-sort_by id (r ∷ rs) =
      ground (arith, contains-insert_by id r (sort_by le rs), contains-sort_by id rs)
