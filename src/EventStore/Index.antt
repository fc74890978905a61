-- ===== src/EventStore/Index.antt =====
-- The index of the event store under `removeEvent` and `create`: services/event-store.service.ts.
use gateway_realtime.Common.{
  if◌then◌else◌, map_get, map_set, map_has, get-set, get-delete, set_contains, set_add, set_delete,
  contains-add, delete_idem, ◌==◌, nat_eq, string_eq, ℕ, String, ◌≡◌, refl, true, ◌&&◌, Option,
  none, some, List, [], ◌∷◌, arith,
}
use gateway_realtime.EventRecord.{stored, EventRecord, set_user_status, set_user_sequence}
use gateway_realtime.EventStore.Create.{add_targets, index_targets}
use gateway_realtime.EventStore.Remove.{put_ids, unindex_found, unindex}
use gateway_realtime.EventStore.State.{Index, index_of}

index_of-put_ids :
    (user other : ℕ) (ids : List String) (index : Index)
    → index_of other (put_ids user ids index)
      ≡ (if user == other then ids else index_of other index)
unfolding put_ids
index_of-put_ids user other [] index = ground (arith, get-delete other user index)
index_of-put_ids user other (x ∷ xs) index = ground (arith, get-set other user (x ∷ xs) index)

index_of-unindex_found :
    (event_id : String) (user other : ℕ) (found : Option (List String)) (index : Index)
    → map_get user index ≡ found
    → index_of other (unindex_found event_id user found index)
      ≡ (if user == other then set_delete event_id (index_of other index) else index_of other index)
unfolding unindex_found set_delete
index_of-unindex_found event_id user other none index e = ground arith
index_of-unindex_found event_id user other (some ids) index e =
    ground (arith, index_of-put_ids user other (set_delete event_id ids) index)

-- A removal takes the event out of the sets of the users that the event names, and of no other.
pub index_of-unindex :
    (event_id : String) (users : List ℕ) (other : ℕ) (index : Index)
    → index_of other (unindex event_id users index) ≡ (
        if set_contains other users
        then set_delete event_id (index_of other index)
        else index_of other index)
unfolding unindex set_contains
index_of-unindex event_id [] other index = refl
index_of-unindex event_id (user ∷ users) other index =
    let index' = unindex_found event_id user (map_get user index) index in
    ground (
      arith,
      index_of-unindex event_id users other index',
      index_of-unindex_found event_id user other (map_get user index) index refl,
      delete_idem event_id (index_of other index),
    )

-- `create` adds the event to the sets of its targets, and changes no other.
pub contains-index_targets :
    (event_id other_id : String) (users : List ℕ) (other : ℕ) (index : Index)
    → set_contains other_id (index_of other (index_targets event_id users index)) ≡ (
        if set_contains other users && (event_id == other_id)
        then true
        else set_contains other_id (index_of other index))
unfolding index_targets set_contains
contains-index_targets event_id other_id [] other index = refl
contains-index_targets event_id other_id (user ∷ users) other index =
    let index' = map_set user (set_add event_id (index_of user index)) index in
    unfold set_contains in
    ground (
      arith,
      contains-index_targets event_id other_id users other index',
      get-set other user (set_add event_id (index_of user index)) index,
      contains-add other_id event_id (index_of user index),
    )

pub has-add_targets :
    (now : ℕ) (users : List ℕ) (other : ℕ) (r : EventRecord)
    → map_has other (add_targets now users r).user_status
      ≡ (if set_contains other users then true else map_has other r.user_status)
unfolding add_targets set_contains set_user_status set_user_sequence
has-add_targets now [] other r = refl
has-add_targets now (user ∷ users) other r = ground (
  arith,
  has-add_targets now users other (set_user_sequence user now (set_user_status user stored r)),
  get-set other user stored r.user_status,
)

pub id-add_targets :
    (now : ℕ) (users : List ℕ) (r : EventRecord) → (add_targets now users r).event_id ≡ r.event_id
unfolding add_targets set_user_status set_user_sequence
id-add_targets now [] r = refl
id-add_targets now (user ∷ users) r =
    id-add_targets now users (set_user_sequence user now (set_user_status user stored r))
