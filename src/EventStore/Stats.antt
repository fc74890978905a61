-- ===== src/EventStore/Stats.antt =====
-- `updateStats` and `getUserStats`: services/event-store.service.ts.
use Prim.Native.Nat.{max}
use gateway_realtime.Common.{
  if◌then◌else◌, Map, map_get, length, nat_eq, string_eq, ℕ, ◌+◌, String, Bool, false, Option, none,
  some, List, [], ◌∷◌,
}
use gateway_realtime.EventRecord.{
  EventStatus, stored, delivered, applied, failed, EventRecord, is_expired, get_user_status,
  is_applied,
}
use gateway_realtime.EventStore.Limits.{is_pending}
use gateway_realtime.EventStore.State.{Index, EventStore, index_of}

abbrev pub found_pending : ℕ → ℕ → Option EventRecord → Bool
found_pending now user none = false
found_pending now user (some r) = is_pending now user r

unfoldable pub pending_count : ℕ → ℕ → List String → Map String EventRecord → ℕ
pending_count now user [] events = 0
pending_count now user (event_id ∷ ids) events =
    (if found_pending now user (map_get event_id events) then 1 else 0)
    + pending_count now user ids events

-- The loop over `userEvents`: the total of the pending counts and the largest.
unfoldable pub pending_totals : ℕ → Index → Map String EventRecord → ℕ × ℕ
pending_totals now [] events = (0, 0)
pending_totals now ((user, ids) ∷ index) events =
    let count = pending_count now user ids events in
    let (total, largest) = pending_totals now index events in (count + total, max count largest)

unfoldable pub update_stats : ℕ → EventStore → EventStore
update_stats now st =
    let (total, largest) = pending_totals now st.user_events st.events in
    record st {
      stats = record st.stats {
        current_pending = total;
        max_pending_per_user = largest;
        current_users = length st.user_events;
      };
    }

-- `byStatus` as a count for each status.
pub record UserStats : Type 0 where
  pub total_events : ℕ
  pub pending_events : ℕ
  pub expired : ℕ
  pub by_stored : ℕ
  pub by_delivered : ℕ
  pub by_applied : ℕ
  pub by_failed : ℕ

abbrev pub no_stats : UserStats
no_stats = record {
  total_events = 0;
  pending_events = 0;
  expired = 0;
  by_stored = 0;
  by_delivered = 0;
  by_applied = 0;
  by_failed = 0;
}

abbrev pub count_status : EventStatus → UserStats → UserStats
count_status stored s = record s { by_stored = s.by_stored + 1 }
count_status delivered s = record s { by_delivered = s.by_delivered + 1 }
count_status applied s = record s { by_applied = s.by_applied + 1 }
count_status failed s = record s { by_failed = s.by_failed + 1 }

abbrev pub count_event : ℕ → ℕ → Option EventRecord → UserStats → UserStats
count_event now user none s = s
count_event now user (some r) s =
    let counted =
      count_status (get_user_status user r) (record s { total_events = s.total_events + 1 }) in
    if is_applied (get_user_status user r)
    then counted
    else if is_expired now r
    then record counted { expired = counted.expired + 1 }
    else record counted { pending_events = counted.pending_events + 1 }

unfoldable pub user_stats_from :
    ℕ → ℕ → List String → Map String EventRecord → UserStats → UserStats
user_stats_from now user [] events s = s
user_stats_from now user (event_id ∷ ids) events s =
    user_stats_from now user ids events (count_event now user (map_get event_id events) s)

unfoldable pub get_user_stats : ℕ → ℕ → EventStore → UserStats
get_user_stats now user st =
    user_stats_from now user (index_of user st.user_events) st.events no_stats
