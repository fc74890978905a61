-- ===== src/EventRecord/Laws.antt =====
-- The status of each user in an event: schema/event.record.ts.
use gateway_realtime.Common.{if◌then◌else◌, get-set, string_eq, nat_eq, ◌==◌, ℕ, ◌≡◌, arith}
use gateway_realtime.EventRecord.{EventStatus, EventRecord, get_user_status, set_user_status}

pub get_user_status-set :
    (user other : ℕ) (status : EventStatus) (r : EventRecord)
    → get_user_status other (set_user_status user status r)
      ≡ (if user == other then status else get_user_status other r)
unfolding get_user_status set_user_status
get_user_status-set user other status r = ground (arith, get-set other user status r.user_status)
