-- ===== src/EventRecord.antt =====
-- schema/event.record.ts: an event and what is known of it for each user that it is meant for.
-- `Date.now()` is the argument `now`; an expiry timer is the time at which it is due.
pub mod Laws
pub mod Retry
mod Examples
use gateway_realtime.Common.{
  ltb, leb, if◌then◌else◌, or_default, truthy, Map, map_get, map_set, all, nat_eq, string_eq, ℕ,
  ◌+◌, ◌-◌, ◌*◌, ◌/◌, ◌^◌, String, Bool, true, false, ◌&&◌, Option, none, some, List, [], ◌∷◌, ◌++◌,
}
use gateway_realtime.Json.{Fields}

pub data EventStatus : Type 0 where
  stored delivered applied failed : EventStatus

pub data Qos : Type 0 where
  qos0 qos1 qos2 : Qos

pub record EventRecord : Type 0 where
  pub event_id : String
  pub event_name : String
  pub payload : Fields
  pub qos : Qos
  pub created_at : ℕ
  pub ttl : Option ℕ
  pub expires_at : Option ℕ
  pub sender_id : Option ℕ
  pub notify_sender : Bool
  pub sender_event_name : Option String
  pub user_status : Map ℕ EventStatus
  pub user_sequence : Map ℕ ℕ
  pub delivery_attempts : Map ℕ ℕ
  pub last_delivery_attempt : Map ℕ ℕ
  pub delivery_errors : Map ℕ (List String)
  pub expiry_timer : Option ℕ

-- `expiresAt ? Date.now() > expiresAt : false`
unfoldable pub is_expired : ℕ → EventRecord → Bool
is_expired now r = truthy r.expires_at && ltb (or_default r.expires_at 0) now

unfoldable pub set_expiry_timer : ℕ → EventRecord → EventRecord
set_expiry_timer due r = record r { expiry_timer = some due }

unfoldable pub clear_expiry_timer : EventRecord → EventRecord
clear_expiry_timer r = record r { expiry_timer = none }

unfoldable pub get_user_status : ℕ → EventRecord → EventStatus
get_user_status user r = or_default (map_get user r.user_status) stored

unfoldable pub set_user_status : ℕ → EventStatus → EventRecord → EventRecord
set_user_status user status r = record r { user_status = map_set user status r.user_status }

unfoldable pub get_user_sequence : ℕ → EventRecord → ℕ
get_user_sequence user r = or_default (map_get user r.user_sequence) 0

unfoldable pub set_user_sequence : ℕ → ℕ → EventRecord → EventRecord
set_user_sequence user seq r = record r { user_sequence = map_set user seq r.user_sequence }

unfoldable pub get_delivery_attempts : ℕ → EventRecord → ℕ
get_delivery_attempts user r = or_default (map_get user r.delivery_attempts) 0

unfoldable pub increment_delivery_attempt : ℕ → ℕ → EventRecord → EventRecord
increment_delivery_attempt now user r = record r {
  delivery_attempts = map_set user (get_delivery_attempts user r + 1) r.delivery_attempts;
  last_delivery_attempt = map_set user now r.last_delivery_attempt;
}

unfoldable pub get_last_delivery_attempt : ℕ → EventRecord → Option ℕ
get_last_delivery_attempt user r = map_get user r.last_delivery_attempt

unfoldable pub add_delivery_error : ℕ → String → EventRecord → EventRecord
add_delivery_error user error r = record r {
  delivery_errors =
      map_set user (or_default (map_get user r.delivery_errors) [] ++ error ∷ []) r.delivery_errors;
}

abbrev pub is_applied : EventStatus → Bool
is_applied applied = true
is_applied _ = false

abbrev pub is_delivered : EventStatus → Bool
is_delivered delivered = true
is_delivered _ = false

abbrev pub is_failed : EventStatus → Bool
is_failed failed = true
is_failed _ = false

unfoldable pub is_all_applied : EventRecord → Bool
is_all_applied r = all (λ b. is_applied b.1) r.user_status

-- `Math.random()` is a multiple of 2^-53 in [0, 1): the draw is the numerator.
abbrev pub random_scale : ℕ
random_scale = 2 ^ 53

-- `now - last > base * 2^attempts * (0.5 + random)`, both sides multiplied by 2^53; the rounding of
-- floating point is left out.
unfoldable pub backoff_over : ℕ → ℕ → ℕ → ℕ → Bool
backoff_over base attempts draw elapsed =
    ltb (base * 2 ^ attempts * (random_scale / 2 + draw)) (elapsed * random_scale)

pub record RetryPolicy : Type 0 where
  pub max_attempts : ℕ
  pub delivered_timeout : ℕ
  pub backoff_base : ℕ

unfoldable pub retry_delivered : ℕ → ℕ → Option ℕ → Bool
retry_delivered now timeout last =
    if truthy last then ltb timeout (now - or_default last 0) else true

unfoldable pub retry_failed : ℕ → RetryPolicy → ℕ → ℕ → Option ℕ → Bool
retry_failed now policy draw attempts last =
    if leb policy.max_attempts attempts
    then false
    else if truthy last
    then backoff_over policy.backoff_base attempts draw (now - or_default last 0)
    else true

unfoldable pub retry_status : ℕ → RetryPolicy → ℕ → ℕ → Option ℕ → EventStatus → Bool
retry_status now policy draw attempts last applied = false
retry_status now policy draw attempts last stored = true
retry_status now policy draw attempts last delivered =
    retry_delivered now policy.delivered_timeout last
retry_status now policy draw attempts last failed = retry_failed now policy draw attempts last

unfoldable pub should_retry : ℕ → ℕ → RetryPolicy → ℕ → EventRecord → Bool
should_retry user now policy draw r =
    retry_status now policy draw (get_delivery_attempts user r) (get_last_delivery_attempt user r)
      (get_user_status user r)
