-- ===== src/RateLimit/Guard.antt =====
-- guards/base-ratelimit.guard.ts, websocket-ratelimit.guard.ts and rest-ratelimit.guard.ts.
use gateway_realtime.Common.{
  if◌then◌else◌, ◌==◌, nat_eq, string_eq, ℕ, ◌+◌, ◌/◌, String, Option, none, some,
}
use gateway_realtime.RateLimit.KeyExtractor.{Request, transport_of, extract_key}
use gateway_realtime.RateLimit.Service.{
  RuleName, pre_connect, post_connect, RateLimitConfig, allow, get_block_remaining,
}
use gateway_realtime.RateLimit.Storage.{RateStore}

-- `too_many` carries the seconds of the message, `Math.ceil(remaining / 1000)`, if any are known.
pub data GuardResult : Type 0 where
  passed : GuardResult
  too_many : Option ℕ → GuardResult
  no_extractor invalid_rule : GuardResult

abbrev pub seconds_left : Option ℕ → Option ℕ
seconds_left none = none
seconds_left (some remaining) = some ((remaining + 999) / 1000)

unfoldable pub execute :
    RateLimitConfig → Request → RuleName → ℕ → RateStore → RateStore × GuardResult
execute config req rule_name now store = elim (extract_key rule_name req) [
  | none ↦ (store, no_extractor)
  | some key ↦
      let (store', allowed) = allow config key (transport_of req) rule_name now store in
      if allowed
      then (store', passed)
      else (store', too_many (seconds_left (get_block_remaining key now store')))
]

abbrev rule_of : String → Option RuleName
rule_of name =
    if name == "preConnect"
    then some pre_connect
    else if name == "postConnect"
    then some post_connect
    else none

unfoldable pub validate :
    RateLimitConfig → Request → String → ℕ → RateStore → RateStore × GuardResult
validate config req rule now store = elim (rule_of rule) [
  | none ↦ (store, invalid_rule)
  | some rule_name ↦ execute config req rule_name now store
]

-- The guard of the REST routes: a handler without a rule is not limited.
unfoldable pub can_activate :
    RateLimitConfig → Request → Option String → ℕ → RateStore → RateStore × GuardResult
can_activate config req none now store = (store, passed)
can_activate config req (some rule) now store =
    if rule == "" then (store, passed) else validate config req rule now store
