-- ===== src/RateLimit/RetryAfter.antt =====
-- What a refused request is told: guards/base-ratelimit.guard.ts.
use gateway_realtime.Common.{
  if◌then◌else◌, Bool-cases, Option-cases, map_get, nat_eq, string_eq, ℕ, ◌+◌, ◌*◌, ◌≤◌, ◌<◌,
  String, ◌≡◌, inl, inr, true, false, some, arith,
}
use gateway_realtime.RateLimit.Guard.{passed, too_many, seconds_left, execute}
use gateway_realtime.RateLimit.KeyExtractor.{Request, transport_of, extract_key}
use gateway_realtime.RateLimit.Laws.{increment-get_self, increment-get_new, increment_info_after}
use gateway_realtime.RateLimit.Service.{
  TransportType, RuleName, RateLimitConfig, get_rule, allow, get_block_remaining,
}
use gateway_realtime.RateLimit.Storage.{RateLimitInfo, RateStore, increment_info, increment}

-- The entry that a refused request leaves, if the guard found a time to wait for.
refused_entry :
    (key : String) (window_ms max_attempts now left : ℕ) (store : RateStore)
    → (increment key window_ms max_attempts now store).1.blocked ≡ true
    → get_block_remaining key now (increment key window_ms max_attempts now store).0 ≡ some left
    → (info : RateLimitInfo) × (map_get key (increment key window_ms max_attempts now store).0
        ≡ some info)
      × (info.blocked_until ≡ some (now + left))
      × (0 < left)
unfolding get_block_remaining
refused_entry key window_ms max_attempts now left store refused waits =
    elim (Option-cases (map_get key store)) [
      | inl e ↦ absurd (ground (arith, increment-get_new key window_ms max_attempts now store e))
      | inr (info, e) ↦
          let known = increment-get_self key window_ms max_attempts now store e in
          (
            (increment_info window_ms max_attempts now info).0,
            known.0,
            ground (arith, known.0, waits),
            ground (arith, known.0, waits),
          )
    ]

allow_after :
    (config : RateLimitConfig) (key : String) (transport : TransportType) (rule_name : RuleName)
    (later until : ℕ) (store : RateStore) (info : RateLimitInfo)
    → map_get key store ≡ some info
    → info.blocked_until ≡ some until
    → 0 < until
    → until ≤ later
    → (allow config key transport rule_name later store).1 ≡ true
unfolding allow
allow_after config key transport rule_name later until store info e blocked h k =
    let rule = get_rule config transport rule_name in
    let known = increment-get_self key rule.window_ms rule.max_attempts later store e in
    rw (known.1, increment_info_after rule.window_ms rule.max_attempts later until info blocked h k)

allow_retry_after :
    (config : RateLimitConfig) (key : String) (transport : TransportType) (rule_name : RuleName)
    (now left later : ℕ) (store : RateStore)
    → (allow config key transport rule_name now store).1 ≡ false
    → get_block_remaining key now (allow config key transport rule_name now store).0 ≡ some left
    → now + left ≤ later
    → (allow config key transport rule_name later
        (allow config key transport rule_name now store).0).1
      ≡ true
unfolding allow
allow_retry_after config key transport rule_name now left later store refused waits h =
    let rule = get_rule config transport rule_name in
    let (info, entry, blocked, positive) =
      refused_entry key rule.window_ms rule.max_attempts now left store (ground arith) waits in
    allow_after config key transport rule_name later (now + left)
      (increment key rule.window_ms rule.max_attempts now store).0 info entry blocked (omega arith)
      h

execute_when :
    (config : RateLimitConfig) (req : Request) (rule_name : RuleName) (now : ℕ) (store : RateStore)
    {key : String}
    → extract_key rule_name req ≡ some key
    → execute config req rule_name now store ≡ (
        let result = allow config key (transport_of req) rule_name now store in
        if result.1
        then (result.0, passed)
        else (result.0, too_many (seconds_left (get_block_remaining key now result.0))))
unfolding execute
execute_when config req rule_name now store e = rw (e, execute)

-- A request that is refused with a number of seconds to wait is let through when it is repeated
-- after that many seconds or more, whatever the rule, if no other attempt under its key came first.
pub execute_retry_after :
    (config : RateLimitConfig) (req : Request) (rule_name : RuleName) (now seconds later : ℕ)
    (store : RateStore)
    → (execute config req rule_name now store).1 ≡ too_many (some seconds)
    → now + seconds * 1000 ≤ later
    → (execute config req rule_name later (execute config req rule_name now store).0).1 ≡ passed
unfolding execute
execute_retry_after config req rule_name now seconds later store refused h =
    elim (Option-cases (extract_key rule_name req)) [
      | inl e ↦ absurd (ground (arith, e))
      | inr (key, e) ↦
          let result = allow config key (transport_of req) rule_name now store in
          elim (Bool-cases result.1) [
            | inl allowed ↦ absurd (ground (arith, e, allowed))
            | inr blocked ↦ elim (Option-cases (get_block_remaining key now result.0)) [
              | inl n ↦ absurd (ground (arith, e, blocked, n))
              | inr (left, w) ↦
                  let enough : now + left ≤ later = ground (arith, e, blocked, w) in
                  ground (
                    arith,
                    e,
                    blocked,
                    allow_retry_after config key (transport_of req) rule_name now left later store
                        blocked w enough,
                  )
            ]
          ]
    ]
