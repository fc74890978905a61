-- ===== src/RateLimit/Storage.antt =====
-- providers/storage/in-memory.provider.ts and types/ratelimit-info.type.ts. `Date.now()` is the
-- argument `now`; a time that runs backwards gives the difference 0, which the code treats alike.
use gateway_realtime.Common.{
  ltb, leb, if◌then◌else◌, Map, map_get, map_set, map_delete, nat_eq, string_eq, ℕ, ◌+◌, ◌-◌,
  String, Bool, true, false, ◌&&◌, Option, none, some,
}

pub record RateLimitInfo : Type 0 where
  pub count : ℕ
  pub first_attempt : ℕ
  pub blocked_until : Option ℕ

-- What `increment` returns.
pub record Attempt : Type 0 where
  pub current_count : ℕ
  pub blocked : Bool
  pub blocked_until : Option ℕ

abbrev pub RateStore : Type 0
RateStore = Map String RateLimitInfo

unfoldable pub get : String → RateStore → Option RateLimitInfo
get key store = map_get key store

unfoldable pub delete : String → RateStore → RateStore
delete key store = map_delete key store

-- `info.blockedUntil && info.blockedUntil > now`
unfoldable pub still_blocked : Option ℕ → ℕ → Bool
still_blocked none now = false
still_blocked (some until) now = ltb 0 until && ltb now until

-- `info.blockedUntil && info.blockedUntil <= now`
unfoldable pub block_over : Option ℕ → ℕ → Bool
block_over none now = false
block_over (some until) now = ltb 0 until && leb until now

abbrev pub first_info : ℕ → RateLimitInfo
first_info now = record { count = 1; first_attempt = now; blocked_until = none }

abbrev pub first_attempt : Attempt
first_attempt = record { current_count = 1; blocked = false; blocked_until = none }

-- The entry that a known key has after an attempt, and the answer.
unfoldable pub increment_info : ℕ → ℕ → ℕ → RateLimitInfo → RateLimitInfo × Attempt
unfolding still_blocked block_over
increment_info window_ms max_attempts now info =
    if still_blocked info.blocked_until now
    then (
      info,
      record { current_count = info.count; blocked = true; blocked_until = info.blocked_until },
    )
    else if block_over info.blocked_until now
    then (first_info now, first_attempt)
    else if leb (now - info.first_attempt) window_ms
    then if leb max_attempts (info.count + 1)
      then (
        record info { count = info.count + 1; blocked_until = some (now + window_ms) },
        record {
          current_count = info.count + 1;
          blocked = true;
          blocked_until = some (now + window_ms);
        },
      )
      else (
        record info { count = info.count + 1 },
        record { current_count = info.count + 1; blocked = false; blocked_until = none },
      )
    else (first_info now, first_attempt)

unfoldable pub increment : String → ℕ → ℕ → ℕ → RateStore → RateStore × Attempt
increment key window_ms max_attempts now store = elim (map_get key store) [
  | none ↦ (map_set key (first_info now) store, first_attempt)
  | some info ↦
      let (info', attempt) = increment_info window_ms max_attempts now info in
      (map_set key info' store, attempt)
]
