-- ===== src/RateLimit/Laws.antt =====
-- What one attempt does to the store of the rate limiter: providers/storage/in-memory.provider.ts.
use gateway_realtime.Common.{
  map_get, get-set, string_eq, nat_eq, ℕ, ◌≤◌, ◌<◌, String, ◌≡◌, refl, true, none, some, arith,
  eq_iff,
}
use gateway_realtime.RateLimit.Storage.{
  RateLimitInfo, RateStore, still_blocked, block_over, first_info, first_attempt, increment_info,
  increment,
}

pub increment-get_self :
    (key : String) (window_ms max_attempts now : ℕ) (store : RateStore) {info : RateLimitInfo}
    → map_get key store ≡ some info
    → let result = increment key window_ms max_attempts now store in
      let known = increment_info window_ms max_attempts now info in
      (map_get key result.0 ≡ some known.0) × (result.1 ≡ known.1)
unfolding increment
increment-get_self key window_ms max_attempts now store {info} e =
    rw (e, increment)
      (
        ground (
          arith,
          get-set key key (increment_info window_ms max_attempts now info).0 store,
          eq_iff key key,
        ),
        refl,
      )

pub increment-get_new :
    (key : String) (window_ms max_attempts now : ℕ) (store : RateStore)
    → map_get key store ≡ none
    → let result = increment key window_ms max_attempts now store in
      (map_get key result.0 ≡ some (first_info now)) × (result.1 ≡ first_attempt)
unfolding increment
increment-get_new key window_ms max_attempts now store e =
    rw (e, increment) (ground (arith, get-set key key (first_info now) store, eq_iff key key), refl)

-- While a block lasts, an attempt is refused and the entry stays as it is: the block is not
-- prolonged.
pub increment_info_blocked :
    (window_ms max_attempts now until : ℕ) (info : RateLimitInfo)
    → info.blocked_until ≡ some until
    → now < until
    → (increment_info window_ms max_attempts now info).0 ≡ info
      × ((increment_info window_ms max_attempts now info).1.blocked ≡ true)
unfolding increment_info still_blocked
increment_info_blocked window_ms max_attempts now until info e h = ground arith

pub increment_info_after :
    (window_ms max_attempts now until : ℕ) (info : RateLimitInfo)
    → info.blocked_until ≡ some until
    → 0 < until
    → until ≤ now
    → increment_info window_ms max_attempts now info ≡ (first_info now, first_attempt)
unfolding increment_info still_blocked block_over
increment_info_after window_ms max_attempts now until info e h k = ground arith
