-- ===== src/RateLimit/Examples.antt =====
-- Runs of the rate limiter: src/modules/ratelimitters.
-- All that a run of the guard computes with.

use gateway_realtime.Common.{
  map_get, map_set, map_delete, string_eq, nat_eq, ◌≡◌, refl, none, some, [], ◌∷◌, arith,
}
use gateway_realtime.RateLimit.Guard.{
  passed, too_many, no_extractor, execute, validate, can_activate,
}
use gateway_realtime.RateLimit.KeyExtractor.{
  get_client_ip, extract_ws_pre_connect, extract_rest_pre_connect, extract_rest_post_connect,
  Request, ws_request, extract_key,
}
use gateway_realtime.RateLimit.RetryAfter.{execute_retry_after}
use gateway_realtime.RateLimit.Service.{
  pre_connect, post_connect, RateLimitConfig, default_config, get_rule, allow, get_block_remaining,
  reset,
}
use gateway_realtime.RateLimit.Storage.{
  RateStore, get, delete, still_blocked, block_over, increment_info, increment,
}
use gateway_realtime.RateLimit.Window.{admitted, admitted_in_window}

limiter : Unit {0}
unfolding execute validate can_activate allow get_rule get_block_remaining reset increment
    increment_info still_blocked block_over get delete map_get map_set map_delete extract_key
    extract_ws_pre_connect extract_rest_pre_connect extract_rest_post_connect default_config
    get_client_ip admitted
limiter = tt

abbrev handshake : Request
handshake = ws_request (record {
  forwarded_for = some " 10.0.0.7 , 10.0.0.1";
  remote_address = none;
  token = some "t";
})

handshake_key : extract_key pre_connect handshake ≡ some "10.0.0.7:t"
unfolding limiter
handshake_key = refl

-- A window of 60 s and 3 attempts: the third is refused, and refused again while the block lasts.
abbrev config : RateLimitConfig
config = record {
  storage = "memory";
  ws_pre_connect = record { window_ms = 60000; max_attempts = 3 };
  ws_post_connect = record { window_ms = 60000; max_attempts = 3 };
  rest_pre_connect = record { ttl = 60; limit = 5 };
  rest_post_connect = record { ttl = 60; limit = 10 };
}

abbrev blocked_store : RateStore
blocked_store =
    ("10.0.0.7:t", record { count = 2; first_attempt = 1000; blocked_until = none }) ∷ []

refused_run : (execute config handshake pre_connect 2500 blocked_store).1 ≡ too_many (some 60)
unfolding limiter
refused_run = refl

no_rule_run : (execute config handshake post_connect 2500 blocked_store).1 ≡ no_extractor
unfolding limiter
no_rule_run = refl

admitted_run : admitted 60000 3 "k" (0 ∷ 1 ∷ 2 ∷ 3 ∷ []) [] ≡ 2
unfolding limiter
admitted_run = refl

admitted_in_window_example : admitted 60000 3 "k" (5 ∷ 6 ∷ 7 ∷ 8 ∷ []) [] ≡ 2
unfolding limiter
admitted_in_window_example = admitted_in_window 60000 3 5 "k" (6 ∷ 7 ∷ 8 ∷ []) [] refl (omega arith)

execute_retry_after_example :
    (execute config handshake pre_connect 62500
      (execute config handshake pre_connect 2500 blocked_store).0).1
    ≡ passed
execute_retry_after_example =
    execute_retry_after config handshake pre_connect 2500 60 62500 blocked_store refused_run
      (omega arith)
