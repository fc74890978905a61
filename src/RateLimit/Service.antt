-- ===== src/RateLimit/Service.antt =====
-- services/rate-limit.service.ts, services/storage.factory.ts and rate-limit.config.ts.
use gateway_realtime.Common.{
  ltb, if◌then◌else◌, ◌==◌, nat_eq, string_eq, ℕ, ◌-◌, ◌*◌, String, Bool, not, Option, none, some,
}
use gateway_realtime.RateLimit.Storage.{RateLimitInfo, RateStore, get, delete, increment}

pub data TransportType : Type 0 where
  over_rest over_ws : TransportType

pub data RuleName : Type 0 where
  pre_connect post_connect : RuleName

pub record WsRule : Type 0 where
  pub window_ms : ℕ
  pub max_attempts : ℕ

-- A REST rule gives its window in seconds.
pub record RestRule : Type 0 where
  pub ttl : ℕ
  pub limit : ℕ

pub record RateLimitConfig : Type 0 where
  pub storage : String
  pub ws_pre_connect : WsRule
  pub ws_post_connect : WsRule
  pub rest_pre_connect : RestRule
  pub rest_post_connect : RestRule

-- The values of the configuration where the environment sets none of its variables.
unfoldable pub default_config : RateLimitConfig
default_config = record {
  storage = "memory";
  ws_pre_connect = record { window_ms = 60000; max_attempts = 20 };
  ws_post_connect = record { window_ms = 60000; max_attempts = 20 };
  rest_pre_connect = record { ttl = 60; limit = 5 };
  rest_post_connect = record { ttl = 60; limit = 10 };
}

-- `storageMap[config.storage]`: only the in-memory storage is known; `false` is the thrown error.
unfoldable pub storage_supported : RateLimitConfig → Bool
storage_supported config = config.storage == "memory"

abbrev pub of_rest : RestRule → WsRule
of_rest rule = record { window_ms = rule.ttl * 1000; max_attempts = rule.limit }

unfoldable pub get_rule : RateLimitConfig → TransportType → RuleName → WsRule
get_rule config over_ws pre_connect = config.ws_pre_connect
get_rule config over_ws post_connect = config.ws_post_connect
get_rule config over_rest pre_connect = of_rest config.rest_pre_connect
get_rule config over_rest post_connect = of_rest config.rest_post_connect

unfoldable pub allow :
    RateLimitConfig → String → TransportType → RuleName → ℕ → RateStore → RateStore × Bool
allow config key transport rule_name now store =
    let rule = get_rule config transport rule_name in
    let (store', result) = increment key rule.window_ms rule.max_attempts now store in
    (store', not result.blocked)

abbrev remaining_of : ℕ → Option ℕ → Option ℕ
remaining_of now none = none
remaining_of now (some until) = if ltb now until then some (until - now) else none

abbrev block_of : Option RateLimitInfo → Option ℕ
block_of none = none
block_of (some info) = info.blocked_until

unfoldable pub get_block_remaining : String → ℕ → RateStore → Option ℕ
unfolding get
get_block_remaining key now store = remaining_of now (block_of (get key store))

unfoldable pub reset : String → RateStore → RateStore
unfolding delete
reset key store = delete key store
