-- ===== src/Gateway.antt =====
-- websocket.gateway.ts. A handler runs to its end before the next: what the code awaits is answered
-- at once, by the arguments of the handler.
pub mod Quiet
pub mod Registered
pub mod Connected
pub mod History
pub mod Agreement
pub mod Gone
pub mod Reconnect
pub mod Replace
pub mod Sample
mod Examples
use gateway_realtime.Common.{
  nat_beq, if◌then◌else◌, map_get, set_contains, concat, show_nat, ◌==◌, nat_eq, string_eq, ℕ,
  String, Bool, false, Option, none, some, List, [], ◌∷◌,
}
use gateway_realtime.Heartbeat.{ponged}
use gateway_realtime.Json.{Json, str, obj, field, object1}
use gateway_realtime.Lifecycle.{on_connect, on_disconnect}
use gateway_realtime.Lifecycle.Snapshot.{DeviceSource}
use gateway_realtime.RateLimit.Guard.{GuardResult, passed, too_many, no_extractor}
use gateway_realtime.Session.{Client, is_open}
use gateway_realtime.SessionManager.{Authenticated, establish_session}
use gateway_realtime.World.{closed, World, output, send, update_client, socket_of}
use gateway_realtime.WsError.{
  Thrown, http_object, plain_error, WsErrorPayload, normalize_ws_error, Outcome, ok, thrown,
}

abbrev pub error_message : WsErrorPayload → Json
error_message e =
    obj
      (field "event" (str "error") (field "code" (str e.code) (object1 "message" (str e.message))))

unfoldable pub handle_error : Thrown → ℕ → World → World × WsErrorPayload
handle_error err client w =
    let e = normalize_ws_error err in
    if is_open w.clients (some client) then (send client (error_message e) w, e) else (w, e)

unfoldable pub is_fatal_error : String → Bool
is_fatal_error code = set_contains code ("UNAUTHENTICATED" ∷ "FORBIDDEN" ∷ [])

abbrev pub policy_codes : List String
policy_codes =
    "TOKEN_EXPIRED" ∷ "INVALID_TOKEN" ∷ "UNAUTHENTICATED" ∷ "FORBIDDEN" ∷ "INVALID_SIGNATURE" ∷ []

unfoldable pub close_code : String → ℕ
close_code code = if set_contains code policy_codes then 1008 else 1011

abbrev pub close_reason : String → String
close_reason message = if message == "" then "Connection rejected" else message

unfoldable pub reject : Thrown → ℕ → World → World
reject err client w =
    let (w', e) = handle_error err client w in
    output (closed client (close_code e.code) (close_reason e.message)) w'

abbrev pub fresh_client : Client → Client
fresh_client c = record c { is_alive = false; missed_pongs = 0; is_resume = false }

abbrev pub ready_message : Json
ready_message = obj (object1 "event" (str "ready"))

unfoldable pub accept : DeviceSource → ℕ → Authenticated → ℕ → World → World
accept devices now a client w =
    let (w', ref) = establish_session now a client w in
    send client ready_message (on_connect devices now ref w')

-- What the rate limiter throws, a `HttpException` with a message, and what the other guard errors
-- throw.
abbrev pub seconds_text : Option ℕ → String
seconds_text none = "Too many requests. Try again later."
seconds_text (some seconds) =
    concat ("Too many requests. Try again in " ∷ show_nat seconds ∷ " seconds." ∷ [])

abbrev pub guard_error : GuardResult → Thrown
guard_error (too_many seconds) = http_object (some (seconds_text seconds)) ""
guard_error no_extractor = plain_error "No key extractor"
guard_error _ = plain_error "Invalid rate limit rule"

unfoldable pub authenticate_client : DeviceSource → ℕ → Outcome Authenticated → ℕ → World → World
authenticate_client devices now (ok a) client w = accept devices now a client w
authenticate_client devices now (thrown err) client w = reject err client w

-- `limited` is what `wsRateLimitGuard.validate` came to, `auth` what `validateConnection` did.
unfoldable pub handle_connection :
    DeviceSource → ℕ → GuardResult → Outcome Authenticated → ℕ → World → World
handle_connection devices now limited auth client w = elim limited [
  | passed ↦ authenticate_client devices now auth client (update_client client fresh_client w)
  | refused ↦ reject (guard_error refused) client w
]

abbrev pub session_of : Option Client → Option ℕ
session_of none = none
session_of (some c) = c.session

abbrev pub same_client : Option ℕ → ℕ → Bool
same_client none client = false
same_client (some current) client = nat_beq current client

unfoldable pub disconnect_from : ℕ → ℕ → Option ℕ → World → World
disconnect_from now client none w = w
disconnect_from now client (some ref) w =
    if same_client (socket_of (map_get ref w.sessions)) client then on_disconnect now ref w else w

unfoldable pub handle_disconnect : ℕ → ℕ → World → World
unfolding disconnect_from
handle_disconnect now client w =
    disconnect_from now client (session_of (map_get client w.clients)) w

unfoldable pub on_pong : ℕ → World → World
on_pong client w = update_client client ponged w

-- What the listener for messages does with an error of a handler.
unfoldable pub message_failed : Thrown → ℕ → World → World
message_failed err client w =
    let (w', e) = handle_error err client w in
    if is_fatal_error e.code
    then output (closed client (if e.code == "UNAUTHENTICATED" then 1008 else 1011) e.message) w'
    else w'
