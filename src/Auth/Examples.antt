-- ===== src/Auth/Examples.antt =====
-- Runs of the authentication, and the theorems at concrete inputs.
use gateway_realtime.Common.{
  if◌then◌else◌, map_set, set_add, concat, string_eq, nat_eq, ◌==◌, ℕ, ◌+◌, ◌*◌, ◌<◌, String, ◌≡◌,
  refl, ◌≢◌, ◌↔◌, false, ◌&&◌, Option, none, some, List, [], ◌∷◌, arith, eq_iff,
}
use gateway_realtime.Auth.Device.{DeviceRow, DeviceQueries, get_auth}
use gateway_realtime.Auth.Hmac.{
  HmacPayload, ParsedToken, not_json, payload_value, HmacContext, AuthResult, hmac_validate,
}
use gateway_realtime.Auth.Hmac.Laws.{Authentic, hmac_validate_iff}
use gateway_realtime.Auth.JsInt.{JsInt, nan, plus, minus, parse_decimal, parse_int}
use gateway_realtime.Auth.RefreshToken.{
  TokenRow, TokenContext, expires_in_days, is_live, find_live, TokenOwner, unknown_token,
  validate_token, revoke, create_token, refresh, TokenCall, create_call, revoke_call,
  revoke_all_call, calls,
}
use gateway_realtime.Auth.RefreshToken.Active.{
  active_count, OneActive, calls-OneActive, validate_token-create_token,
}
use gateway_realtime.Auth.RefreshToken.Overlap.{
  Stage, validating, revoking, finding_client, answered, pair, run_statement, begins, runs,
  TokenHistory, at_rest, then_runs, run_alone,
}
use gateway_realtime.Auth.RefreshToken.Spent.{refresh_spends}
use gateway_realtime.Principal.{bell, device_user}
use gateway_realtime.WsError.{Outcome, ok, thrown, app_ws_exception}

abbrev days_of : JsInt → ℕ
days_of nan = 0
days_of (plus n) = n
days_of (minus n) = 0

abbrev find_school : String → Option String
find_school name = if name == "school" then some "school" else none

abbrev token_context : TokenContext
token_context = record {
  find_client = find_school;
  expiry_setting = some "2";
  add_days = λ days now. now + days_of days * 86400000;
  sign = λ client role expires. concat (client ∷ "/" ∷ role ∷ []);
}

abbrev first_table : List TokenRow
first_table =
    record { token = "t1"; client = "school"; role = "admin"; expires_at = 5000; revoked = false }
    ∷ []

refresh_issues :
    (refresh token_context "t1" "t2" 1000 first_table).1
    ≡ ok record { access_token = "school/admin"; refresh_token = "t2" }
unfolding refresh
refresh_issues = refl

refresh_late : (refresh token_context "t1" "t2" 5000 first_table).1 ≡ thrown unknown_token
unfolding refresh
refresh_late = refl

t2_not_t1 : ◌≢◌ {A = String} "t2" "t1"
t2_not_t1 = ground (arith, eq_iff "t2" "t1")

abbrev later_calls : List TokenCall
later_calls =
    create_call "school" "admin" "t3" 2000 ∷ revoke_call "t2" ∷ revoke_all_call "school" ∷ []

first_table-OneActive : OneActive first_table
unfolding active_count
first_table-OneActive client = ground (arith, eq_iff "school" client)

calls-OneActive_example : OneActive (calls token_context later_calls first_table)
calls-OneActive_example =
    calls-OneActive token_context later_calls first_table first_table-OneActive

two_days : 172000000 < 1000 + days_of (expires_in_days token_context) * 86400000
unfolding expires_in_days parse_decimal
two_days = omega arith

t1_not_t2 : ◌≢◌ {A = String} "t1" "t2"
t1_not_t2 = ground (arith, eq_iff "t1" "t2")

validate_token-create_token_example :
    validate_token "t2" 172000000
      (create_token token_context "school" "guru" "t2" 1000 first_table).0
    ≡ ok record { client_id = "school"; role = "guru" }
validate_token-create_token_example =
    validate_token-create_token token_context "school" "school" "guru" "t2" 1000 172000000
      first_table refl (t1_not_t2, tt) two_days

abbrev bell_row : DeviceRow
bell_row = record {
  client_id = "school";
  id_device = "7";
  device_id = "d7";
  id_enduser = 42;
  key_device = some "k";
  product_name = "bell";
  device_product = bell;
  domain = "bell.test";
  secret = "s";
}

abbrev rows_of : String → String → Outcome (List DeviceRow)
rows_of client_id device_id =
    ok (if (client_id == "school") && (device_id == "d7") then bell_row ∷ [] else [])

abbrev device_queries : DeviceQueries
device_queries = record {
  device_rows = rows_of;
  blacklist_send = λ id. ok ("e1" ∷ "e1" ∷ []);
  blacklist_get = λ id. ok [];
}

abbrev sample_payload : String → String → HmacPayload
sample_payload timestamp signature = record {
  client_id = some "school";
  timestamp = some timestamp;
  signature = some signature;
  device_id = some "d7";
}

abbrev parse_sample : String → ParsedToken
parse_sample token =
    if token == "good"
    then payload_value (sample_payload "1000" "0aFFzz")
    else if token == "late"
    then payload_value (sample_payload "1" "0aff")
    else if token == "word"
    then payload_value (sample_payload "soon" "0aff")
    else if token == "forged"
    then payload_value (sample_payload "1000" "0afe")
    else not_json

abbrev hmac_context : HmacContext
hmac_context = record {
  parse_json = parse_sample;
  hmac_sha256 = λ key message. "0aff";
  queries = device_queries;
}

abbrev device_seven : AuthResult
device_seven = record {
  auth = device_user record {
    client_id = "school";
    products = ("bell", record { domain = "bell.test"; secret = "s" }) ∷ [];
    device_id = "d7";
    blacklist_send = some ("e1" ∷ []);
    blacklist_get = some [];
    id_device = "7";
    device_product = bell;
  };
  id_enduser = 42;
}

good_token : hmac_validate hmac_context 300000 "good" ≡ ok device_seven
unfolding hmac_validate parse_int get_auth map_set set_add
good_token = refl

-- A timestamp that is no number is never too old.
word_token : hmac_validate hmac_context 999999999 "word" ≡ ok device_seven
unfolding hmac_validate parse_int get_auth map_set set_add
word_token = refl

late_token :
    hmac_validate hmac_context 300002 "late"
    ≡ thrown (app_ws_exception "TOKEN_EXPIRED" "HMAC token expired")
unfolding hmac_validate parse_int
late_token = refl

forged_token :
    hmac_validate hmac_context 1000 "forged"
    ≡ thrown (app_ws_exception "INVALID_SIGNATURE" "Invalid HMAC signature")
unfolding hmac_validate parse_int get_auth map_set set_add
forged_token = refl

hmac_validate_iff_example :
    (hmac_validate hmac_context 300000 "good" ≡ ok device_seven)
    ↔ Authentic hmac_context 300000 "good" device_seven
hmac_validate_iff_example = hmac_validate_iff hmac_context 300000 "good" device_seven

abbrev school_admin : TokenOwner
school_admin = record { client_id = "school"; role = "admin" }

-- A call that has begun, and the two statements after which it has revoked its token.
spent_history : TokenHistory token_context "t1" record {
  rows = revoke "t1" first_table;
  calls = record { token = "t1"; uuid = "t2"; stage = finding_client school_admin } ∷ [];
}
unfolding run_statement validate_token find_live is_live
spent_history =
    then_runs
      (then_runs (then_runs (at_rest first_table) (begins "t1" "t2" first_table [] t2_not_t1))
        (runs 1000 first_table [] record { token = "t1"; uuid = "t2"; stage = validating } []))
      (runs 1000 first_table [] record { token = "t1"; uuid = "t2"; stage = revoking school_admin }
        [])

refresh_spends_example : validate_token "t1" 1000 (revoke "t1" first_table) ≡ thrown unknown_token
refresh_spends_example =
    refresh_spends [] record { token = "t1"; uuid = "t2"; stage = finding_client school_admin } []
      1000 spent_history refl refl refl

-- Two calls with one token that are both looked up before either revokes it are both answered.
abbrev looked_up : Stage × List TokenRow
looked_up = run_statement token_context 1000 "t1" "t2" validating first_table

abbrev other_done : Stage × List TokenRow
other_done = run_alone token_context 1000 "t1" "t3" 5 validating looked_up.1

other_answered : other_done.0 ≡ answered (pair token_context school_admin "t3")
unfolding run_alone run_statement validate_token find_live is_live
other_answered = refl

first_answered :
    (run_alone token_context 1000 "t1" "t2" 4 looked_up.0 other_done.1).0
    ≡ answered (pair token_context school_admin "t2")
unfolding run_alone run_statement validate_token find_live is_live
first_answered = refl
