-- ===== src/Auth/RefreshToken.antt =====
-- auth/services/refresh-token.service.ts and `refresh` of auth.service.ts. The table of tokens is a
-- list in the order of their creation; a client is its `client_id`.
pub mod Active
pub mod Overlap
pub mod Spent
use gateway_realtime.Common.{
  ltb, if◌then◌else◌, or_default, string_eq, nat_eq, ◌==◌, ℕ, String, Bool, true, false, ◌&&◌, not,
  Option, none, some, List, [], ◌∷◌, ◌++◌,
}
use gateway_realtime.Auth.JsInt.{JsInt, nan, plus, minus, parse_decimal}
use gateway_realtime.RateLimit.KeyExtractor.{non_empty}
use gateway_realtime.WsError.{Thrown, http_object, Outcome, ok, thrown}

pub record TokenRow : Type 0 where
  pub token : String
  pub client : String
  pub role : String
  pub expires_at : ℕ
  pub revoked : Bool

-- What the service is given: the table of clients, the setting REFRESH_TOKEN_EXPIRY_DAYS, the
-- addition of days in the zone of the server, and the library that signs access tokens.
pub record TokenContext : Type 0 where
  pub find_client : String → Option String
  pub expiry_setting : Option String
  pub add_days : JsInt → ℕ → ℕ
  pub sign : String → String → String → String

abbrev days_or_default : JsInt → JsInt
days_or_default nan = plus 7
days_or_default (plus n) = plus n
days_or_default (minus n) = minus n

unfoldable pub expires_in_days : TokenContext → JsInt
expires_in_days context =
    days_or_default (parse_decimal (or_default (non_empty context.expiry_setting) "7"))

unfoldable pub is_live : String → ℕ → TokenRow → Bool
is_live token now r = (r.token == token) && (not r.revoked && ltb now r.expires_at)

unfoldable pub find_live : String → ℕ → List TokenRow → Option TokenRow
unfolding is_live
find_live token now [] = none
find_live token now (r ∷ rs) = if is_live token now r then some r else find_live token now rs

-- `new UnauthorizedException(text)`
abbrev pub unauthorized : String → Thrown
unauthorized text = http_object (some text) text

pub record TokenOwner : Type 0 where
  pub client_id : String
  pub role : String

abbrev pub unknown_token : Thrown
unknown_token = unauthorized "Invalid or expired refresh token"

abbrev owner_of : Option TokenRow → Outcome TokenOwner
owner_of none = thrown unknown_token
owner_of (some r) = ok record { client_id = r.client; role = r.role }

unfoldable pub validate_token : String → ℕ → List TokenRow → Outcome TokenOwner
unfolding find_live
validate_token token now rows = owner_of (find_live token now rows)

abbrev pub revoked_row : TokenRow → TokenRow
revoked_row r = record {
  token = r.token;
  client = r.client;
  role = r.role;
  expires_at = r.expires_at;
  revoked = true;
}

unfoldable pub revoke : String → List TokenRow → List TokenRow
revoke token [] = []
revoke token (r ∷ rs) = (if r.token == token then revoked_row r else r) ∷ revoke token rs

-- `update({ client, revoked: false }, { revoked: true })`
unfoldable pub revoke_active : String → List TokenRow → List TokenRow
revoke_active client [] = []
revoke_active client (r ∷ rs) =
    (if (r.client == client) && not r.revoked then revoked_row r else r) ∷ revoke_active client rs

-- `repo.save({ token, client, role, expiresAt })`
unfoldable pub save_token :
    TokenContext → String → String → String → ℕ → List TokenRow → List TokenRow
unfolding expires_in_days
save_token context client role uuid now rows =
    rows
    ++ record {
      token = uuid;
      client = client;
      role = role;
      expires_at = context.add_days (expires_in_days context) now;
      revoked = false;
    }
      ∷ []

unfoldable pub create_for :
    TokenContext
    → Option String
    → String
    → String
    → ℕ
    → List TokenRow
    → List TokenRow × Outcome String
unfolding save_token revoke_active
create_for context none role uuid now rows = (rows, thrown (unauthorized "Client ID not found"))
create_for context (some client) role uuid now rows =
    (save_token context client role uuid now (revoke_active client rows), ok uuid)

unfoldable pub create_token :
    TokenContext → String → String → String → ℕ → List TokenRow → List TokenRow × Outcome String
unfolding create_for
create_token context client_id role uuid now rows =
    create_for context (context.find_client client_id) role uuid now rows

unfoldable pub revoke_found : Option String → List TokenRow → List TokenRow
unfolding revoke_active
revoke_found none rows = rows
revoke_found (some client) rows = revoke_active client rows

unfoldable pub revoke_all_for_client : TokenContext → String → List TokenRow → List TokenRow
unfolding revoke_found
revoke_all_for_client context client_id rows = revoke_found (context.find_client client_id) rows

pub record TokenPair : Type 0 where
  pub access_token : String
  pub refresh_token : String

abbrev pub pair_of : TokenContext → TokenOwner → Outcome String → Outcome TokenPair
pair_of context owner (thrown e) = thrown e
pair_of context owner (ok token) =
    ok
      record { access_token = context.sign owner.client_id owner.role "15m"; refresh_token = token }

-- What `refresh` does once its token has been looked up.
unfoldable pub exchange :
    TokenContext
    → Outcome TokenOwner
    → String
    → String
    → ℕ
    → List TokenRow
    → List TokenRow × Outcome TokenPair
unfolding create_token revoke
exchange context (thrown e) token uuid now rows = (rows, thrown e)
exchange context (ok owner) token uuid now rows =
    let (rows', created) =
      create_token context owner.client_id owner.role uuid now (revoke token rows) in
    (rows', pair_of context owner created)

-- A call that meets no other and whose statements all succeed; Overlap has the rest.
unfoldable pub refresh :
    TokenContext → String → String → ℕ → List TokenRow → List TokenRow × Outcome TokenPair
unfolding exchange validate_token
refresh context token uuid now rows =
    exchange context (validate_token token now rows) token uuid now rows

-- A call of the service, with the token that it issues.
pub data TokenCall : Type 0 where
  create_call : (client_id role uuid : String) (now : ℕ) → TokenCall
  refresh_call : (token uuid : String) (now : ℕ) → TokenCall
  revoke_call : (token : String) → TokenCall
  revoke_all_call : (client_id : String) → TokenCall

unfoldable pub call : TokenContext → TokenCall → List TokenRow → List TokenRow
unfolding create_token refresh revoke revoke_all_for_client
call context (create_call client_id role uuid now) rows =
    (create_token context client_id role uuid now rows).0
call context (refresh_call token uuid now) rows = (refresh context token uuid now rows).0
call context (revoke_call token) rows = revoke token rows
call context (revoke_all_call client_id) rows = revoke_all_for_client context client_id rows

unfoldable pub calls : TokenContext → List TokenCall → List TokenRow → List TokenRow
unfolding call
calls context [] rows = rows
calls context (c ∷ cs) rows = calls context cs (call context c rows)
