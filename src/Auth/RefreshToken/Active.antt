-- ===== src/Auth/RefreshToken/Active.antt =====
-- How many refresh tokens of a client are not revoked: auth/services/refresh-token.service.ts.

use text.Mathlib.TextPositions.{eq_refl}
-- The rows of a client that are not revoked.

use gateway_realtime.Common.{
  if◌then◌else◌, lt→ltb, Bool-cases, All, string_eq, nat_eq, ◌==◌, ℕ, ◌+◌, ◌≤◌, ◌<◌, String, ◌≡◌,
  refl, ◌≢◌, inl, inr, false, ◌&&◌, not, Option, none, some, List, [], ◌∷◌, ◌++◌, arith, eq_iff,
}
use gateway_realtime.Auth.RefreshToken.{
  TokenRow, TokenContext, expires_in_days, is_live, find_live, TokenOwner, validate_token, revoke,
  revoke_active, save_token, create_for, create_token, revoke_found, revoke_all_for_client,
  exchange, refresh, TokenCall, create_call, refresh_call, revoke_call, revoke_all_call, call,
  calls,
}
use gateway_realtime.WsError.{Outcome, ok, thrown}

unfoldable pub active_count : String → List TokenRow → ℕ
active_count client [] = 0
active_count client (r ∷ rs) =
    (if (r.client == client) && not r.revoked then 1 else 0) + active_count client rs

-- `create` revokes what a client had, so that one token at most is left.
abbrev pub OneActive : List TokenRow → Type 0
OneActive rows = (client : String) → active_count client rows ≤ 1

active-append :
    (client : String) (rows : List TokenRow) (r : TokenRow)
    → active_count client (rows ++ r ∷ [])
      ≡ active_count client rows + (if (r.client == client) && not r.revoked then 1 else 0)
unfolding active_count
active-append client [] r = omega arith
active-append client (x ∷ rows) r = omega (arith, active-append client rows r)

active-revoke :
    (client token : String) (rows : List TokenRow)
    → active_count client (revoke token rows) ≤ active_count client rows
unfolding active_count revoke
active-revoke client token [] = omega arith
active-revoke client token (r ∷ rs) =
    ground (arith, eq_iff r.token token, eq_iff r.client client, active-revoke client token rs)

active-revoke_active :
    (client other : String) (rows : List TokenRow)
    → active_count client (revoke_active other rows)
      ≡ (if other == client then 0 else active_count client rows)
unfolding active_count revoke_active
active-revoke_active client other [] = ground (arith, eq_iff other client)
active-revoke_active client other (r ∷ rs) = ground (
  arith,
  eq_iff r.client other,
  eq_iff r.client client,
  eq_iff other client,
  active-revoke_active client other rs,
)

create_for-OneActive :
    (context : TokenContext) (found : Option String) (role uuid : String) (at : ℕ)
    (rows : List TokenRow)
    → OneActive rows
    → OneActive (create_for context found role uuid at rows).0
unfolding create_for save_token
create_for-OneActive context none role uuid at rows v client = v client
create_for-OneActive context (some other) role uuid at rows v client =
    rw (active-append client (revoke_active other rows) _, active-revoke_active client other rows)
      (ground (arith, eq_iff other client, v client))

exchange-OneActive :
    (context : TokenContext) (found : Outcome TokenOwner) (token uuid : String) (at : ℕ)
    (rows : List TokenRow)
    → OneActive rows
    → OneActive (exchange context found token uuid at rows).0
unfolding exchange create_token
exchange-OneActive context (thrown e) token uuid at rows v = v
exchange-OneActive context (ok owner) token uuid at rows v =
    create_for-OneActive context (context.find_client owner.client_id) owner.role uuid at
      (revoke token rows) (λ client. omega (arith, active-revoke client token rows, v client))

revoke_found-OneActive :
    (found : Option String) (rows : List TokenRow)
    → OneActive rows
    → OneActive (revoke_found found rows)
unfolding revoke_found
revoke_found-OneActive none rows v = v
revoke_found-OneActive (some other) rows v =
    λ client. ground (arith, active-revoke_active client other rows, v client)

call-OneActive :
    (context : TokenContext) (c : TokenCall) (rows : List TokenRow)
    → OneActive rows
    → OneActive (call context c rows)
unfolding call create_token refresh revoke_all_for_client
call-OneActive context (create_call client_id role uuid at) rows v =
    create_for-OneActive context (context.find_client client_id) role uuid at rows v
call-OneActive context (refresh_call token uuid at) rows v =
    exchange-OneActive context (validate_token token at rows) token uuid at rows v
call-OneActive context (revoke_call token) rows v =
    λ client. omega (arith, active-revoke client token rows, v client)
call-OneActive context (revoke_all_call client_id) rows v =
    revoke_found-OneActive (context.find_client client_id) rows v

-- A client has one refresh token at most that is not revoked: every sequence of calls of the
-- service keeps this, from a table where it holds.
pub calls-OneActive :
    (context : TokenContext) (cs : List TokenCall) (rows : List TokenRow)
    → OneActive rows
    → OneActive (calls context cs rows)
unfolding calls
calls-OneActive context [] rows v = v
calls-OneActive context (c ∷ cs) rows v =
    calls-OneActive context cs (call context c rows) (call-OneActive context c rows v)

not_found :
    (token : String) (now : ℕ) (rows : List TokenRow) (r : TokenRow)
    → All (λ x. x.token ≢ token) rows
    → find_live token now (rows ++ r ∷ []) ≡ find_live token now (r ∷ [])
unfolding find_live is_live
not_found token now [] r n = refl
not_found token now (x ∷ rows) r n =
    ground (arith, eq_iff x.token token, n.0, not_found token now rows r n.1)

other_token-revoke_active :
    (token client : String) (rows : List TokenRow)
    → All (λ x. x.token ≢ token) rows
    → All (λ x. x.token ≢ token) (revoke_active client rows)
unfolding revoke_active
other_token-revoke_active token client [] n = tt
other_token-revoke_active token client (r ∷ rs) n = (
  elim (Bool-cases ((r.client == client) && not r.revoked)) [ inl q ↦ rw q n.0 | inr q ↦ rw q n.0 ],
  other_token-revoke_active token client rs n.1,
)

abbrev issued : TokenContext → String → String → String → ℕ → TokenRow
issued context client role uuid now = record {
  token = uuid;
  client = client;
  role = role;
  expires_at = context.add_days (expires_in_days context) now;
  revoked = false;
}

live_row :
    (context : TokenContext) (client role uuid : String) (now later : ℕ)
    → later < context.add_days (expires_in_days context) now
    → find_live uuid later (issued context client role uuid now ∷ [])
      ≡ some (issued context client role uuid now)
unfolding find_live is_live
live_row context client role uuid now later h =
    rw (eq_refl uuid, lt→ltb later (context.add_days (expires_in_days context) now) h) refl

-- A token that `create` issues to a known client, under an identifier that no row of the table
-- has, is accepted until the time it expires, and it names the client and the role it was made for.
pub validate_token-create_token :
    (context : TokenContext) (client_id client role uuid : String) (now later : ℕ)
    (rows : List TokenRow)
    → context.find_client client_id ≡ some client
    → All (λ x. x.token ≢ uuid) rows
    → later < context.add_days (expires_in_days context) now
    → validate_token uuid later (create_token context client_id role uuid now rows).0
      ≡ ok record { client_id = client; role = role }
unfolding validate_token create_token create_for save_token
validate_token-create_token context client_id client role uuid now later rows e n h =
    rw
      (
        e,
        not_found uuid later (revoke_active client rows) _
            (other_token-revoke_active uuid client rows n),
        live_row context client role uuid now later h,
      )
      refl
