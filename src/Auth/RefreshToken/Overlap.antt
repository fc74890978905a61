-- ===== src/Auth/RefreshToken/Overlap.antt =====
-- `refresh` of auth.service.ts statement by statement: between two statements that it awaits others
-- run, and the database may refuse any of them.
use gateway_realtime.Common.{ℕ, zero, suc, String, ◌≢◌, Option, none, some, List, [], ◌∷◌, ◌++◌}
use gateway_realtime.Auth.RefreshToken.{
  TokenRow, TokenContext, unauthorized, TokenOwner, validate_token, revoke, revoke_active,
  save_token, TokenPair,
}
use gateway_realtime.WsError.{Thrown, Outcome, ok, thrown}

-- Where a call of `refresh` stands, by the statement that it awaits next.
pub data Stage : Type 0 where
  validating : Stage
  revoking finding_client : TokenOwner → Stage
  revoking_active saving : TokenOwner → String → Stage
  answered : TokenPair → Stage
  rejected : Thrown → Stage

pub record RefreshCall : Type 0 where
  pub token : String
  pub uuid : String
  pub stage : Stage

abbrev pub validated : Outcome TokenOwner → Stage
validated (thrown e) = rejected e
validated (ok owner) = revoking owner

abbrev pub client_found : TokenOwner → Option String → Stage
client_found owner none = rejected (unauthorized "Client ID not found")
client_found owner (some client) = revoking_active owner client

abbrev pub pair : TokenContext → TokenOwner → String → TokenPair
pair context owner uuid = record {
  access_token = context.sign owner.client_id owner.role "15m";
  refresh_token = uuid;
}

-- The stage after the statement that a stage awaits, and the table it leaves.
unfoldable pub run_statement :
    TokenContext → ℕ → String → String → Stage → List TokenRow → Stage × List TokenRow
run_statement context now token uuid validating rows =
    (validated (validate_token token now rows), rows)
run_statement context now token uuid (revoking owner) rows =
    (finding_client owner, revoke token rows)
run_statement context now token uuid (finding_client owner) rows =
    (client_found owner (context.find_client owner.client_id), rows)
run_statement context now token uuid (revoking_active owner client) rows =
    (saving owner client, revoke_active client rows)
run_statement context now token uuid (saving owner client) rows =
    (answered (pair context owner uuid), save_token context client owner.role uuid now rows)
run_statement context now token uuid (answered p) rows = (answered p, rows)
run_statement context now token uuid (rejected e) rows = (rejected e, rows)

abbrev pub at_stage : Stage → RefreshCall → RefreshCall
at_stage stage c = record { token = c.token; uuid = c.uuid; stage = stage }

pub record TokenState : Type 0 where
  pub rows : List TokenRow
  pub calls : List RefreshCall

-- One statement of the service: one that a call of `refresh` awaits, or one of the other methods,
-- which revoke tokens and save them. The token `token` is issued by none of them.
pub data Statement (context : TokenContext) (token : String)
    : TokenState → TokenState → Type 0 where
  begins :
      (other uuid : String) (rows : List TokenRow) (cs : List RefreshCall)
      → uuid ≢ token
      → Statement context token
          record { rows = rows; calls = cs }
          record {
            rows = rows;
            calls = record { token = other; uuid = uuid; stage = validating } ∷ cs;
          }
  runs :
      (now : ℕ) (rows : List TokenRow) (before : List RefreshCall) (c : RefreshCall)
      (behind : List RefreshCall)
      → Statement context token
          record { rows = rows; calls = before ++ c ∷ behind }
          record {
            rows = (run_statement context now c.token c.uuid c.stage rows).1;
            calls =
                before
                ++ at_stage (run_statement context now c.token c.uuid c.stage rows).0 c ∷ behind;
          }
  refused :
      (e : Thrown) (rows : List TokenRow) (before : List RefreshCall) (c : RefreshCall)
      (behind : List RefreshCall)
      → Statement context token
          record { rows = rows; calls = before ++ c ∷ behind }
          record { rows = rows; calls = before ++ at_stage (rejected e) c ∷ behind }
  saves :
      (client role uuid : String) (now : ℕ) (rows : List TokenRow) (cs : List RefreshCall)
      → uuid ≢ token
      → Statement context token
          record { rows = rows; calls = cs }
          record { rows = save_token context client role uuid now rows; calls = cs }
  revokes :
      (other : String) (rows : List TokenRow) (cs : List RefreshCall)
      → Statement context token
          record { rows = rows; calls = cs }
          record { rows = revoke other rows; calls = cs }
  revokes_active :
      (client : String) (rows : List TokenRow) (cs : List RefreshCall)
      → Statement context token
          record { rows = rows; calls = cs }
          record { rows = revoke_active client rows; calls = cs }

-- The histories of statements, in any order, from a table on which no call is under way.
pub data TokenHistory (context : TokenContext) (token : String) : TokenState → Type 0 where
  at_rest : (rows : List TokenRow) → TokenHistory context token record { rows = rows; calls = [] }
  then_runs :
      {st st' : TokenState}
      → TokenHistory context token st
      → Statement context token st st'
      → TokenHistory context token st'

-- A call that runs with nothing in between, for a number of statements.
unfoldable pub run_alone :
    TokenContext → ℕ → String → String → ℕ → Stage → List TokenRow → Stage × List TokenRow
run_alone context now token uuid zero stage rows = (stage, rows)
run_alone context now token uuid (suc n) stage rows =
    let (stage', rows') = run_statement context now token uuid stage rows in
    run_alone context now token uuid n stage' rows'

abbrev pub stage_of : Outcome TokenPair → Stage
stage_of (thrown e) = rejected e
stage_of (ok p) = answered p
