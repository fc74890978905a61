-- ===== src/Auth/RefreshToken/Spent.antt =====
-- A refresh token is spent once a call has revoked it, whatever runs in between:
-- services/refresh-token.service.ts and `refresh` of services/auth.service.ts.
use gateway_realtime.Common.{
  Bool-cases, All, string_eq, nat_eq, ◌==◌, ℕ, String, ◌≡◌, refl, sym, subst, ◌≢◌, ◌⊎◌, inl, inr,
  Bool, true, false, ◌&&◌, not, none, List, [], ◌∷◌, ◌++◌, arith, eq_iff,
}
use gateway_realtime.Auth.RefreshToken.{
  TokenRow, TokenContext, is_live, find_live, TokenOwner, unknown_token, validate_token, revoke,
  revoke_active, save_token,
}
use gateway_realtime.Auth.RefreshToken.Overlap.{
  Stage, validating, revoking, finding_client, revoking_active, saving, answered, rejected,
  RefreshCall, validated, run_statement, at_stage, TokenState, Statement, begins, runs, refused,
  saves, revokes, revokes_active, TokenHistory, at_rest, then_runs,
}
use gateway_realtime.WsError.{Thrown, Outcome, ok, thrown}

-- No row of the token is left that is not revoked.
abbrev Spent : String → List TokenRow → Type 0
Spent token rows = All (λ r. ((r.token == token) && not r.revoked) ≡ false) rows

Spent-find_live :
    (token : String) (now : ℕ) (rows : List TokenRow)
    → Spent token rows
    → find_live token now rows ≡ none
unfolding find_live is_live
Spent-find_live token now [] h = refl
Spent-find_live token now (r ∷ rs) h = ground (arith, h.0, Spent-find_live token now rs h.1)

Spent-validate :
    (token : String) (now : ℕ) (rows : List TokenRow)
    → Spent token rows
    → validate_token token now rows ≡ thrown unknown_token
unfolding validate_token
Spent-validate token now rows h = rw (Spent-find_live token now rows h) refl

revoke-Spent : (token : String) (rows : List TokenRow) → Spent token (revoke token rows)
unfolding revoke
revoke-Spent token [] = tt
revoke-Spent token (r ∷ rs) = (ground (arith, eq_iff r.token token), revoke-Spent token rs)

Spent-revoke :
    (token other : String) (rows : List TokenRow)
    → Spent token rows
    → Spent token (revoke other rows)
unfolding revoke
Spent-revoke token other [] h = tt
Spent-revoke token other (r ∷ rs) h = (ground (arith, h.0), Spent-revoke token other rs h.1)

Spent-revoke_active :
    (token client : String) (rows : List TokenRow)
    → Spent token rows
    → Spent token (revoke_active client rows)
unfolding revoke_active
Spent-revoke_active token client [] h = tt
Spent-revoke_active token client (r ∷ rs) h =
    (ground (arith, h.0), Spent-revoke_active token client rs h.1)

Spent-snoc :
    (token : String) (rows : List TokenRow) (r : TokenRow)
    → r.token ≢ token
    → Spent token rows
    → Spent token (rows ++ r ∷ [])
Spent-snoc token [] r n h = (ground (arith, eq_iff r.token token), tt)
Spent-snoc token (x ∷ rows) r n h = (h.0, Spent-snoc token rows r n h.1)

Spent-save :
    (context : TokenContext) (token client role uuid : String) (now : ℕ) (rows : List TokenRow)
    → uuid ≢ token
    → Spent token rows
    → Spent token (save_token context client role uuid now rows)
unfolding save_token
Spent-save context token client role uuid now rows n h = Spent-snoc token rows _ n h

-- The call has got past the statement that revokes its token.
abbrev pub is_past : Stage → Bool
is_past validating = false
is_past (revoking owner) = false
is_past (rejected e) = false
is_past _ = true

-- A call of the token that is not yet that far, or a call of another one.
abbrev Before : String → RefreshCall → Type 0
Before token c = ((c.token == token) && is_past c.stage) ≡ false

abbrev IssuesNew : String → RefreshCall → Type 0
IssuesNew token c = c.uuid ≢ token

module _ (P : RefreshCall → Type 0) where
  All-middle :
      (before : List RefreshCall) (c : RefreshCall) (behind : List RefreshCall)
      → All P (before ++ c ∷ behind)
      → P c
  All-middle [] c behind h = h.0
  All-middle (x ∷ before) c behind h = All-middle before c behind h.1

  All-replace :
      (before : List RefreshCall) (c d : RefreshCall) (behind : List RefreshCall)
      → P d
      → All P (before ++ c ∷ behind)
      → All P (before ++ d ∷ behind)
  All-replace [] c d behind p h = (p, h.1)
  All-replace (x ∷ before) c d behind p h = (h.0, All-replace before c d behind p h.1)

-- A statement of a call leaves a spent token spent.
Spent-run :
    (context : TokenContext) (token other uuid : String) (now : ℕ) (stage : Stage)
    (rows : List TokenRow)
    → uuid ≢ token
    → Spent token rows
    → Spent token (run_statement context now other uuid stage rows).1
unfolding run_statement
Spent-run context token other uuid now validating rows n h = h
Spent-run context token other uuid now (revoking owner) rows n h = Spent-revoke token other rows h
Spent-run context token other uuid now (finding_client owner) rows n h = h
Spent-run context token other uuid now (revoking_active owner client) rows n h =
    Spent-revoke_active token client rows h
Spent-run context token other uuid now (saving owner client) rows n h =
    Spent-save context token client owner.role uuid now rows n h
Spent-run context token other uuid now (answered p) rows n h = h
Spent-run context token other uuid now (rejected e) rows n h = h

is_past-validated : (o : Outcome TokenOwner) → is_past (validated o) ≡ false
is_past-validated (thrown e) = refl
is_past-validated (ok owner) = refl

-- A call of the token gets past only by revoking it.
run_own :
    (context : TokenContext) (token uuid : String) (now : ℕ) (stage : Stage) (rows : List TokenRow)
    → is_past stage ≡ false
    → Spent token (run_statement context now token uuid stage rows).1
      ⊎ (is_past (run_statement context now token uuid stage rows).0 ≡ false)
unfolding run_statement
run_own context token uuid now validating rows h =
    inr (is_past-validated (validate_token token now rows))
run_own context token uuid now (revoking owner) rows h = inl (revoke-Spent token rows)
run_own context token uuid now (finding_client owner) rows h = absurd (cc)
run_own context token uuid now (revoking_active owner client) rows h = absurd (cc)
run_own context token uuid now (saving owner client) rows h = absurd (cc)
run_own context token uuid now (answered p) rows h = absurd (cc)
run_own context token uuid now (rejected e) rows h = inr refl

run_call :
    (context : TokenContext) (token : String) (now : ℕ) (c : RefreshCall) (rows : List TokenRow)
    → Before token c
    → Spent token (run_statement context now c.token c.uuid c.stage rows).1
      ⊎ Before token (at_stage (run_statement context now c.token c.uuid c.stage rows).0 c)
run_call context token now c rows h = elim (Bool-cases (c.token == token)) [
  | inr other ↦ inr (ground (arith, other))
  | inl same ↦
      let own : c.token ≡ token = (eq_iff c.token token).0 same in
      let step = run_own context token c.uuid now c.stage rows (ground (arith, same, h)) in
      subst
        (λ t.
          Spent token (run_statement context now t c.uuid c.stage rows).1
          ⊎ (((t == token) && is_past (run_statement context now t c.uuid c.stage rows).0) ≡ false))
        (sym own) (elim step [ inl spent ↦ inl spent | inr early ↦ inr (ground (arith, early)) ])
]

-- Either the token is spent or no call of it has got past its revocation.
abbrev Kept : String → TokenState → Type 0
Kept token st = All (IssuesNew token) st.calls × (Spent token st.rows ⊎ All (Before token) st.calls)

Kept-runs :
    (context : TokenContext) (token : String) (now : ℕ) (rows : List TokenRow)
    (before : List RefreshCall) (c : RefreshCall) (behind : List RefreshCall)
    → Kept token record { rows = rows; calls = before ++ c ∷ behind }
    → Kept token record {
      rows = (run_statement context now c.token c.uuid c.stage rows).1;
      calls =
          before ++ at_stage (run_statement context now c.token c.uuid c.stage rows).0 c ∷ behind;
    }
Kept-runs context token now rows before c behind (fresh, k) =
    let c' = at_stage (run_statement context now c.token c.uuid c.stage rows).0 c in
    let own = All-middle (IssuesNew token) before c behind fresh in
    (
      All-replace (IssuesNew token) before c c' behind own fresh,
      elim k [
        | inl spent ↦ inl (Spent-run context token c.token c.uuid now c.stage rows own spent)
        | inr early ↦
            elim (run_call context token now c rows
              (All-middle (Before token) before c behind early)) [
                | inl spent ↦ inl spent
                | inr yet ↦ inr (All-replace (Before token) before c c' behind yet early)
              ]
      ],
    )

Kept-refused :
    (token : String) (e : Thrown) (rows : List TokenRow) (before : List RefreshCall)
    (c : RefreshCall) (behind : List RefreshCall)
    → Kept token record { rows = rows; calls = before ++ c ∷ behind }
    → Kept token record { rows = rows; calls = before ++ at_stage (rejected e) c ∷ behind }
Kept-refused token e rows before c behind (fresh, k) =
    let c' = at_stage (rejected e) c in
    (
      All-replace (IssuesNew token) before c c' behind
          (All-middle (IssuesNew token) before c behind fresh) fresh,
      elim k [
        | inl spent ↦ inl spent
        | inr early ↦ inr (All-replace (Before token) before c c' behind (ground arith) early)
      ],
    )

Kept-rows :
    (token : String) (rows rows' : List TokenRow) (cs : List RefreshCall)
    → (Spent token rows → Spent token rows')
    → Kept token record { rows = rows; calls = cs }
    → Kept token record { rows = rows'; calls = cs }
Kept-rows token rows rows' cs f (fresh, k) =
    (fresh, elim k [ inl spent ↦ inl (f spent) | inr early ↦ inr early ])

Statement-Kept :
    {context : TokenContext} {token : String} {st st' : TokenState}
    → Statement context token st st'
    → Kept token st
    → Kept token st'
Statement-Kept {context} {token} (begins other uuid rows cs n) (fresh, k) =
    ((n, fresh), elim k [ inl spent ↦ inl spent | inr early ↦ inr (ground arith, early) ])
Statement-Kept {context} {token} (runs now rows before c behind) k =
    Kept-runs context token now rows before c behind k
Statement-Kept {context} {token} (refused e rows before c behind) k =
    Kept-refused token e rows before c behind k
Statement-Kept {context} {token} (saves client role uuid now rows cs n) k =
    Kept-rows token rows _ cs (Spent-save context token client role uuid now rows n) k
Statement-Kept {context} {token} (revokes other rows cs) k =
    Kept-rows token rows _ cs (Spent-revoke token other rows) k
Statement-Kept {context} {token} (revokes_active client rows cs) k =
    Kept-rows token rows _ cs (Spent-revoke_active token client rows) k

TokenHistory-Kept :
    {context : TokenContext} {token : String} {st : TokenState}
    → TokenHistory context token st
    → Kept token st
TokenHistory-Kept (at_rest rows) = (tt, inr tt)
TokenHistory-Kept (then_runs r s) = Statement-Kept s (TokenHistory-Kept r)

-- In every history of statements, however calls of `refresh` and of the other methods overlap and
-- whichever statements the database refuses: while a call of `refresh` with a token stands past the
-- statement that revokes it, an answered call among them, the token is accepted at no time. That
-- `randomUUID` gives the token to no call of the history is part of the history.
pub refresh_spends :
    {context : TokenContext} {token : String} {st : TokenState} (before : List RefreshCall)
    (c : RefreshCall) (behind : List RefreshCall) (later : ℕ)
    → TokenHistory context token st
    → st.calls ≡ before ++ c ∷ behind
    → c.token ≡ token
    → is_past c.stage ≡ true
    → validate_token token later st.rows ≡ thrown unknown_token
refresh_spends {context} {token} {st} before c behind later history at own past =
    elim (TokenHistory-Kept history).1 [
      | inl spent ↦ Spent-validate token later st.rows spent
      | inr early ↦
          let b = All-middle (Before token) before c behind (subst (All (Before token)) at early) in
          absurd (ground (arith, b, past, (eq_iff c.token token).1 own))
    ]
