-- ===== src/Auth/Hmac/Laws.antt =====
-- Which HMAC tokens are accepted: auth/strategies/hmac-auth.strategy.ts.
use gateway_realtime.Common.{
  Bool-cases, ℕ, ◌+◌, ◌≤◌, String, ◌≡◌, refl, sym, ap, subst, ◌↔◌, inl, inr, true, false, Option,
  none, some, List, [], ◌∷◌, arith,
}
use gateway_realtime.Auth.Device.{AuthDevice, get_auth}
use gateway_realtime.Auth.Hmac.{
  HmacPayload, ParsedToken, not_json, null_value, payload_value, HmacContext, HmacFields,
  complete_fields, hmac_expired, from_hex, bytes_beq, compare_signatures, keyed_hmac, create_hmac,
  signed_message, AuthResult, device_result, check_signature, check_device, check_fields,
  check_parsed, hmac_validate,
}
use gateway_realtime.Auth.JsInt.{JsInt, nan, plus, minus, parse_int}
use gateway_realtime.RateLimit.KeyExtractor.{non_empty}
use gateway_realtime.WsError.{Thrown, Outcome, ok, thrown}

-- The timestamp is at most five minutes away, or is no number.
abbrev pub InWindow : ℕ → JsInt → Type 0
InWindow now nan = Unit
InWindow now (plus t) = (now ≤ t + 300000) × (t ≤ now + 300000)
InWindow now (minus t) = now + t ≤ 300000

pub hmac_expired-InWindow : (now : ℕ) (t : JsInt) → (hmac_expired now t ≡ false) ↔ InWindow now t
unfolding hmac_expired
hmac_expired-InWindow now nan = (λ e. tt, λ h. refl)
hmac_expired-InWindow now (plus t) = (λ e. ground (arith, e), λ h. ground (arith, h.0, h.1))
hmac_expired-InWindow now (minus t) = (λ e. ground (arith, e), λ h. ground (arith, h))

-- What makes a token authentic for a device: its fields, the time, the device's row and key, and
-- the bytes of the signature.
pub record Authentic (context : HmacContext) (now : ℕ) (token : String) (result : AuthResult)
    : Type 0 where
  pub payload : HmacPayload
  pub fields : HmacFields
  pub found : AuthDevice
  pub key : String
  pub parsed : context.parse_json token ≡ payload_value payload
  pub complete : complete_fields payload ≡ some fields
  pub in_window : InWindow now (parse_int fields.timestamp)
  pub known : get_auth context.queries fields.client_id fields.device_id ≡ ok found
  pub has_key : non_empty found.key_device ≡ some key
  pub signed :
      from_hex fields.signature ≡ from_hex (context.hmac_sha256 key (signed_message fields))
  pub is_result : result ≡ device_result found

bytes_beq→eq : (xs ys : List ℕ) → bytes_beq xs ys ≡ true → xs ≡ ys
bytes_beq→eq [] [] e = refl
bytes_beq→eq [] (y ∷ ys) e = absurd (ground (arith, e))
bytes_beq→eq (x ∷ xs) [] e = absurd (ground (arith, e))
bytes_beq→eq (x ∷ xs) (y ∷ ys) e =
    let head : x ≡ y = ground (arith, e) in
    let tail : xs ≡ ys = bytes_beq→eq xs ys (ground (arith, e)) in cc (head, tail)

bytes_beq_refl : (xs : List ℕ) → bytes_beq xs xs ≡ true
bytes_beq_refl [] = refl
bytes_beq_refl (x ∷ xs) = ground (arith, bytes_beq_refl xs)

-- The comparison of signatures is the equality of their bytes.
compare_signatures_iff :
    (sig1 sig2 : String) → (compare_signatures sig1 sig2 ≡ true) ↔ (from_hex sig1 ≡ from_hex sig2)
unfolding compare_signatures
compare_signatures_iff sig1 sig2 =
    (bytes_beq→eq (from_hex sig1) (from_hex sig2), λ e. rw e (bytes_beq_refl (from_hex sig2)))

ok_inj {ℓ} : {A : Type ℓ} (a b : A) → ok a ≡ ok b → a ≡ b
ok_inj a b e = ap (λ o. elim o [ ok c ↦ c | thrown t ↦ a ]) e

thrown_ok {ℓ κ} : {A : Type ℓ} {B : Type κ} (t : Thrown) (a : A) → thrown t ≡ ok a → B
thrown_ok t a e = absurd (subst (λ o. elim o [ ok c ↦ ⊥ | thrown u ↦ Unit ]) e tt)

-- The same parts for a payload whose fields are there and in time.
abbrev Signs : HmacContext → HmacFields → AuthDevice → AuthResult → Type 0
Signs context f found result =
    (key : String) × ((non_empty found.key_device ≡ some key)
      × ((from_hex f.signature ≡ from_hex (context.hmac_sha256 key (signed_message f)))
          × (result ≡ device_result found)))

check_signature-ok :
    (signature expected : String) (found : AuthDevice) (result : AuthResult)
    → check_signature signature found (ok expected) ≡ ok result
    → (from_hex signature ≡ from_hex expected) × (result ≡ device_result found)
unfolding check_signature
check_signature-ok signature expected found result e =
    elim (Bool-cases (compare_signatures signature expected)) [
      | inl q ↦ (
        (compare_signatures_iff signature expected).0 q,
        sym (ok_inj (device_result found) result (rw q at e)),
      )
      | inr q ↦ thrown_ok _ result (rw q at e)
    ]

create_hmac-Signs :
    (context : HmacContext) (f : HmacFields) (found : AuthDevice) (result : AuthResult)
    (secret : Option String)
    → non_empty found.key_device ≡ secret
    → check_device context f (ok found) ≡ ok result
    → Signs context f found result
unfolding check_device create_hmac keyed_hmac check_signature
create_hmac-Signs context f found result none q e = thrown_ok _ result (rw q at e)
create_hmac-Signs context f found result (some key) q e =
    let (signed, same) =
      check_signature-ok f.signature (context.hmac_sha256 key (signed_message f)) found result
        (rw q at e) in
    (key, (q, (signed, same)))

check_device-Signs :
    (context : HmacContext) (f : HmacFields) (answer : Outcome AuthDevice) (result : AuthResult)
    → check_device context f answer ≡ ok result
    → (found : AuthDevice) × ((answer ≡ ok found) × Signs context f found result)
unfolding check_device
check_device-Signs context f (thrown t) result e = thrown_ok t result e
check_device-Signs context f (ok found) result e =
    (found, (refl, create_hmac-Signs context f found result (non_empty found.key_device) refl e))

check_fields-Signs :
    (context : HmacContext) (now : ℕ) (f : HmacFields) (result : AuthResult)
    → check_fields context now (some f) ≡ ok result
    → InWindow now (parse_int f.timestamp)
      × ((found : AuthDevice) × ((get_auth context.queries f.client_id f.device_id ≡ ok found)
            × Signs context f found result))
unfolding check_fields
check_fields-Signs context now f result e =
    elim (Bool-cases (hmac_expired now (parse_int f.timestamp))) [
      | inl q ↦ thrown_ok _ result (rw q at e)
      | inr q ↦ (
        (hmac_expired-InWindow now (parse_int f.timestamp)).0 q,
        check_device-Signs context f (get_auth context.queries f.client_id f.device_id) result
            (rw q at e),
      )
    ]

complete-Authentic :
    (context : HmacContext) (now : ℕ) (token : String) (result : AuthResult) (p : HmacPayload)
    (fields : Option HmacFields)
    → context.parse_json token ≡ payload_value p
    → complete_fields p ≡ fields
    → check_fields context now fields ≡ ok result
    → Authentic context now token result
unfolding check_fields
complete-Authentic context now token result p none parsed q e = thrown_ok _ result e
complete-Authentic context now token result p (some f) parsed q e =
    let (window, (found, (known, (key, (has_key, (signed, same)))))) =
      check_fields-Signs context now f result e in
    record {
      payload = p;
      fields = f;
      found = found;
      key = key;
      parsed = parsed;
      complete = q;
      in_window = window;
      known = known;
      has_key = has_key;
      signed = signed;
      is_result = same;
    }

parsed-Authentic :
    (context : HmacContext) (now : ℕ) (token : String) (result : AuthResult) (parsed : ParsedToken)
    → context.parse_json token ≡ parsed
    → check_parsed context now parsed ≡ ok result
    → Authentic context now token result
unfolding check_parsed
parsed-Authentic context now token result not_json q e = thrown_ok _ result e
parsed-Authentic context now token result null_value q e = thrown_ok _ result e
parsed-Authentic context now token result (payload_value p) q e =
    complete-Authentic context now token result p (complete_fields p) q refl e

Authentic-accepted :
    (context : HmacContext) (now : ℕ) (token : String) (result : AuthResult)
    → Authentic context now token result
    → hmac_validate context now token ≡ ok result
unfolding hmac_validate check_parsed check_fields check_device create_hmac keyed_hmac
    check_signature
Authentic-accepted context now token result a =
    rw
      (
        a.parsed,
        a.complete,
        (hmac_expired-InWindow now (parse_int a.fields.timestamp)).1 a.in_window,
        a.known,
        a.has_key,
        (compare_signatures_iff a.fields.signature
              (context.hmac_sha256 a.key (signed_message a.fields))).1
            a.signed,
        a.is_result,
      )
      refl

-- A device's token is accepted, with a given result, exactly if it is a JSON payload with its four
-- fields, its timestamp is at most 300000 ms from now or is no number, the database has the device
-- and a key for it, the signature has the bytes of the digest of the device, the timestamp and the
-- client under that key, and the result is that device.
pub hmac_validate_iff :
    (context : HmacContext) (now : ℕ) (token : String) (result : AuthResult)
    → (hmac_validate context now token ≡ ok result) ↔ Authentic context now token result
unfolding hmac_validate
hmac_validate_iff context now token result = (
  parsed-Authentic context now token result (context.parse_json token) refl,
  Authentic-accepted context now token result,
)
