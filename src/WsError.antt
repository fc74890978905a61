-- ===== src/WsError.antt =====
-- commons/exceptions/ws-error.exception.ts and websocket/helpers/normalize-error.ts.
use gateway_realtime.Common.{String, Option, none, some}

-- What `throw` throws. A `WsException` carries an object with a code or anything else, here its
-- text; an `HttpException` a string or an object with or without a message; an `Error` its message.
pub data Thrown : Type 0 where
  ws_object : String → String → Thrown
  ws_other : String → Thrown
  http_string : String → Thrown
  http_object : Option String → String → Thrown
  plain_error : String → Thrown
  not_an_error : Thrown

pub record WsErrorPayload : Type 0 where
  pub code : String
  pub message : String

abbrev pub ws_error : String → String → WsErrorPayload
ws_error code message = record { code = code; message = message }

unfoldable pub normalize_ws_error : Thrown → WsErrorPayload
normalize_ws_error (ws_object code message) = ws_error code message
normalize_ws_error (ws_other text) = ws_error "WS_EXCEPTION" text
normalize_ws_error (http_string response) = ws_error "HTTP_ERROR" response
normalize_ws_error (http_object (some response) message) = ws_error "HTTP_ERROR" response
normalize_ws_error (http_object none message) = ws_error "HTTP_ERROR" message
normalize_ws_error (plain_error message) = ws_error "INTERNAL_ERROR" message
normalize_ws_error not_an_error = ws_error "INTERNAL_ERROR" "Unknown error"

-- The result of a handler that may throw, with what it has done up to there.
pub data Outcome {ℓ} (A : Type ℓ) : Type ℓ where
  ok : A → Outcome A
  thrown : Thrown → Outcome A

abbrev pub app_ws_exception : String → String → Thrown
app_ws_exception code message = ws_object code message
