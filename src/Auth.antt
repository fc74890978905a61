-- ===== src/Auth.antt =====
-- modules/auth: who a connection belongs to. The parts are the numbers and bytes that a token is
-- read into, and the refresh tokens.
pub mod JsInt
pub mod Device
pub mod Hmac
pub mod RefreshToken
mod Examples
