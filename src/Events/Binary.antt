-- ===== src/Events/Binary.antt =====
-- The binary events: events/binner.
use Prim.Native.Char.{code}
use gateway_realtime.Common.{
  ltb, leb, if◌then◌else◌, lt→ltb, or_default, map_get, length, All, nat_eq, string_eq, ℕ, ◌+◌, ◌-◌,
  ◌*◌, ◌/◌, ◌%◌, ◌≤◌, ◌<◌, String, ◌≡◌, refl, Bool, true, false, ◌&&◌, Option, none, some, List, [],
  ◌∷◌, ◌++◌, arith,
}
use gateway_realtime.EventRecord.{qos0, qos2}
use gateway_realtime.Events.Classes.{EventClass, change_mode}
use gateway_realtime.Events.Execute.{validate_access}
use gateway_realtime.Events.Receivers.{get_receivers}
use gateway_realtime.Events.State.{App, Services, change_world}
use gateway_realtime.Principal.{
  browser, device, desktop, Product, monitoring, bell, product_is, Principal, id_device_of,
}
use gateway_realtime.Session.{Session}
use gateway_realtime.World.{sent_bytes, World, output, socket_of}
use gateway_realtime.WsError.{Thrown, plain_error, Outcome, ok, thrown, app_ws_exception}

abbrev binary_class : EventClass
binary_class = record change_mode {
  notify_sender = true;
  by_mode = false;
  checks_structure = false;
  allowed_event = [];
}

abbrev pub stream_image : EventClass
stream_image = record binary_class {
  label = "stream-image";
  label_to_receiver = "stream-image";
  product = some monitoring;
  sender = some device;
  receiver = desktop;
  qos = qos0;
  allowed_event = "stream-image" ∷ [];
}

abbrev pub upload_audio : EventClass
upload_audio = record binary_class {
  label = "upload-audio";
  label_to_receiver = "get-audio";
  product = some bell;
  sender = some browser;
  receiver = device;
  qos = qos2;
  allowed_event = "upload-audio" ∷ [];
}

-- `Number` of an id, a decimal string; what is not one is `NaN`, which is written as 0.
abbrev number_from : ℕ → String → ℕ
number_from n String.[] = n
number_from n (String.◌∷◌ c s) =
    if leb b'0' (code c) && leb (code c) b'9' then number_from (n * 10 + (code c - b'0')) s else 0

abbrev pub number : String → ℕ
number s = number_from 0 s

-- `header.writeUInt8(1)`, then `writeUInt32BE(id, 0)` over it, then the flag at 4. The write throws
-- where the id has more than 32 bits.
unfoldable pub stream_header : ℕ → Option (List ℕ)
stream_header id =
    if ltb id 4294967296
    then some (id / 16777216 % 256 ∷ id / 65536 % 256 ∷ id / 256 % 256 ∷ id % 256 ∷ 1 ∷ [])
    else none

abbrev with_header : Option (List ℕ) → List ℕ → Outcome (List ℕ)
with_header none payload = thrown (plain_error "The value of \"value\" is out of range")
with_header (some header) payload = ok (header ++ payload)

abbrev is_monitoring : Option Product → Bool
is_monitoring p = product_is p (some monitoring)

unfoldable pub modified_bytes : EventClass → Principal → List ℕ → Outcome (List ℕ)
modified_bytes c p payload =
    if is_monitoring c.product
    then with_header (stream_header (number (or_default (id_device_of p) ""))) payload
    else ok payload

abbrev pub send_bytes_to : Option ℕ → List ℕ → World → World
send_bytes_to none bytes w = w
send_bytes_to (some client) bytes w = output (sent_bytes client bytes) w

unfoldable pub dispatch_bytes : List ℕ → List ℕ → World → World
dispatch_bytes bytes [] w = w
dispatch_bytes bytes (ref ∷ refs) w =
    dispatch_bytes bytes refs (send_bytes_to (socket_of (map_get ref w.sessions)) bytes w)

abbrev sent_or_thrown : List ℕ → Outcome (List ℕ) → App → App × Option Thrown
sent_or_thrown receivers (thrown e) app = (app, some e)
sent_or_thrown receivers (ok bytes) app = (change_world (dispatch_bytes bytes receivers) app, none)

abbrev deliver_bytes : EventClass → Session → List ℕ → App × Outcome (List ℕ) → App × Option Thrown
deliver_bytes c s payload (app, thrown e) = (app, some e)
deliver_bytes c s payload (app, ok receivers) =
    sent_or_thrown receivers (modified_bytes c s.principal payload) app

unfoldable pub execute_bytes :
    Services → ℕ → ℕ → EventClass → ℕ → Session → List ℕ → App → App × Option Thrown
execute_bytes sv ttl now c ref s [] app =
    (app, some (app_ws_exception "INVALID_BINARY" "Empty buffer"))
execute_bytes sv ttl now c ref s (b ∷ bs) app =
    deliver_bytes c s (b ∷ bs) (get_receivers sv ttl now c c.label ref s app)

unfoldable pub execute_binary :
    Services → ℕ → ℕ → EventClass → ℕ → Session → List ℕ → App → App × Option Thrown
execute_binary sv ttl now c ref s payload app =
    if validate_access c s
    then execute_bytes sv ttl now c ref s payload app
    else (app, some (app_ws_exception "UNAUTHENTICATED" "Akses event ditolak"))

-- What a receiver reads in the first four bytes of a stream.
abbrev pub read_id : List ℕ → ℕ
read_id (a ∷ b ∷ c ∷ d ∷ rest_of) = ((a * 256 + b) * 256 + c) * 256 + d
read_id _ = 0

-- The header of a stream has the sender's id, as long as it fits in 32 bits, in its first four
-- bytes, all bytes below 256, so that the 1 written first is lost; a larger id is refused.
pub read_id-stream_header :
    (id : ℕ)
    → (id < 4294967296
        → (header : List ℕ) × (stream_header id ≡ some header)
          × (read_id header ≡ id)
          × (length header ≡ 5)
          × All (λ b. b < 256) header)
      × (4294967296 ≤ id → stream_header id ≡ none)
unfolding stream_header
read_id-stream_header id = (
  λ h. (
    id / 16777216 % 256 ∷ id / 65536 % 256 ∷ id / 256 % 256 ∷ id % 256 ∷ 1 ∷ [],
    rw (lt→ltb id 4294967296 h) refl,
    omega arith,
    refl,
    (omega arith, (omega arith, (omega arith, (omega arith, (omega arith, tt))))),
  ),
  λ h. ground (arith, h),
)
