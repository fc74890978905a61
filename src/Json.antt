-- ===== src/Json.antt =====
-- JSON values, and the messages that the gateway builds from an event's name and payload by
-- `{ event, ...payload, meta }` (base.lifesycle.ts, base-ws-json.event.ts,
-- event-retry-heartbeat.service.ts). An object is its fields in order; numbers are natural.
use gateway_realtime.Common.{
  if◌then◌else◌, ◌==◌, nat_eq, string_eq, ℕ, String, ◌≡◌, refl, ap, ◌∙◌, Bool, Option, none, some,
  arith, eq_iff,
}
mod Examples

mutual
  pub data Json : Type 0 where
    null : Json
    boolean : Bool → Json
    num : ℕ → Json
    str : String → Json
    arr : Items → Json
    obj : Fields → Json

  pub data Items : Type 0 where
    no_items : Items
    item : Json → Items → Items

  pub data Fields : Type 0 where
    no_fields : Fields
    field : String → Json → Fields → Fields

unfoldable pub get_field : String → Fields → Option Json
get_field k no_fields = none
get_field k (field j v fs) = if j == k then some v else get_field k fs

-- A field that is present keeps its place.
unfoldable pub set_field : String → Json → Fields → Fields
set_field k v no_fields = field k v no_fields
set_field k v (field j w fs) = if j == k then field j v fs else field j w (set_field k v fs)

-- `{ ...target, ...source }`
unfoldable pub spread : Fields → Fields → Fields
unfolding set_field
spread target no_fields = target
spread target (field k v fs) = spread (set_field k v target) fs

abbrev pub object1 : String → Json → Fields
object1 k v = field k v no_fields

-- `{ event: name, ...payload }`
unfoldable pub plain_message : String → Fields → Json
plain_message name payload = obj (spread (object1 "event" (str name)) payload)

-- `{ event: name, ...payload, meta: { eventId } }`
unfoldable pub tracked_message : String → Fields → String → Json
tracked_message name payload event_id = obj (
    set_field "meta" (obj (object1 "eventId" (str event_id)))
      (spread (object1 "event" (str name)) payload))

abbrev pub fields_of : Json → Fields
fields_of (obj fs) = fs
fields_of _ = no_fields

pub get_field-set :
    (j k : String) (v : Json) (fs : Fields)
    → get_field j (set_field k v fs) ≡ (if k == j then some v else get_field j fs)
unfolding get_field set_field
get_field-set j k v no_fields = refl
get_field-set j k v (field i w fs) =
    ground (arith, eq_iff k j, eq_iff i k, eq_iff i j, get_field-set j k v fs)

-- The fields of the source win over those of the target; of a name twice in the source, the last.
abbrev pub last_field : String → Fields → Option Json → Option Json
last_field j no_fields found = found
last_field j (field k v fs) found = last_field j fs (if k == j then some v else found)

pub get_field-spread :
    (j : String) (target source : Fields)
    → get_field j (spread target source) ≡ last_field j source (get_field j target)
unfolding spread
get_field-spread j target no_fields = refl
get_field-spread j target (field k v fs) =
    get_field-spread j (set_field k v target) fs ∙ ap (last_field j fs) (get_field-set j k v target)

-- Whatever the payload holds, the receiver finds the event's id under `meta`.
pub tracked_message-meta :
    (name : String) (payload : Fields) (event_id : String)
    → get_field "meta" (fields_of (tracked_message name payload event_id))
      ≡ some (obj (object1 "eventId" (str event_id)))
unfolding tracked_message
tracked_message-meta name payload event_id = rw get_field-set

-- The event's name is what the receiver finds under `event`, unless the payload has such a field:
-- then it finds the payload's.
pub tracked_message-event :
    (name : String) (payload : Fields) (event_id : String)
    → get_field "event" (fields_of (tracked_message name payload event_id))
      ≡ last_field "event" payload (some (str name))
unfolding tracked_message get_field
tracked_message-event name payload event_id = rw get_field-set (rw get_field-spread refl)
