-- ===== src/Events/State.antt =====
-- What the event handlers work on: the world, and for each class the cache of its events.
use gateway_realtime.Common.{
  leb, if◌then◌else◌, Map, map_get, map_set, nat_eq, string_eq, ℕ, ◌-◌, String, Bool, false, Option,
  none, some, List, [],
}
use gateway_realtime.Events.Classes.{EventClass}
use gateway_realtime.Events.Helpers.{EventEntry}
use gateway_realtime.Json.{Json, Fields}
use gateway_realtime.Principal.{Product}
use gateway_realtime.SessionManager.{IdSource}
use gateway_realtime.Webhook.{ApiRequest}
use gateway_realtime.World.{World}
use gateway_realtime.WsError.{Thrown, Outcome}

pub record EventCache : Type 0 where
  pub events : List EventEntry
  pub last_update : ℕ

-- `emitted` lists what the handlers emit for the notifications; `unhandled` what is thrown where no
-- handler waits for it.
pub record App : Type 0 where
  pub world : World
  pub caches : Map String EventCache
  pub emitted : List (String × Json)
  pub unhandled : List Thrown

-- What the handlers ask of the database, the HTTP services of the products and the validator of
-- payloads.
pub record Services : Type 0 where
  pub events_of : Option Product → List EventEntry
  pub ids : IdSource
  pub call : ApiRequest → Outcome Fields
  pub dto_errors : String → Json → Option String
  pub fresh_id : World → String

unfoldable pub still_cached : ℕ → ℕ → Option EventCache → Bool
still_cached ttl now none = false
still_cached ttl now (some c) = leb (now - c.last_update) ttl

abbrev pub cached_events : Option EventCache → List EventEntry
cached_events none = []
cached_events (some c) = c.events

-- `getEventsProduct`: the events of the class's product, from its cache while that is young enough.
unfoldable pub get_events_product : Services → ℕ → ℕ → EventClass → App → App × List EventEntry
get_events_product sv ttl now c app =
    let found = map_get c.label app.caches in
    if still_cached ttl now found then (app, cached_events found) else (
      record app {
        caches =
            map_set c.label (record { events = sv.events_of c.product; last_update = now })
              app.caches;
      },
      sv.events_of c.product,
    )

abbrev pub change_world : (World → World) → App → App
change_world f app = record app { world = f app.world }
