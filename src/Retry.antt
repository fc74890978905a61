-- ===== src/Retry.antt =====
-- services/event-retry-heartbeat.service.ts.
pub mod Laws
-- A retried event always carries its id, whatever its QoS.
use gateway_realtime.Common.{if◌then◌else◌, ℕ, String, Option, none, some, List, [], ◌∷◌}
use gateway_realtime.EventRecord.{EventRecord}
use gateway_realtime.EventStore.Queries.{get_pending_with_retry}
use gateway_realtime.EventStore.State.{StoreConfig, get_all_user_ids}
use gateway_realtime.Json.{tracked_message}
use gateway_realtime.Lifecycle.{mark_sent}
use gateway_realtime.Session.{Session, is_active}
use gateway_realtime.SessionManager.{session_at, get_session_by_id}
use gateway_realtime.World.{World, send_to, change_store}

unfoldable pub retry_record : ℕ → ℕ → Option ℕ → EventRecord → World → World
retry_record now user socket r w =
    change_store (mark_sent now user r)
      (send_to socket (tracked_message r.event_name r.payload r.event_id) w)

unfoldable pub retry_records : ℕ → ℕ → Option ℕ → List EventRecord → World → World
retry_records now user socket [] w = w
retry_records now user socket (r ∷ rs) w =
    retry_records now user socket rs (retry_record now user socket r w)

unfoldable pub retry_session : ℕ → ℕ → List EventRecord → Option Session → World → World
retry_session now user rs none w = w
retry_session now user rs (some s) w =
    if is_active w.clients s then retry_records now user s.socket rs w else w

-- The round for one user; `draws` is what `Math.random()` gives for each event.
unfoldable pub retry_user : StoreConfig → (String → ℕ) → ℕ → ℕ → World → World
unfolding retry_session
retry_user config draws now user w =
    retry_session now user (get_pending_with_retry config draws now user w.store)
      (session_at (get_session_by_id user w) w.sessions) w

unfoldable pub retry_users : StoreConfig → (String → ℕ) → ℕ → List ℕ → World → World
retry_users config draws now [] w = w
retry_users config draws now (user ∷ users) w =
    retry_users config draws now users (retry_user config draws now user w)

unfoldable pub retry_pending_events : StoreConfig → (String → ℕ) → ℕ → World → World
retry_pending_events config draws now w = retry_users config draws now (get_all_user_ids w.store) w
