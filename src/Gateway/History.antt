-- ===== src/Gateway/History.antt =====
-- The histories of the gateway: connections, their ends, timers, heartbeats, retries and changes of
-- the event store, in any order.
use gateway_realtime.Common.{
  nat_beq, Bool-cases, or_default, truthy, map_get, map_set, string_eq, nat_eq, ℕ, String, refl,
  inl, inr, Option, none, some, List, [], ◌∷◌, arith,
}
use gateway_realtime.EventRecord.{EventRecord}
use gateway_realtime.EventStore.Queries.{get_pending_with_retry}
use gateway_realtime.EventStore.State.{StoreConfig, ExpiredNotice, EventStore, empty_store}
use gateway_realtime.EventStore.Steps.{Step}
use gateway_realtime.Feedback.{
  expired_message, notify_session, handle_event_expired, handle_notices, quiet_store, emit_notices,
}
use gateway_realtime.Gateway.{handle_connection, handle_disconnect, on_pong}
use gateway_realtime.Gateway.Quiet.{Quiet, Quiet-refl, Quiet-trans, Quiet-of, OnlyOutputs-Quiet}
use gateway_realtime.Gateway.Registered.{output-Quiet, update_client-Quiet}
use gateway_realtime.Heartbeat.{beat, beat_output, beat_found, beat_each, heartbeat}
use gateway_realtime.Json.{Json, tracked_message}
use gateway_realtime.Lifecycle.{mark_sent, suspend_timer_fired}
use gateway_realtime.Lifecycle.Outputs.{send_to-OnlyOutputs}
use gateway_realtime.Lifecycle.Snapshot.{DeviceSource}
use gateway_realtime.RateLimit.Guard.{GuardResult}
use gateway_realtime.Registry.{empty_registry}
use gateway_realtime.Retry.{
  retry_record, retry_records, retry_session, retry_user, retry_users, retry_pending_events,
}
use gateway_realtime.Session.{Client, Session, is_active}
use gateway_realtime.SessionManager.{Authenticated, session_at, get_session_by_id}
use gateway_realtime.World.{World, send_to, update_client, change_store}
use gateway_realtime.WsError.{Outcome}

-- What the histories are told from outside: the settings and the devices in the database.
pub record Settings : Type 0 where
  pub devices : DeviceSource
  pub store_config : StoreConfig
  pub max_missed : ℕ

-- What the peer and the library do to a socket comes in by `opens` and `moves`; `stores` is any step
-- of the event store that an event handler or a timer makes.
pub data GatewayStep (env : Settings) : World → World → Type 0 where
  opens :
      {w : World} (client : ℕ) (c : Client)
      → GatewayStep env w (record w { clients = map_set client c w.clients })
  moves :
      {w : World} (client : ℕ) (ready_state : ℕ)
      → GatewayStep env w (update_client client (λ c. record c { ready_state = ready_state }) w)
  connects :
      {w : World} (now : ℕ) (limited : GuardResult) (auth : Outcome Authenticated) (client : ℕ)
      → GatewayStep env w (handle_connection env.devices now limited auth client w)
  disconnects : {w : World} (now client : ℕ) → GatewayStep env w (handle_disconnect now client w)
  timer_fires : {w : World} (timer : ℕ) → GatewayStep env w (suspend_timer_fired timer w)
  pongs : {w : World} (client : ℕ) → GatewayStep env w (on_pong client w)
  beats : {w : World} → GatewayStep env w (heartbeat env.max_missed w)
  retries :
      {w : World} (draws : String → ℕ) (now : ℕ)
      → GatewayStep env w (retry_pending_events env.store_config draws now w)
  stores :
      {w : World} (st : EventStore)
      → Step env.store_config (quiet_store w) st
      → GatewayStep env w (emit_notices st w)

unfoldable pub empty_world : ℕ → World
empty_world now = record {
  clients = [];
  sessions = [];
  registry = empty_registry;
  store = empty_store now;
  timers = [];
  next = 0;
  outputs = [];
}

pub data GatewayReach (env : Settings) : World → Type 0 where
  boots : (now : ℕ) → GatewayReach env (empty_world now)
  then_step : {w w' : World} → GatewayReach env w → GatewayStep env w w' → GatewayReach env w'

send-Quiet : (socket : Option ℕ) (message : Json) (w : World) → Quiet w (send_to socket message w)
send-Quiet socket message w = OnlyOutputs-Quiet w _ (send_to-OnlyOutputs socket message w)

store-Quiet : (st : EventStore) (w : World) → Quiet w (record w { store = st })
store-Quiet st w = Quiet-of w _ refl refl (omega arith)

beat_found-Quiet :
    (max_missed client : ℕ) (o : Option Client) (w : World)
    → Quiet w (beat_found max_missed client o w)
unfolding beat_found
beat_found-Quiet max_missed client none w = Quiet-refl w
beat_found-Quiet max_missed client (some c) w = elim (Bool-cases (nat_beq c.ready_state 1)) [
  | inl e ↦
      let (c', b) = beat max_missed c in
      rw e (
        Quiet-trans w (update_client client (λ _. c') w) _ (update_client-Quiet client (λ _. c') w)
          (output-Quiet (beat_output client b) (update_client client (λ _. c') w)))
  | inr e ↦ rw e (Quiet-refl w)
]

pub beat_each-Quiet :
    (max_missed : ℕ) (clients : List ℕ) (w : World) → Quiet w (beat_each max_missed clients w)
unfolding beat_each
beat_each-Quiet max_missed [] w = Quiet-refl w
beat_each-Quiet max_missed (client ∷ clients) w =
    let w1 = beat_found max_missed client (map_get client w.clients) w in
    Quiet-trans w w1 _ (beat_found-Quiet max_missed client (map_get client w.clients) w)
      (beat_each-Quiet max_missed clients w1)

retry_records-Quiet :
    (now user : ℕ) (socket : Option ℕ) (rs : List EventRecord) (w : World)
    → Quiet w (retry_records now user socket rs w)
unfolding retry_records retry_record
retry_records-Quiet now user socket [] w = Quiet-refl w
retry_records-Quiet now user socket (r ∷ rs) w =
    let w1 = send_to socket (tracked_message r.event_name r.payload r.event_id) w in
    let w2 = change_store (mark_sent now user r) w1 in
    Quiet-trans w w1 _ (send-Quiet socket (tracked_message r.event_name r.payload r.event_id) w) (
      Quiet-trans w1 w2 _ (store-Quiet (mark_sent now user r w1.store) w1)
        (retry_records-Quiet now user socket rs w2))

retry_session-Quiet :
    (now user : ℕ) (rs : List EventRecord) (o : Option Session) (w : World)
    → Quiet w (retry_session now user rs o w)
unfolding retry_session
retry_session-Quiet now user rs none w = Quiet-refl w
retry_session-Quiet now user rs (some s) w = elim (Bool-cases (is_active w.clients s)) [
  | inl e ↦ rw e (retry_records-Quiet now user s.socket rs w)
  | inr e ↦ rw e (Quiet-refl w)
]

pub retry_users-Quiet :
    (config : StoreConfig) (draws : String → ℕ) (now : ℕ) (users : List ℕ) (w : World)
    → Quiet w (retry_users config draws now users w)
unfolding retry_users
retry_users-Quiet config draws now [] w = Quiet-refl w
retry_users-Quiet config draws now (user ∷ users) w =
    let w1 = retry_user config draws now user w in
    Quiet-trans w w1 _
      (unfold retry_user in
        retry_session-Quiet now user (get_pending_with_retry config draws now user w.store)
          (session_at (get_session_by_id user w) w.sessions) w)
      (retry_users-Quiet config draws now users w1)

notify_session-Quiet :
    (n : ExpiredNotice) (o : Option Session) (w : World) → Quiet w (notify_session n o w)
unfolding notify_session
notify_session-Quiet n none w = Quiet-refl w
notify_session-Quiet n (some s) w = elim (Bool-cases (is_active w.clients s)) [
  | inl e ↦ rw e (send-Quiet s.socket (expired_message n) w)
  | inr e ↦ rw e (Quiet-refl w)
]

handle_event_expired-Quiet : (n : ExpiredNotice) (w : World) → Quiet w (handle_event_expired n w)
unfolding handle_event_expired
handle_event_expired-Quiet n w = elim (Bool-cases (truthy n.sender_id)) [
  | inl e ↦ rw e (
      notify_session-Quiet n
        (session_at (get_session_by_id (or_default n.sender_id 0) w) w.sessions) w)
  | inr e ↦ rw e (Quiet-refl w)
]

handle_notices-Quiet : (ns : List ExpiredNotice) (w : World) → Quiet w (handle_notices ns w)
unfolding handle_notices
handle_notices-Quiet [] w = Quiet-refl w
handle_notices-Quiet (n ∷ ns) w =
    Quiet-trans w (handle_event_expired n w) _ (handle_event_expired-Quiet n w)
      (handle_notices-Quiet ns (handle_event_expired n w))

pub emit_notices-Quiet : (st : EventStore) (w : World) → Quiet w (emit_notices st w)
unfolding emit_notices
emit_notices-Quiet st w =
    let w1 = record w { store = record st { notices = [] } } in
    Quiet-trans w w1 _ (store-Quiet (record st { notices = [] }) w)
      (handle_notices-Quiet st.notices w1)
