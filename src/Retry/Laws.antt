-- ===== src/Retry/Laws.antt =====
-- What a round of retries sends.
use gateway_realtime.Common.{
  or_default, map_get, append_nil, append_snoc, string_eq, nat_eq, ℕ, String, ◌≡◌, refl, sym, ap,
  ◌∙◌, true, false, Option, none, some, List, [], ◌∷◌, ◌++◌, map,
}
use gateway_realtime.EventRecord.{EventRecord}
use gateway_realtime.EventStore.Queries.{get_pending_with_retry}
use gateway_realtime.EventStore.State.{StoreConfig}
use gateway_realtime.Json.{tracked_message}
use gateway_realtime.Lifecycle.{mark_sent}
use gateway_realtime.Lifecycle.Delivery.{mark_all}
use gateway_realtime.Registry.{find}
use gateway_realtime.Retry.{retry_record, retry_records, retry_session, retry_user}
use gateway_realtime.Session.{Session, is_active}
use gateway_realtime.SessionManager.{get_session_by_id}
use gateway_realtime.World.{Output, sent, World, output}

abbrev pub retried_messages : ℕ → List EventRecord → List Output
retried_messages client rs =
    map (λ r. sent client (tracked_message r.event_name r.payload r.event_id)) rs

retry_records-sent :
    (now user client : ℕ) (rs : List EventRecord) (w : World)
    → retry_records now user (some client) rs w ≡ record w {
      outputs = w.outputs ++ retried_messages client rs;
      store = mark_all now user rs w.store;
    }
unfolding retry_records retry_record output mark_all
retry_records-sent now user client [] w =
    ap (λ os. record w { outputs = os }) (sym (append_nil w.outputs))
retry_records-sent now user client (r ∷ rs) w =
    let message = sent client (tracked_message r.event_name r.payload r.event_id) in
    retry_records-sent now user client rs
      (record w { outputs = w.outputs ++ (message ∷ []); store = mark_sent now user r w.store })
    ∙ ap
        (λ os. record w {
          outputs = os;
          store = mark_all now user rs (mark_sent now user r w.store);
        })
        (append_snoc w.outputs message (retried_messages client rs))

retry_session-sent :
    (now user : ℕ) (rs : List EventRecord) (s : Session) (w : World) (socket : Option ℕ)
    → s.socket ≡ socket
    → is_active w.clients s ≡ true
    → retry_records now user s.socket rs w ≡ record w {
      outputs = w.outputs ++ retried_messages (or_default socket 0) rs;
      store = mark_all now user rs w.store;
    }
unfolding is_active
retry_session-sent now user rs s w none e a = absurd (cc)
retry_session-sent now user rs s w (some client) e a =
    rw e (retry_records-sent now user client rs w)

-- The round for a user with a session does nothing where the session has no open socket,
-- whatever is due. Where it has one, it sends what `getPendingWithRetry` gives, in that order and
-- with the id of each event, marks each by its QoS, and changes nothing else.
pub retry_user_round :
    (config : StoreConfig) (draws : String → ℕ) (now user ref : ℕ) (s : Session) (w : World)
    → find user w.registry ≡ some ref
    → map_get ref w.sessions ≡ some s
    → let due = get_pending_with_retry config draws now user w.store in
      (is_active w.clients s ≡ false → retry_user config draws now user w ≡ w)
      × (is_active w.clients s ≡ true
          → retry_user config draws now user w ≡ record w {
            outputs = w.outputs ++ retried_messages (or_default s.socket 0) due;
            store = mark_all now user due w.store;
          })
unfolding retry_user retry_session get_session_by_id
retry_user_round config draws now user ref s w e at = (
  λ a. rw (e, at, a) refl,
  λ a.
      rw (e, at, a)
        (retry_session-sent now user (get_pending_with_retry config draws now user w.store) s w
          s.socket refl a),
)
