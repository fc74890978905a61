-- ===== src/Lifecycle/Delivery.antt =====
-- What a user is sent when it connects, and what the store holds of it afterwards:
-- lifesycles/base.lifesycle.ts.
-- What deliveries one after the other do to the store.
use gateway_realtime.Common.{
  All, append_nil, append_snoc, ℕ, String, ◌≡◌, refl, sym, ap, ◌∙◌, subst, Bool, true, false, some,
  List, [], ◌∷◌, ◌++◌, map,
}
use gateway_realtime.EventRecord.{Qos, qos0, qos1, qos2, EventRecord}
use gateway_realtime.EventStore.Acked.History.{Later, Without, acked_never_pending}
use gateway_realtime.EventStore.Invariant.{IsIndexed}
use gateway_realtime.EventStore.Marks.{mark_applied}
use gateway_realtime.EventStore.Queries.{get_pending}
use gateway_realtime.EventStore.State.{StoreConfig, default_store_config, EventStore}
use gateway_realtime.EventStore.Steps.{Step, Step-IsIndexed}
use gateway_realtime.Lifecycle.{
  mark_qos, mark_sent, pending_message, deliver_record, deliver_records, deliver_pending_events,
}
use gateway_realtime.Session.{Session, is_active}
use gateway_realtime.World.{Output, sent, World, output}

unfoldable pub mark_all : ℕ → ℕ → List EventRecord → EventStore → EventStore
mark_all now user [] st = st
mark_all now user (r ∷ rs) st = mark_all now user rs (mark_sent now user r st)

mark_qos-Later :
    (config : StoreConfig) (user : ℕ) (event_id : String) (first st : EventStore) (qos : Qos)
    (now other : ℕ) (other_id : String)
    → Later config user event_id first st
    → Later config user event_id first (mark_qos qos now other other_id st)
unfolding mark_qos
mark_qos-Later config user event_id first st qos0 now other other_id l = l
mark_qos-Later config user event_id first st qos1 now other other_id l =
    Later.applies other other_id l
mark_qos-Later config user event_id first st qos2 now other other_id l =
    Later.delivers now other other_id l

mark_all-Later :
    (config : StoreConfig) (user : ℕ) (event_id : String) (first st : EventStore) (now other : ℕ)
    (rs : List EventRecord)
    → Later config user event_id first st
    → Later config user event_id first (mark_all now other rs st)
unfolding mark_all
mark_all-Later config user event_id first st now other [] l = l
mark_all-Later config user event_id first st now other (r ∷ rs) l =
    mark_all-Later config user event_id first (mark_sent now other r st) now other rs (
      unfold mark_sent in mark_qos-Later config user event_id first st r.qos now other r.event_id l)

mark_qos-IsIndexed :
    (qos : Qos) (now user : ℕ) (event_id : String) (st : EventStore)
    → IsIndexed st
    → IsIndexed (mark_qos qos now user event_id st)
unfolding mark_qos
mark_qos-IsIndexed qos0 now user event_id st v = v
mark_qos-IsIndexed qos1 now user event_id st v =
    Step-IsIndexed {config = default_store_config} (Step.applies user event_id) v
mark_qos-IsIndexed qos2 now user event_id st v =
    Step-IsIndexed {config = default_store_config} (Step.delivers now user event_id) v

pub mark_sent-IsIndexed :
    (now user : ℕ) (r : EventRecord) (st : EventStore)
    → IsIndexed st
    → IsIndexed (mark_sent now user r st)
unfolding mark_sent
mark_sent-IsIndexed now user r st v = mark_qos-IsIndexed r.qos now user r.event_id st v

abbrev pub is_qos1 : Qos → Bool
is_qos1 qos1 = true
is_qos1 _ = false

mark_qos-applied :
    (qos : Qos) (now user : ℕ) (event_id : String) (st : EventStore)
    → is_qos1 qos ≡ true
    → mark_qos qos now user event_id st ≡ mark_applied user event_id st
unfolding mark_qos
mark_qos-applied qos0 now user event_id st h = absurd (cc)
mark_qos-applied qos1 now user event_id st h = refl
mark_qos-applied qos2 now user event_id st h = absurd (cc)

mark_sent-applied :
    (now user : ℕ) (r : EventRecord) (st : EventStore)
    → is_qos1 r.qos ≡ true
    → mark_sent now user r st ≡ mark_applied user r.event_id st
unfolding mark_sent
mark_sent-applied now user r st h = mark_qos-applied r.qos now user r.event_id st h

pub mark_all-Without :
    (now later user : ℕ) (rs : List EventRecord) (st : EventStore)
    → IsIndexed st
    → All
        (λ r.
          is_qos1 r.qos ≡ true
          → Without r.event_id (get_pending later user (mark_all now user rs st)))
        rs
unfolding mark_all
mark_all-Without now later user [] st v = tt
mark_all-Without now later user (r ∷ rs) st v = (
  λ q. acked_never_pending st {config = default_store_config} later v (
      mark_all-Later default_store_config user r.event_id (mark_applied user r.event_id st)
        (mark_sent now user r st) now user rs
        (subst (Later default_store_config user r.event_id (mark_applied user r.event_id st))
          (sym (mark_sent-applied now user r st q)) Later.at_once)),
  mark_all-Without now later user rs (mark_sent now user r st)
      (mark_sent-IsIndexed now user r st v),
)

-- The deliveries to an active session, one by one.
abbrev pub sent_messages : ℕ → List EventRecord → List Output
sent_messages client rs = map (λ r. sent client (pending_message r)) rs

deliver_record-sent :
    (now client : ℕ) (s : Session) (r : EventRecord) (w : World)
    → s.socket ≡ some client
    → deliver_record now s r w ≡ record w {
      outputs = w.outputs ++ (sent client (pending_message r) ∷ []);
      store = mark_sent now s.session_id r w.store;
    }
unfolding deliver_record output
deliver_record-sent now client s r w e = rw e refl

deliver_records-sent :
    (now client : ℕ) (s : Session) (rs : List EventRecord) (w : World)
    → s.socket ≡ some client
    → is_active w.clients s ≡ true
    → deliver_records now s rs w ≡ record w {
      outputs = w.outputs ++ sent_messages client rs;
      store = mark_all now s.session_id rs w.store;
    }
unfolding deliver_records mark_all
deliver_records-sent now client s [] w e a =
    ap (λ os. record w { outputs = os }) (sym (append_nil w.outputs))
deliver_records-sent now client s (r ∷ rs) w e a =
    rw (a, deliver_record-sent now client s r w e)
      (deliver_records-sent now client s rs
          (record w {
            outputs = w.outputs ++ (sent client (pending_message r) ∷ []);
            store = mark_sent now s.session_id r w.store;
          })
          e a
        ∙ ap
            (λ os. record w {
              outputs = os;
              store = mark_all now s.session_id rs (mark_sent now s.session_id r w.store);
            })
            (append_snoc w.outputs (sent client (pending_message r)) (sent_messages client rs)))

-- An active session is sent all its pending events, in the order of `getPending`, with the message
-- of their QoS. Afterwards, at any time, no event of QoS 1 among them is pending for it.
pub deliver_pending_once :
    (now later client : ℕ) (s : Session) (w : World)
    → s.socket ≡ some client
    → is_active w.clients s ≡ true
    → IsIndexed w.store
    → let w' = deliver_pending_events now s w in
      let pending = get_pending now s.session_id w.store in
      (w'.outputs ≡ w.outputs ++ sent_messages client pending)
      × All
          (λ r. is_qos1 r.qos ≡ true → Without r.event_id (get_pending later s.session_id w'.store))
          pending
unfolding deliver_pending_events
deliver_pending_once now later client s w e a v =
    let pending = get_pending now s.session_id w.store in
    rw (deliver_records-sent now client s pending w e a)
      (refl, mark_all-Without now later s.session_id pending w.store v)
