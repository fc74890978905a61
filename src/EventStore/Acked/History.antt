-- ===== src/EventStore/Acked/History.antt =====
-- An acknowledged event is not sent again: services/event-store.service.ts.
use mathlib.Core.Bool.{false≢true}
-- What follows an acknowledgement of `event_id` by `user`, where no event is created under that id
-- again and `markFailed` is not called for them (the gateway never calls it).
use gateway_realtime.Common.{
  Bool-cases, Option-cases, Map, map_get, set_contains, All, All-sort_by, nat_eq, string_eq, ℕ,
  String, ◌≡◌, sym, ap, ◌∙◌, subst, ◌≢◌, inl, inr, Bool, true, false, none, some, List, [], ◌∷◌,
  arith, eq_iff,
}
use gateway_realtime.EventRecord.{Qos, EventRecord, get_user_status, is_applied}
use gateway_realtime.EventStore.Acked.{
  found_applied, Acked, KeepsAck, KeepsAck-Acked, KeepsAck-refl,
}
use gateway_realtime.EventStore.Acked.Keeps.{
  remove_event-KeepsAck, mark_delivered-KeepsAck, mark_applied-KeepsAck, mark_applied-Acked,
}
use gateway_realtime.EventStore.Acked.Limits.{create-KeepsAck, cleanup-KeepsAck}
use gateway_realtime.EventStore.Cleanup.{cleanup}
use gateway_realtime.EventStore.Create.{CreateOptions, create, found_expired, expiry_fired}
use gateway_realtime.EventStore.Invariant.{NamedAs, IsIndexed}
use gateway_realtime.EventStore.Limits.{created_le, is_pending}
use gateway_realtime.EventStore.Marks.{mark_delivered, mark_applied}
use gateway_realtime.EventStore.Queries.{keep_found, select_events, get_pending}
use gateway_realtime.EventStore.State.{StoreConfig, by_expired, EventStore, index_of}
use gateway_realtime.EventStore.Steps.{Step, get-make_room-none, Step-IsIndexed}
use gateway_realtime.Json.{Fields}

pub data Later (config : StoreConfig) (user : ℕ) (event_id : String) (st : EventStore)
    : EventStore → Type 0 where
  at_once : Later config user event_id st st
  creates :
      {st₁ : EventStore} (now : ℕ) (other_id : String) (targets : List ℕ) (event_name : String)
      (payload : Fields) (qos : Qos) (options : CreateOptions) (st₂ : EventStore)
      → Later config user event_id st st₁
      → map_get other_id st₁.events ≡ none
      → other_id ≢ event_id
      → create config now other_id targets event_name payload qos options st₁ ≡ some st₂
      → Later config user event_id st st₂
  delivers :
      {st₁ : EventStore} (now other : ℕ) (other_id : String)
      → Later config user event_id st st₁
      → Later config user event_id st (mark_delivered now other other_id st₁)
  applies :
      {st₁ : EventStore} (other : ℕ) (other_id : String)
      → Later config user event_id st st₁
      → Later config user event_id st (mark_applied other other_id st₁)
  expires :
      {st₁ : EventStore} (now : ℕ) (other_id : String)
      → Later config user event_id st st₁
      → Later config user event_id st (expiry_fired now other_id st₁)
  cleans :
      {st₁ : EventStore} (now : ℕ)
      → Later config user event_id st st₁
      → Later config user event_id st (cleanup config now st₁)

expiry-KeepsAck :
    (user : ℕ) (id : String) (now : ℕ) (event_id : String) (st : EventStore)
    → IsIndexed st
    → KeepsAck user id st (expiry_fired now event_id st)
unfolding expiry_fired
expiry-KeepsAck user id now event_id st v =
    elim (Bool-cases (found_expired now (map_get event_id st.events))) [
      | inl over ↦ rw over (remove_event-KeepsAck user id event_id by_expired st v)
      | inr fresh ↦ rw fresh (KeepsAck-refl user id st)
    ]

Later-keeps :
    {config : StoreConfig} {user : ℕ} {id : String} {st st' : EventStore}
    → Later config user id st st'
    → IsIndexed st
    → Acked user id st
    → IsIndexed st' × Acked user id st'
Later-keeps at_once v a = (v, a)
Later-keeps {config} {user} {id}
      (creates {st₁} now other_id targets name payload qos options st₂ l fresh ne e) v a =
    let (v₁, a₁) = Later-keeps l v a in
    (
      Step-IsIndexed (Step.creates now other_id targets name payload qos options st₂ fresh e) v₁,
      KeepsAck-Acked user id st₁ st₂
          (create-KeepsAck user id config now other_id targets name payload qos options st₁ st₂ v₁
            (get-make_room-none config other_id st₁ fresh) ne e)
          a₁,
    )
Later-keeps {config} {user} {id} (delivers {st₁} now other other_id l) v a =
    let (v₁, a₁) = Later-keeps l v a in
    (
      Step-IsIndexed {config = config} (Step.delivers now other other_id) v₁,
      KeepsAck-Acked user id st₁ _ (mark_delivered-KeepsAck user id now other other_id st₁) a₁,
    )
Later-keeps {config} {user} {id} (applies {st₁} other other_id l) v a =
    let (v₁, a₁) = Later-keeps l v a in
    (
      Step-IsIndexed {config = config} (Step.applies other other_id) v₁,
      KeepsAck-Acked user id st₁ _ (mark_applied-KeepsAck user id other other_id st₁ v₁) a₁,
    )
Later-keeps {config} {user} {id} (expires {st₁} now other_id l) v a =
    let (v₁, a₁) = Later-keeps l v a in
    (
      Step-IsIndexed {config = config} (Step.expires now other_id) v₁,
      KeepsAck-Acked user id st₁ _ (expiry-KeepsAck user id now other_id st₁ v₁) a₁,
    )
Later-keeps {config} {user} {id} (cleans {st₁} now l) v a =
    let (v₁, a₁) = Later-keeps l v a in
    (
      Step-IsIndexed {config = config} (Step.cleans now) v₁,
      KeepsAck-Acked user id st₁ _ (cleanup-KeepsAck user id config now st₁ v₁) a₁,
    )

-- No record of a list is the event.
abbrev pub Without : String → List EventRecord → Type 0
Without event_id rs = All (λ r. r.event_id ≢ event_id) rs

Without-select :
    (p : EventRecord → Bool) (user : ℕ) (id : String) (ids : List String)
    (events : Map String EventRecord)
    → ((x : String) → NamedAs x (map_get x events))
    → ((r : EventRecord) → is_applied (get_user_status user r) ≡ true → p r ≡ false)
    → (set_contains id ids ≡ true → found_applied user (map_get id events) ≡ true)
    → Without id (select_events p ids events)
unfolding select_events keep_found set_contains
Without-select p user id [] events named skips a = tt
Without-select p user id (x ∷ ids) events named skips a =
    let others : Without id (select_events p ids events) =
      Without-select p user id ids events named skips (λ c. a (ground (arith, c))) in
    elim (Option-cases (map_get x events)) [
      | inl e ↦ rw (e, keep_found) others
      | inr (r, e) ↦
          let own : r.event_id ≡ x = rw e at (named x) in
          elim (Bool-cases (p r)) [
            | inr skip ↦ rw (e, keep_found, skip) others
            | inl kept ↦
                rw (e, keep_found, kept)
                  (
                    λ same.
                        let hit : x ≡ id = sym own ∙ same in
                        let done : found_applied user (map_get id events) ≡ true =
                          a (ground (arith, (eq_iff x id).1 hit)) in
                        let here : found_applied user (some r) ≡ true =
                          subst (λ o. found_applied user o ≡ true)
                            (ap (λ y. map_get y events) (sym hit) ∙ e) done in
                        false≢true (sym (skips r here) ∙ kept),
                    others,
                  )
          ]
    ]

-- After a user has acknowledged an event, `getPending` does not give it for that user, whatever
-- else happens: other events come and go, other users acknowledge, timers fire, cleanups run.
pub acked_never_pending :
    (st : EventStore) {config : StoreConfig} {user : ℕ} {event_id : String} {st' : EventStore}
    (now : ℕ)
    → IsIndexed st
    → Later config user event_id (mark_applied user event_id st) st'
    → Without event_id (get_pending now user st')
unfolding get_pending
acked_never_pending st {config} {user} {event_id} {st'} now v l =
    let applied_v = Step-IsIndexed {config = config} {st = st} (Step.applies user event_id) v in
    let (v', a) = Later-keeps l applied_v (mark_applied-Acked user event_id st v) in
    All-sort_by created_le (λ r. r.event_id ≢ event_id)
      (select_events (is_pending now user) (index_of user st'.user_events) st'.events)
      (Without-select (is_pending now user) user event_id (index_of user st'.user_events) st'.events
        v'.named (λ r done. unfold is_pending in ground arith) a)
