-- ===== src/EventStore/Cleanup/Stale.antt =====
-- Which statuses the stale pass of the cleanup changes: `cleanupStaleDelivered` in
-- services/event-store.service.ts.
use gateway_realtime.Common.{
  Bool-cases, Option-cases, map_option, map_get, string_eq, nat_eq, ℕ, ◌+◌, ◌<◌, String, ◌≡◌, refl,
  ap, ◌∙◌, subst, inl, inr, true, false, Option, none, some, arith,
}
use gateway_realtime.EventRecord.{
  EventStatus, stored, delivered, applied, failed, EventRecord, get_last_delivery_attempt,
}
use gateway_realtime.EventStore.Cleanup.{is_stale, cleanup_stale_delivered}
use gateway_realtime.EventStore.Cleanup.Laws.{
  stale_status, get-fail_stale, stale_record, get-stale_events,
}
use gateway_realtime.EventStore.State.{StoreConfig, EventStore}

-- The user was sent the event, at a time that is known and more than the timeout ago, and has not
-- acknowledged it.
abbrev pub LeftUnanswered : StoreConfig → ℕ → ℕ → EventRecord → Type 0
LeftUnanswered config now user r =
    (map_get user r.user_status ≡ some delivered)
    × ((last : ℕ) × ((map_get user r.last_delivery_attempt ≡ some last)
          × ((0 < last) × (config.stale_timeout + last < now))))

is_stale-LeftUnanswered :
    (config : StoreConfig) (now user : ℕ) (r : EventRecord)
    → map_get user r.user_status ≡ some delivered
    → is_stale config now r user delivered ≡ true
    → LeftUnanswered config now user r
unfolding is_stale get_last_delivery_attempt
is_stale-LeftUnanswered config now user r e s =
    elim (Option-cases (map_get user r.last_delivery_attempt)) [
      | inl q ↦ absurd (ground (arith, q, s))
      | inr (last, q) ↦ (e, (last, (q, (ground (arith, q, s), ground (arith, q, s)))))
    ]

LeftUnanswered-is_stale :
    (config : StoreConfig) (now user : ℕ) (r : EventRecord)
    → LeftUnanswered config now user r
    → is_stale config now r user delivered ≡ true
unfolding is_stale get_last_delivery_attempt
LeftUnanswered-is_stale config now user r (e, (last, (q, (p, h)))) = ground (arith, q, p, h)

is_stale_delivered :
    (config : StoreConfig) (now user : ℕ) (r : EventRecord) (status : EventStatus)
    → is_stale config now r user status ≡ true
    → status ≡ delivered
unfolding is_stale
is_stale_delivered config now user r delivered s = refl
is_stale_delivered config now user r stored s = absurd (cc)
is_stale_delivered config now user r applied s = absurd (cc)
is_stale_delivered config now user r failed s = absurd (cc)

stale_left :
    (config : StoreConfig) (now user : ℕ) (r : EventRecord) (status : EventStatus)
    → map_get user r.user_status ≡ some status
    → ¬ LeftUnanswered config now user r
    → is_stale config now r user status ≡ false
stale_left config now user r status e n = elim (Bool-cases (is_stale config now r user status)) [
  | inl s ↦
      let d = is_stale_delivered config now user r status s in
      absurd (
        n (
          is_stale-LeftUnanswered config now user r (e ∙ ap (λ x. some x) d)
            (subst (λ x. is_stale config now r user x ≡ true) d s)))
  | inr k ↦ k
]

stale_status-left :
    (config : StoreConfig) (now user : ℕ) (r : EventRecord) (status : Option EventStatus)
    → map_get user r.user_status ≡ status
    → ¬ LeftUnanswered config now user r
    → map_option (stale_status config now r user) status ≡ status
stale_status-left config now user r none e n = refl
stale_status-left config now user r (some status) e n =
    rw (stale_left config now user r status e n) refl

-- The stale pass leaves every event with all that it has but its statuses. The status of a user
-- becomes FAILED if it is DELIVERED and the last attempt for the user has a known time, not 0,
-- that is more than the timeout ago. Otherwise it stays, or stays missing.
pub status-cleanup_stale :
    (config : StoreConfig) (now user : ℕ) (id : String) (r : EventRecord) (st : EventStore)
    → map_get id st.events ≡ some r
    → (r' : EventRecord) × ((map_get id (cleanup_stale_delivered config now st).events ≡ some r')
        × ((r' ≡ record r { user_status = r'.user_status })
            × ((LeftUnanswered config now user r → map_get user r'.user_status ≡ some failed)
                × (¬ LeftUnanswered config now user r
                    → map_get user r'.user_status ≡ map_get user r.user_status))))
unfolding cleanup_stale_delivered
status-cleanup_stale config now user id r st e =
    let status = get-fail_stale config now user r r.user_status in
    (
      stale_record config now r,
      (
        get-stale_events config now id st.events ∙ ap (map_option (stale_record config now)) e,
        (
          refl,
          (
            λ h. status ∙ rw (h.0) (rw (LeftUnanswered-is_stale config now user r h) refl),
            λ n. status ∙ stale_status-left config now user r (map_get user r.user_status) refl n,
          ),
        ),
      ),
    )
