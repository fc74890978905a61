-- ===== src/EventRecord/Retry.antt =====
-- When an event is sent again: `shouldRetry` of schema/event.record.ts.
use gateway_realtime.Common.{
  lt→ltb, le→ltb_false, or_default, ℕ, ◌+◌, ◌-◌, ◌*◌, ◌^◌, ◌≤◌, ◌<◌, ◌≡◌, refl, true, false, Option,
  arith,
}
use gateway_realtime.EventRecord.{
  EventStatus, stored, delivered, applied, failed, EventRecord, get_user_status,
  get_delivery_attempts, get_last_delivery_attempt, random_scale, backoff_over, RetryPolicy,
  retry_delivered, retry_failed, retry_status, should_retry,
}

-- Before half of `base * 2^attempts` no draw lets the backoff end.
backoff_over_early :
    (base attempts draw elapsed : ℕ)
    → 2 * elapsed ≤ base * 2 ^ attempts
    → backoff_over base attempts draw elapsed ≡ false
unfolding backoff_over
backoff_over_early base attempts draw elapsed h =
    let b = base * 2 ^ attempts in
    let scaled : 2 * elapsed * 4503599627370496 ≤ b * 4503599627370496 = grind arith in
    let drawn : b * 4503599627370496 ≤ b * (4503599627370496 + draw) = grind arith in
    le→ltb_false _ _ (omega arith)

-- After three halves of it every draw does.
backoff_over_late :
    (base attempts draw elapsed : ℕ)
    → draw < random_scale
    → 3 * (base * 2 ^ attempts) < 2 * elapsed
    → backoff_over base attempts draw elapsed ≡ true
unfolding backoff_over
backoff_over_late base attempts draw elapsed d h =
    let b = base * 2 ^ attempts in
    let drawn : b * (4503599627370496 + draw) ≤ b * (3 * 4503599627370496) = grind arith in
    lt→ltb _ _ (omega arith)

-- With `base * 2^attempts` as the delay, the backoff never ends before half of it and has always
-- ended after three halves of it, whatever is drawn.
pub backoff_over_bounds :
    (base attempts draw elapsed : ℕ)
    → draw < random_scale
    → (2 * elapsed ≤ base * 2 ^ attempts → backoff_over base attempts draw elapsed ≡ false)
      × (3 * (base * 2 ^ attempts) < 2 * elapsed → backoff_over base attempts draw elapsed ≡ true)
backoff_over_bounds base attempts draw elapsed d =
    (backoff_over_early base attempts draw elapsed, backoff_over_late base attempts draw elapsed d)

-- An event is given up for a user exactly when it is APPLIED or it is FAILED with its attempts used
-- up.
abbrev pub GivenUp : RetryPolicy → ℕ → EventStatus → Type 0
GivenUp policy attempts applied = Unit {0}
GivenUp policy attempts failed = policy.max_attempts ≤ attempts
GivenUp policy attempts _ = ⊥

retry_status-GivenUp :
    (now : ℕ) (policy : RetryPolicy) (draw attempts : ℕ) (last : Option ℕ) (status : EventStatus)
    → GivenUp policy attempts status
    → retry_status now policy draw attempts last status ≡ false
unfolding retry_status retry_failed
retry_status-GivenUp now policy draw attempts last applied g = refl
retry_status-GivenUp now policy draw attempts last stored g = absurd g
retry_status-GivenUp now policy draw attempts last delivered g = absurd g
retry_status-GivenUp now policy draw attempts last failed g = ground arith

-- The time from which an event that is not given up is due for a user, whatever is drawn.
abbrev pub due_time : RetryPolicy → ℕ → Option ℕ → ℕ
due_time policy attempts last =
    or_default last 0 + policy.delivered_timeout + 2 * (policy.backoff_base * 2 ^ attempts) + 1

retry_status_due :
    (now : ℕ) (policy : RetryPolicy) (draw attempts : ℕ) (last : Option ℕ) (status : EventStatus)
    → draw < random_scale
    → ¬ GivenUp policy attempts status
    → due_time policy attempts last ≤ now
    → retry_status now policy draw attempts last status ≡ true
unfolding retry_status retry_delivered retry_failed
retry_status_due now policy draw attempts last applied d g h = absurd (g tt)
retry_status_due now policy draw attempts last stored d g h = refl
retry_status_due now policy draw attempts last delivered d g h = ground arith
retry_status_due now policy draw attempts last failed d g h =
    let over =
      backoff_over_late policy.backoff_base attempts draw (now - or_default last 0) d
        (omega arith) in
    ground (arith, over, g)

pub should_retry_due :
    (user now : ℕ) (policy : RetryPolicy) (draw : ℕ) (r : EventRecord)
    → draw < random_scale
    → let attempts = get_delivery_attempts user r in
      (GivenUp policy attempts (get_user_status user r)
        → should_retry user now policy draw r ≡ false)
      × (¬ GivenUp policy attempts (get_user_status user r)
          → due_time policy attempts (get_last_delivery_attempt user r) ≤ now
          → should_retry user now policy draw r ≡ true)
unfolding should_retry
should_retry_due user now policy draw r d =
    let attempts = get_delivery_attempts user r in
    let last = get_last_delivery_attempt user r in
    (
      retry_status-GivenUp now policy draw attempts last (get_user_status user r),
      retry_status_due now policy draw attempts last (get_user_status user r) d,
    )
