-- ===== src/RateLimit/Window.antt =====
-- How many attempts one window lets through: providers/storage/in-memory.provider.ts.
use Prim.Native.Nat.{min}
-- The attempts of a list of times that are not refused.

use gateway_realtime.Common.{
  leb, if◌then◌else◌, leb→le, Bool-cases, map_get, length, All, nat_eq, string_eq, ℕ, ◌+◌, ◌-◌, ◌≤◌,
  ◌<◌, String, ◌≡◌, refl, inl, inr, true, false, none, some, List, [], ◌∷◌, arith,
}
use gateway_realtime.RateLimit.Laws.{increment-get_self, increment-get_new, increment_info_blocked}
use gateway_realtime.RateLimit.Storage.{
  RateLimitInfo, RateStore, still_blocked, block_over, first_info, increment_info, increment,
}

unfoldable pub admitted : ℕ → ℕ → String → List ℕ → RateStore → ℕ
admitted window_ms max_attempts key [] store = 0
admitted window_ms max_attempts key (t ∷ ts) store =
    let (store', attempt) = increment key window_ms max_attempts t store in
    (if attempt.blocked then 0 else 1) + admitted window_ms max_attempts key ts store'

-- The same for the entry of one key.
admitted_info : ℕ → ℕ → List ℕ → RateLimitInfo → ℕ
admitted_info window_ms max_attempts [] info = 0
admitted_info window_ms max_attempts (t ∷ ts) info =
    let (info', attempt) = increment_info window_ms max_attempts t info in
    (if attempt.blocked then 0 else 1) + admitted_info window_ms max_attempts ts info'

admitted-info :
    (window_ms max_attempts : ℕ) (key : String) (ts : List ℕ) (store : RateStore)
    (info : RateLimitInfo)
    → map_get key store ≡ some info
    → admitted window_ms max_attempts key ts store ≡ admitted_info window_ms max_attempts ts info
unfolding admitted admitted_info
admitted-info window_ms max_attempts key [] store info e = refl
admitted-info window_ms max_attempts key (t ∷ ts) store info e =
    let step = increment-get_self key window_ms max_attempts t store e in
    let rest =
      admitted-info window_ms max_attempts key ts (increment key window_ms max_attempts t store).0
        (increment_info window_ms max_attempts t info).0 step.0 in
    rw (step.1, rest)

-- Until a block ends no attempt is let through.
admitted_info_blocked :
    (window_ms max_attempts until : ℕ) (ts : List ℕ) (info : RateLimitInfo)
    → info.blocked_until ≡ some until
    → All (λ t. t < until) ts
    → admitted_info window_ms max_attempts ts info ≡ 0
unfolding admitted_info
admitted_info_blocked window_ms max_attempts until [] info e h = refl
admitted_info_blocked window_ms max_attempts until (t ∷ ts) info e h =
    let step = increment_info_blocked window_ms max_attempts t until info e h.0 in
    rw (step.1, step.0)
      (omega (arith, admitted_info_blocked window_ms max_attempts until ts info e h.1))

abbrev pub Within : ℕ → ℕ → ℕ → Type 0
Within first window_ms t = (first ≤ t) × (t < first + window_ms)

Within-block :
    (first window_ms t : ℕ) (ts : List ℕ)
    → first ≤ t
    → All (Within first window_ms) ts
    → All (λ t'. t' < t + window_ms) ts
Within-block first window_ms t [] h k = tt
Within-block first window_ms t (x ∷ ts) h k = (omega arith, Within-block first window_ms t ts h k.1)

increment_info_open :
    (window_ms max_attempts t : ℕ) (info : RateLimitInfo)
    → info.blocked_until ≡ none
    → Within info.first_attempt window_ms t
    → increment_info window_ms max_attempts t info ≡ (
        if leb max_attempts (info.count + 1)
        then (
          record info { count = info.count + 1; blocked_until = some (t + window_ms) },
          record {
            current_count = info.count + 1;
            blocked = true;
            blocked_until = some (t + window_ms);
          },
        )
        else (
          record info { count = info.count + 1 },
          record { current_count = info.count + 1; blocked = false; blocked_until = none },
        ))
unfolding increment_info still_blocked block_over
increment_info_open window_ms max_attempts t info e h = ground arith

admitted_info_open :
    (window_ms max_attempts : ℕ) (ts : List ℕ) (info : RateLimitInfo)
    → info.blocked_until ≡ none
    → All (Within info.first_attempt window_ms) ts
    → admitted_info window_ms max_attempts ts info ≡ min (length ts) (max_attempts - 1 - info.count)
unfolding admitted_info
admitted_info_open window_ms max_attempts [] info e h = omega arith
admitted_info_open window_ms max_attempts (t ∷ ts) info e h =
    elim (Bool-cases (leb max_attempts (info.count + 1))) [
      | inl full ↦
          rw (increment_info_open window_ms max_attempts t info e h.0, full)
            (omega (
              arith,
              leb→le _ _ full,
              admitted_info_blocked window_ms max_attempts (t + window_ms) ts
                  (record info { count = info.count + 1; blocked_until = some (t + window_ms) })
                  refl (Within-block info.first_attempt window_ms t ts h.0.0 h.1),
            ))
      | inr room ↦
          rw (increment_info_open window_ms max_attempts t info e h.0, room)
            (ground (
              arith,
              admitted_info_open window_ms max_attempts ts (record info { count = info.count + 1 })
                  e h.1,
            ))
    ]

-- From a key without an entry, of an attempt at `first` and any attempts later in the same window,
-- the first is let through and after it as many as there are, but at most `max_attempts - 2`: a
-- window lets `max_attempts - 1` attempts through (one, if `max_attempts` is 0 or 1).
pub admitted_in_window :
    (window_ms max_attempts first : ℕ) (key : String) (ts : List ℕ) (store : RateStore)
    → map_get key store ≡ none
    → All (Within first window_ms) ts
    → admitted window_ms max_attempts key (first ∷ ts) store
      ≡ 1 + min (length ts) (max_attempts - 2)
unfolding admitted
admitted_in_window window_ms max_attempts first key ts store e h =
    let step = increment-get_new key window_ms max_attempts first store e in
    let rest =
      admitted-info window_ms max_attempts key ts
        (increment key window_ms max_attempts first store).0 (first_info first) step.0 in
    rw (step.1, rest)
      (omega (arith, admitted_info_open window_ms max_attempts ts (first_info first) refl h))
