-- ===== src/FigmentChain/RateLimit/Bounds.antt =====
-- What holds of the governor however the tasks interleave.
use demo_s3_archiving.Prelude.{ℕ, ◌+◌, ◌-◌, ◌*◌, ◌≤◌, ◌≡◌, refl, arith, inl, inr}
use demo_s3_archiving.Prelude.{◌&&◌, Bool-cases, ltb, leb}
use demo_s3_archiving.FigmentChain.RateLimit.{
  RateLimiter, Priority, high, low, ceil_rate, floor_rate, down_window, recover_interval,
  max_burst_milli, clamp_rate, set_rate, recover, note_retry, on_throttle, refill_tokens, refill,
  try_take, arrive, poll, Step, arrives, polls, throttled, retried, Reachable, started, stepped,
}

-- The rate and the tokens stay within their bounds, the rate was never below its recorded minimum,
-- and no more steps were taken than there was time for.
pub record IsGoverned (l : RateLimiter) : Type 0 where
  pub floor : floor_rate ≤ l.rate
  pub ceil : l.rate ≤ ceil_rate
  pub least : l.min_rate_milli ≤ l.rate * 1000
  pub least_floor : floor_rate * 1000 ≤ l.min_rate_milli
  pub burst : l.tokens_milli ≤ max_burst_milli
  pub windowed : l.down_steps * down_window ≤ l.last_down_ms
  pub spaced : l.up_steps * recover_interval ≤ l.last_up_ms
  pub counted : l.down_steps ≤ l.throttles

set_rate-IsGoverned : (l : RateLimiter) (r : ℕ) → IsGoverned l → IsGoverned (set_rate l r)
unfolding set_rate clamp_rate
set_rate-IsGoverned l r i = record {
  floor = ground arith;
  ceil = ground arith;
  least = ground arith;
  least_floor = ground (arith, i.least_floor);
  burst = i.burst;
  windowed = i.windowed;
  spaced = i.spaced;
  counted = i.counted;
}

recover-IsGoverned : (l : RateLimiter) (now_ms : ℕ) → IsGoverned l → IsGoverned (recover l now_ms)
unfolding recover set_rate
recover-IsGoverned l now i =
    elim (Bool-cases (
      leb recover_interval (now - l.last_up_ms)
      && leb recover_interval (now - l.last_throttle_ms))) [
        | inl a ↦ elim (Bool-cases (ltb l.rate ceil_rate)) [
          | inl b ↦
              let j = set_rate-IsGoverned l (l.rate + 150) i in
              rw (a, b)
                (record {
                  floor = j.floor;
                  ceil = j.ceil;
                  least = j.least;
                  least_floor = j.least_floor;
                  burst = i.burst;
                  windowed = i.windowed;
                  spaced = ground (arith, a, i.spaced);
                  counted = i.counted;
                })
          | inr b ↦
              rw (a, b)
                (record {
                  floor = i.floor;
                  ceil = i.ceil;
                  least = i.least;
                  least_floor = i.least_floor;
                  burst = i.burst;
                  windowed = i.windowed;
                  spaced = ground (arith, a, i.spaced);
                  counted = i.counted;
                })
        ]
        | inr a ↦ rw a i
      ]

on_throttle-IsGoverned :
    (l : RateLimiter) (now_ms : ℕ) → IsGoverned l → IsGoverned (on_throttle l now_ms)
unfolding on_throttle set_rate
on_throttle-IsGoverned l now i = elim (Bool-cases (leb down_window (now - l.last_down_ms))) [
  | inl a ↦
      let j = set_rate-IsGoverned l (l.rate - 100) i in
      rw a (record {
        floor = j.floor;
        ceil = j.ceil;
        least = j.least;
        least_floor = j.least_floor;
        burst = i.burst;
        windowed = ground (arith, a, i.windowed);
        spaced = i.spaced;
        counted = omega (arith, i.counted);
      })
  | inr a ↦ rw a (record {
    floor = i.floor;
    ceil = i.ceil;
    least = i.least;
    least_floor = i.least_floor;
    burst = i.burst;
    windowed = i.windowed;
    spaced = i.spaced;
    counted = omega (arith, i.counted);
  })
]

-- A call that only moves tokens and counters of acquires and waiters.
spend-IsGoverned :
    (l l' : RateLimiter)
    → IsGoverned l
    → l'.rate ≡ l.rate
    → l'.min_rate_milli ≡ l.min_rate_milli
    → l'.tokens_milli ≤ max_burst_milli
    → (l'.down_steps ≡ l.down_steps) × (l'.last_down_ms ≡ l.last_down_ms)
    → (l'.up_steps ≡ l.up_steps) × (l'.last_up_ms ≡ l.last_up_ms)
    → l'.throttles ≡ l.throttles
    → IsGoverned l'
spend-IsGoverned l l' i r m t d u k = record {
  floor = omega (arith, i.floor);
  ceil = omega (arith, i.ceil);
  least = omega (arith, i.least);
  least_floor = omega (arith, i.least_floor);
  burst = t;
  windowed = omega (arith, i.windowed);
  spaced = omega (arith, i.spaced);
  counted = omega (arith, i.counted);
}

module _ (filled : ℕ → ℕ → ℕ → ℕ) where
  refill-IsGoverned :
      (l : RateLimiter) (now_ms : ℕ) → IsGoverned l → IsGoverned (refill filled l now_ms)
  unfolding refill refill_tokens
  refill-IsGoverned l now i =
      recover-IsGoverned (refill_tokens filled l now) now
        (elim (Bool-cases (ltb l.last_refill_ms now)) [
          | inl a ↦
              rw a (spend-IsGoverned l _ i refl refl (ground arith) (refl, refl) (refl, refl) refl)
          | inr a ↦ rw a (spend-IsGoverned l _ i refl refl i.burst (refl, refl) (refl, refl) refl)
        ])

  try_take-IsGoverned :
      (l : RateLimiter) (now_ms : ℕ) → IsGoverned l → IsGoverned (try_take filled l now_ms).1
  unfolding try_take
  try_take-IsGoverned l now i =
      let j = refill-IsGoverned l now i in
      elim (Bool-cases (ltb (refill filled l now).tokens_milli 1000)) [
        | inl a ↦ rw a j
        | inr a ↦ rw a (
            spend-IsGoverned (refill filled l now) _ j refl refl (omega (arith, j.burst))
              (refl, refl) (refl, refl) refl)
      ]

  poll-IsGoverned :
      (l : RateLimiter) (p : Priority) (now_ms : ℕ)
      → IsGoverned l
      → IsGoverned (poll filled l p now_ms).1
  unfolding poll
  poll-IsGoverned l high now i =
      let j = try_take-IsGoverned l now i in
      elim (Bool-cases (try_take filled l now).0) [
        | inl a ↦ rw a (
            spend-IsGoverned (try_take filled l now).1 _ j refl refl j.burst (refl, refl)
              (refl, refl) refl)
        | inr a ↦ rw a j
      ]
  poll-IsGoverned l low now i = elim (Bool-cases (ltb 0 l.high_waiters)) [
    | inl a ↦ rw a i
    | inr a ↦ rw a (try_take-IsGoverned l now i)
  ]

  arrive-IsGoverned :
      (l : RateLimiter) (p : Priority) → IsGoverned l → IsGoverned (arrive filled l p)
  unfolding arrive
  arrive-IsGoverned l high i =
      spend-IsGoverned l _ i refl refl i.burst (refl, refl) (refl, refl) refl
  arrive-IsGoverned l low i = i

  Step-IsGoverned : {l l' : RateLimiter} → Step filled l l' → IsGoverned l → IsGoverned l'
  unfolding note_retry
  Step-IsGoverned (arrives l p) i = arrive-IsGoverned l p i
  Step-IsGoverned (polls l p now) i = poll-IsGoverned l p now i
  Step-IsGoverned (throttled l now) i = on_throttle-IsGoverned l now i
  Step-IsGoverned (retried l) i =
      spend-IsGoverned l _ i refl refl i.burst (refl, refl) (refl, refl) refl

  -- However calls of the governor follow one another and whatever the clock says, its rate stays
  -- between `FLOOR_RATE` and `CEIL_RATE`, its tokens at most at `MAX_BURST`, and the recorded minimum
  -- at or below the rate and at or above the floor; a step down was taken at most once for each
  -- `DOWN_WINDOW` and each throttle event, and a step up at most once for each `RECOVER_INTERVAL`,
  -- up to the last step.
  pub Reachable-IsGoverned : {l : RateLimiter} → Reachable filled l → IsGoverned l
  Reachable-IsGoverned started = record {
    floor = omega arith;
    ceil = omega arith;
    least = omega arith;
    least_floor = omega arith;
    burst = omega arith;
    windowed = omega arith;
    spaced = omega arith;
    counted = omega arith;
  }
  Reachable-IsGoverned (stepped r s) = Step-IsGoverned s (Reachable-IsGoverned r)
