-- ===== src/FigmentChain/Assemble/Retry.antt =====
-- How often a call of S3 is tried, and what its tries do to the governor.
use demo_s3_archiving.Prelude.{ℕ, zero, suc, ◌+◌, ◌-◌, ◌≡◌, ◌⊎◌, refl, ap, arith, inl, inr}
use demo_s3_archiving.Prelude.{true, false, ◌&&◌, Bool-cases}
use demo_s3_archiving.Prelude.{[], ◌∷◌, ◌++◌, sum_by, sum_by-append}
use demo_s3_archiving.FigmentChain.RateLimit.{Priority}
use demo_s3_archiving.FigmentChain.Assemble.{
  ChainError, Result, ok, err, is_retryable, is_throttle, max_attempts, base_ms, Event, acquired,
  throttled, noted_retry, slept, Machine, emit, attempt_once, retry_loop, attempt_governed,
  with_retry_governed,
}

-- The last of `n` tries, of which `left` more might have followed, ended for good.
abbrev pub IsOver : {A : Type 0} → ℕ → Result A → Type 0
IsOver left (ok v) = Unit
IsOver left (err e) = (left ≡ 0) ⊎ (is_retryable e ≡ false)

pub Result-cases :
    {A : Type 0} (r : Result A) → ((v : A) × (r ≡ ok v)) ⊎ ((e : ChainError) × (r ≡ err e))
Result-cases (ok v) = inl (v, refl)
Result-cases (err e) = inr (e, refl)

module _ {S A : Type 0} (attempt : S → Result A × S) (again : ℕ → S → S) where
  -- `n` attempts from `s` failed with errors that are worth another attempt, which starts at `t` and
  -- may be followed by `left` more.
  pub data Tries : ℕ → ℕ → ℕ → S → S → Type 0 where
    first : {left : ℕ} {s : S} → Tries left left 0 s s
    next :
        {left end n : ℕ} {s t : S} (e : ChainError)
        → (attempt s).0 ≡ err e
        → is_retryable e ≡ true
        → Tries left end n (again (suc left) (attempt s).1) t
        → Tries (suc left) end (suc n) s t

  -- The loop returns what its last attempt does.
  abbrev pub Ends : ℕ → S → Type 0
  Ends left s =
      (end : ℕ) × (n : ℕ) × (t : S) × (end + n ≡ left)
      × Tries left end n s t
      × (retry_loop attempt again left s ≡ attempt t)
      × IsOver end (attempt t).0

  pub retry_loop-Ends : (left : ℕ) (s : S) → Ends left s
  unfolding retry_loop
  retry_loop-Ends zero s = (
    0,
    0,
    s,
    omega arith,
    first,
    refl,
    elim (Result-cases (attempt s).0) [ inl (v, h) ↦ rw h tt | inr (e, h) ↦ rw h (inl refl) ],
  )
  retry_loop-Ends (suc left) s = elim (Result-cases (attempt s).0) [
    | inl (v, h) ↦ (suc left, 0, s, omega arith, first, rw (retry_loop, h) refl, rw h tt)
    | inr (e, h) ↦ elim (Bool-cases (is_retryable e)) [
      | inl k ↦
          let (end, n, t, sum, tries, same, over) =
            retry_loop-Ends left (again (suc left) (attempt s).1) in
          (end, suc n, t, omega (arith, sum), next e h k tries, rw (retry_loop, h, k) same, over)
      | inr k ↦ (suc left, 0, s, omega arith, first, rw (retry_loop, h, k) refl, rw h (inr k))
    ]
  ]

abbrev pub is_acquired : Event → ℕ
is_acquired (acquired prio) = 1
is_acquired throttled = 0
is_acquired noted_retry = 0
is_acquired (slept ms) = 0

abbrev pub is_noted_retry : Event → ℕ
is_noted_retry (acquired prio) = 0
is_noted_retry throttled = 0
is_noted_retry noted_retry = 1
is_noted_retry (slept ms) = 0

abbrev pub slept_ms : Event → ℕ
slept_ms (acquired prio) = 0
slept_ms throttled = 0
slept_ms noted_retry = 0
slept_ms (slept ms) = ms

-- The sleeps before the attempts from `left` to `end` that may follow.
abbrev pub waits : ℕ → ℕ → ℕ
waits cap zero = 0
waits cap (suc left) = base_ms cap (max_attempts - suc left) + waits cap left

module _ {World A : Type 0} where
  module _ (op : World → Result A × World) (prio : Priority) where
    abbrev pub again : ℕ → Machine World → Machine World
    again left s = emit (noted_retry ∷ slept (base_ms 7 (max_attempts - left)) ∷ []) s

    -- A measure of the events that an attempt at a call raises by `a`, and what comes before the
    -- next by `b`.
    module _ (m : Event → ℕ) where
      attempt-sum :
          (s : Machine World)
          → m throttled ≡ 0
          → sum_by m (attempt_governed prio op s).1.events ≡ sum_by m s.events + m (acquired prio)
      unfolding attempt_governed attempt_once emit
      attempt-sum s h =
          let one = sum_by-append m s.events (acquired prio ∷ []) in
          elim (Result-cases (op s.world).0) [
            | inl (v, e) ↦ rw (sum_by, e) (omega (arith, one))
            | inr (x, e) ↦ elim (Bool-cases (is_retryable x && is_throttle x)) [
              | inl b ↦
                  rw (sum_by, e, b)
                    (omega (
                      arith,
                      h,
                      one,
                      sum_by-append m (s.events ++ acquired prio ∷ []) (throttled ∷ []),
                    ))
              | inr b ↦ rw (sum_by, e, b) (omega (arith, one))
            ]
          ]

      again-sum :
          (left : ℕ) (s : Machine World)
          → sum_by m (again left s).events
            ≡ sum_by m s.events + m noted_retry + m (slept (base_ms 7 (max_attempts - left)))
      unfolding emit
      again-sum left s = omega (
        arith,
        sum_by-append m s.events (noted_retry ∷ slept (base_ms 7 (max_attempts - left)) ∷ []),
      )

    -- What stands in the events: the tokens taken, the retries noted and the milliseconds slept.
    abbrev pub acquires : Machine World → ℕ
    acquires s = sum_by is_acquired s.events

    abbrev pub retries : Machine World → ℕ
    retries s = sum_by is_noted_retry s.events

    abbrev pub waited : Machine World → ℕ
    waited s = sum_by slept_ms s.events

    Tries-events :
        {left end n : ℕ} {s t : Machine World}
        → Tries (attempt_governed prio op) again left end n s t
        → (acquires t ≡ acquires s + n)
          × (retries t ≡ retries s + n)
          × (waited t + waits 7 end ≡ waited s + waits 7 left)
    Tries-events first = (omega arith, omega arith, refl)
    Tries-events (next {left} {end} {n} {s} {t} e r k tries) =
        let u = (attempt_governed prio op s).1 in
        let (a, b, c) = Tries-events tries in
        (
          omega (arith, a, attempt-sum is_acquired s refl, again-sum is_acquired (suc left) u),
          omega
              (arith, b, attempt-sum is_noted_retry s refl, again-sum is_noted_retry (suc left) u),
          omega (arith, c, attempt-sum slept_ms s refl, again-sum slept_ms (suc left) u),
        )

    -- A governed call is tried at most `MAX_ATTEMPTS` times, takes one token of the governor for
    -- each attempt, notes each retry, and returns what its last attempt returns; each attempt before
    -- it failed with an error that is worth another, and it succeeded, was the last allowed, or
    -- failed with an error that is not. The sleeps in between, without their jitter, are the first
    -- of a fixed list, which sums up to 38.3 seconds.
    pub with_retry_governed-attempts :
        (s : Machine World)
        → (end : ℕ) × (n : ℕ) × (t : Machine World) × (end + suc n ≡ max_attempts)
          × Tries (attempt_governed prio op) again 9 end n s t
          × (with_retry_governed prio op s ≡ attempt_governed prio op t)
          × IsOver end (attempt_governed prio op t).0
          × (acquires (with_retry_governed prio op s).1 ≡ acquires s + suc n)
          × (retries (with_retry_governed prio op s).1 ≡ retries s + n)
          × (waited (with_retry_governed prio op s).1 + waits 7 end ≡ waited s + 38300)
    unfolding with_retry_governed base_ms
    with_retry_governed-attempts s =
        let (end, n, t, sum, tries, same, over) =
          retry_loop-Ends (attempt_governed prio op) again 9 s in
        let (a, b, c) = Tries-events tries in
        let last = ap (λ (r : Result A × Machine World). r.1.events) same in
        (
          end,
          n,
          t,
          omega (arith, sum),
          tries,
          same,
          over,
          omega (arith, a, ap (sum_by is_acquired) last, attempt-sum is_acquired t refl),
          omega (arith, b, ap (sum_by is_noted_retry) last, attempt-sum is_noted_retry t refl),
          omega (arith, c, ap (sum_by slept_ms) last, attempt-sum slept_ms t refl),
        )
