-- ===== src/FigmentChain/Assemble.antt =====
-- contenders/rust/figment-engine-chain/src/assemble_chain.rs: the errors, and how a call is tried
-- again. What a task does to the governor of calls and to the clock is kept as a list of events.
pub mod Retry
pub mod Service
pub mod Build
pub mod Interface
pub mod Attempts
pub mod Objects
pub mod Links
pub mod Segments
pub mod Directory
pub mod Faults
pub mod Run
pub mod Waiting
use demo_s3_archiving.Prelude.{ℕ, zero, suc, ◌+◌, ◌-◌, ◌*◌, ◌^◌, Bool, true, false, ◌||◌, ◌&&◌}
use demo_s3_archiving.Prelude.{List, [], ◌∷◌, ◌++◌, ltb, leb, ◌==◌, if◌then◌else◌}
use demo_s3_archiving.Bytes.{Text, codes, contains_text}
use demo_s3_archiving.FigmentChain.RateLimit.{Priority}

-- `ChainError`; an error of the SDK is the text that it is shown as. `panicked` stands for a panic,
-- which ends the task as an error does.
pub data ChainError : Type 0 where
  s3 : Text → ChainError
  no_upload_id : ChainError
  no_etag : Text → ChainError
  bad_crc : Text → ChainError
  byte_stream : Text → ChainError
  panicked : ChainError

pub data Result (A : Type 0) : Type 0 where
  ok : A → Result A
  err : ChainError → Result A

-- `e.to_string()` of an error of S3
abbrev pub shown : Text → Text
shown e = codes "s3 error: " ++ e

unfoldable pub is_retryable : ChainError → Bool
unfolding contains_text
is_retryable (byte_stream e) = true
is_retryable (s3 e) =
    contains_text (shown e) (codes "SlowDown")
    || contains_text (shown e) (codes "Throttl")
    || contains_text (shown e) (codes "ServiceUnavailable")
    || contains_text (shown e) (codes "Service Unavailable")
    || contains_text (shown e) (codes "RequestTimeout")
    || contains_text (shown e) (codes "InternalError")
    || contains_text (shown e) (codes "(500)")
    || contains_text (shown e) (codes "(503)")
is_retryable no_upload_id = false
is_retryable (no_etag what) = false
is_retryable (bad_crc what) = false
is_retryable panicked = false

-- The test for a throttle, on a retryable error. That of a broken stream is shown as
-- `bytestream: ` and its text.
unfoldable pub is_throttle : ChainError → Bool
unfolding contains_text
is_throttle (byte_stream e) =
    let s = codes "bytestream: " ++ e in
    contains_text s (codes "SlowDown")
    || contains_text s (codes "Throttl")
    || contains_text s (codes "(503)")
is_throttle (s3 e) =
    contains_text (shown e) (codes "SlowDown")
    || contains_text (shown e) (codes "Throttl")
    || contains_text (shown e) (codes "(503)")
is_throttle no_upload_id = false
is_throttle (no_etag what) = false
is_throttle (bad_crc what) = false
is_throttle panicked = false

abbrev pub max_attempts : ℕ
max_attempts = 10

-- The milliseconds of a sleep, to which a jitter below 100 is added:
-- `100u64.saturating_mul(1u64 << (attempt - 1).min(cap))`.
unfoldable pub base_ms : ℕ → ℕ → ℕ
base_ms cap attempt = 100 * 2 ^ (if leb (attempt - 1) cap then attempt - 1 else cap)

pub data Event : Type 0 where
  acquired : Priority → Event
  throttled : Event
  noted_retry : Event
  slept : ℕ → Event

-- What the calls of a task change: the state of S3 and what else they share, and the events.
pub record Machine (World : Type 0) : Type 0 where
  pub world : World
  pub events : List Event

-- The loop of both functions that try a call again: `left` more attempts may follow this one, so that
-- the count of attempts, `attempt`, is `max_attempts - left` after it, and `again` is what is done
-- before the next one.
unfoldable pub retry_loop : {S A : Type 0} → (S → Result A × S) → (ℕ → S → S) → ℕ → S → Result A × S
retry_loop attempt again zero s = attempt s
retry_loop attempt again (suc left) s =
    let (r, s') = attempt s in
    elim r [
      | ok v ↦ (ok v, s')
      | err e ↦ elim (is_retryable e) [
        | false ↦ (err e, s')
        | true ↦ retry_loop attempt again left (again (suc left) s')
      ]
    ]

module _ {World : Type 0} where
  unfoldable pub emit : List Event → Machine World → Machine World
  emit es s = record s { events = s.events ++ es }

  -- `op().await`
  unfoldable pub attempt_once :
      {A : Type 0} → (World → Result A × World) → Machine World → Result A × Machine World
  attempt_once op s = let (r, w) = op s.world in (r, record s { world = w })

  unfoldable pub with_retry :
      {A : Type 0} → (World → Result A × World) → Machine World → Result A × Machine World
  with_retry op s =
      retry_loop (attempt_once op) (λ left s. emit (slept (base_ms 5 (max_attempts - left)) ∷ []) s)
        (max_attempts - 1) s

  -- One attempt of `with_retry_governed`.
  unfoldable pub attempt_governed :
      {A : Type 0}
      → Priority
      → (World → Result A × World)
      → Machine World
      → Result A × Machine World
  unfolding attempt_once emit
  attempt_governed prio op s =
      let (r, s') = attempt_once op (emit (acquired prio ∷ []) s) in
      elim r [
        | ok v ↦ (ok v, s')
        | err e ↦ (err e, if is_retryable e && is_throttle e then emit (throttled ∷ []) s' else s')
      ]

  unfoldable pub with_retry_governed :
      {A : Type 0}
      → Priority
      → (World → Result A × World)
      → Machine World
      → Result A × Machine World
  with_retry_governed prio op s =
      retry_loop (attempt_governed prio op)
        (λ left s. emit (noted_retry ∷ slept (base_ms 7 (max_attempts - left)) ∷ []) s)
        (max_attempts - 1) s
