-- ===== src/FigmentChain/RateLimit.antt =====
-- contenders/rust/figment-engine-chain/src/rate_limit.rs: the governor of the calls to S3.
--
-- Each call is one step on the counters: the loops of compare_exchange_weak go round again where
-- another thread was faster, so that the swap that ends them works on the counter's value. All rates
-- are whole numbers, which an f64 holds exactly. The clock is an argument.
pub mod Bounds
use demo_s3_archiving.Prelude.{ℕ, zero, suc, ◌+◌, ◌-◌, ◌*◌, Bool, true, false, ◌&&◌}
use demo_s3_archiving.Prelude.{List, [], ◌∷◌, ltb, leb, ◌==◌, if◌then◌else◌}

abbrev pub start_rate : ℕ
start_rate = 1800

abbrev pub ceil_rate : ℕ
ceil_rate = 3200

abbrev pub floor_rate : ℕ
floor_rate = 200

abbrev pub step_down : ℕ
step_down = 100

-- `DOWN_WINDOW` and `RECOVER_INTERVAL` in milliseconds
abbrev pub down_window : ℕ
down_window = 100

abbrev pub step_up : ℕ
step_up = 150

abbrev pub recover_interval : ℕ
recover_interval = 500

-- `MAX_BURST * 1000.0`
abbrev pub max_burst_milli : ℕ
max_burst_milli = 4 * 1000

pub data Priority : Type 0 where
  high : Priority
  low : Priority

-- `Inner`, without the means to wake up those that wait.
pub record RateLimiter : Type 0 where
  pub rate : ℕ
  pub tokens_milli : ℕ
  pub last_refill_ms : ℕ
  pub high_waiters : ℕ
  pub last_down_ms : ℕ
  pub last_up_ms : ℕ
  pub last_throttle_ms : ℕ
  pub acquires : ℕ
  pub throttles : ℕ
  pub down_steps : ℕ
  pub up_steps : ℕ
  pub retries : ℕ
  pub min_rate_milli : ℕ

abbrev pub new : RateLimiter
new = record {
  rate = start_rate;
  tokens_milli = max_burst_milli;
  last_refill_ms = 0;
  high_waiters = 0;
  last_down_ms = 0;
  last_up_ms = 0;
  last_throttle_ms = 0;
  acquires = 0;
  throttles = 0;
  down_steps = 0;
  up_steps = 0;
  retries = 0;
  min_rate_milli = start_rate * 1000;
}

-- `r.clamp(FLOOR_RATE, CEIL_RATE)`
unfoldable pub clamp_rate : ℕ → ℕ
clamp_rate r = if ltb r floor_rate then floor_rate else if ltb ceil_rate r then ceil_rate else r

unfoldable pub set_rate : RateLimiter → ℕ → RateLimiter
unfolding clamp_rate
set_rate l r =
    let r' = clamp_rate r in
    let rm = r' * 1000 in
    record l {
      rate = r';
      min_rate_milli = if ltb rm l.min_rate_milli then rm else l.min_rate_milli;
    }

-- The additive increase of `refill`.
unfoldable pub recover : RateLimiter → ℕ → RateLimiter
unfolding set_rate
recover l now_ms =
    if leb recover_interval (now_ms - l.last_up_ms)
      && leb recover_interval (now_ms - l.last_throttle_ms)
    then (if ltb l.rate ceil_rate
        then record (set_rate (record l { last_up_ms = now_ms }) (l.rate + step_up)) {
          up_steps = l.up_steps + 1;
        }
        else record l { last_up_ms = now_ms })
    else l

unfoldable pub note_retry : RateLimiter → RateLimiter
note_retry l = record l { retries = l.retries + 1 }

unfoldable pub on_throttle : RateLimiter → ℕ → RateLimiter
unfolding set_rate
on_throttle l now_ms =
    let l' = record l { throttles = l.throttles + 1; last_throttle_ms = now_ms } in
    if leb down_window (now_ms - l.last_down_ms)
    then record (set_rate (record l' { last_down_ms = now_ms }) (l.rate - step_down)) {
      down_steps = l.down_steps + 1;
    }
    else l'

-- `filled cur elapsed_ms rate` is `(cur as f64 + elapsed_s * rate * 1000.0) as u64`, in the floating
-- point arithmetic of the machine.
module _ (filled : ℕ → ℕ → ℕ → ℕ) where
  unfoldable pub refill_tokens : RateLimiter → ℕ → RateLimiter
  refill_tokens l now_ms =
      let next = filled l.tokens_milli (now_ms - l.last_refill_ms) l.rate in
      if ltb l.last_refill_ms now_ms
      then record l {
        last_refill_ms = now_ms;
        tokens_milli = if leb next max_burst_milli then next else max_burst_milli;
      }
      else record l { last_refill_ms = now_ms }

  unfoldable pub refill : RateLimiter → ℕ → RateLimiter
  unfolding refill_tokens recover
  refill l now_ms = recover (refill_tokens l now_ms) now_ms

  unfoldable pub try_take : RateLimiter → ℕ → Bool × RateLimiter
  unfolding refill
  try_take l now_ms =
      let r = refill l now_ms in
      if ltb r.tokens_milli 1000
      then (false, r)
      else (true, record r { tokens_milli = r.tokens_milli - 1000; acquires = r.acquires + 1 })

  -- `acquire` before its loop.
  unfoldable pub arrive : RateLimiter → Priority → RateLimiter
  arrive l high = record l { high_waiters = l.high_waiters + 1 }
  arrive l low = l

  -- One round of the loop of `acquire`: whether it returns.
  unfoldable pub poll : RateLimiter → Priority → ℕ → Bool × RateLimiter
  unfolding try_take
  poll l high now_ms =
      let (taken, r) = try_take l now_ms in
      if taken then (true, record r { high_waiters = r.high_waiters - 1 }) else (false, r)
  poll l low now_ms = if ltb 0 l.high_waiters then (false, l) else try_take l now_ms

  -- What the tasks that share the governor do to it.
  pub data Step : RateLimiter → RateLimiter → Type 0 where
    arrives : (l : RateLimiter) (p : Priority) → Step l (arrive l p)
    polls : (l : RateLimiter) (p : Priority) (now_ms : ℕ) → Step l (poll l p now_ms).1
    throttled : (l : RateLimiter) (now_ms : ℕ) → Step l (on_throttle l now_ms)
    retried : (l : RateLimiter) → Step l (note_retry l)

  pub data Reachable : RateLimiter → Type 0 where
    started : Reachable new
    stepped : {l l' : RateLimiter} → Reachable l → Step l l' → Reachable l'
