-- ===== src/FigmentChain/Tests.antt =====
-- The theorems of figment-engine-chain at concrete inputs: the governor of calls.
mod Plan
mod Archive
mod Crcs
use demo_s3_archiving.Prelude.{ℕ, ◌+◌, ◌*◌}
use demo_s3_archiving.FigmentChain.RateLimit.{
  RateLimiter, high, new, arrive, poll, on_throttle, Reachable, started, stepped, arrives, polls,
  throttled,
}
use demo_s3_archiving.FigmentChain.RateLimit.Bounds.{IsGoverned, Reachable-IsGoverned}

-- The exact sum, in place of that of the machine.
abbrev exact : ℕ → ℕ → ℕ → ℕ
exact tokens elapsed rate = tokens + elapsed * rate

-- A call arrives and is let through, and S3 is throttled twice in one window.
abbrev busy : RateLimiter
busy = on_throttle (on_throttle (poll exact (arrive exact new high) high 600).1 700) 750

busy-Reachable : Reachable exact busy
busy-Reachable =
    stepped
      (stepped
        (stepped (stepped started (arrives new high)) (polls (arrive exact new high) high 600))
        (throttled (poll exact (arrive exact new high) high 600).1 700))
      (throttled (on_throttle (poll exact (arrive exact new high) high 600).1 700) 750)

Reachable-IsGoverned_example : IsGoverned busy
Reachable-IsGoverned_example = Reachable-IsGoverned exact busy-Reachable
