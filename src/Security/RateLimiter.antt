-- ===== src/Security/RateLimiter.antt =====
-- src/server/security/rate_limiter.h and rate_limiter.c. `now` is the value of `time(NULL)`.
pub mod Windows
pub mod Limit
use world_boss_raid.Base.{
  ℕ, suc, ◌+◌, ◌%◌, ◌^◌, Bool, true, false, List, [], ◌∷◌, ℤ, pos, ◌-ℤ◌, leb_ℤ, leb, if◌then◌else◌,
}

pub record RateLimiter : Type 0 where
  pub request_count : ℕ  -- uint32_t
  pub window_start : ℤ  -- time_t
  pub max_requests : ℕ  -- uint32_t
  pub window_seconds : ℕ  -- uint32_t

unfoldable pub rate_limiter_init : ℤ → ℕ → ℕ → RateLimiter
rate_limiter_init now max_requests window_seconds = record {
  request_count = 0;
  window_start = now;
  max_requests = max_requests;
  window_seconds = window_seconds;
}

unfoldable pub rate_limiter_check : ℤ → RateLimiter → Bool × RateLimiter
rate_limiter_check now rl =
    if leb_ℤ (pos rl.window_seconds) (now -ℤ rl.window_start)
    then (true, record rl { request_count = 1; window_start = now })
    else if leb rl.max_requests rl.request_count
    then (false, rl)
    else (true, record rl { request_count = (rl.request_count + 1) % 2 ^ 32 })

unfoldable pub rate_limiter_reset : ℤ → RateLimiter → RateLimiter
rate_limiter_reset now rl = record rl { request_count = 0; window_start = now }

-- Requests at the times of the list: how many pass, and the limiter afterwards.
unfoldable pub rate_limiter_run : List ℤ → RateLimiter → ℕ × RateLimiter
rate_limiter_run [] rl = (0, rl)
rate_limiter_run (now ∷ times) rl =
    let (allowed, rl1) = rate_limiter_check now rl in
    let (passed, rl2) = rate_limiter_run times rl1 in
    ((if allowed then suc passed else passed), rl2)
