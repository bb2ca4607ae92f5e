-- ===== src/Tests/Checks.antt =====
-- The three checks of a request, and the checksum, at concrete inputs.
use world_boss_raid.Base.{ℕ, ◌≡◌, List, [], ◌∷◌, ◌++◌, arith, pos, ◌+ℤ◌, replicate}
use world_boss_raid.Security.RateLimiter.{rate_limiter_init, rate_limiter_run}
use world_boss_raid.Security.ReplayProtection.{replay_protection_init, accepted}
use world_boss_raid.Security.ReplayProtection.Order.{IsAscending, accepted-IsAscending}
use world_boss_raid.Base.{◌≤◌, ◌*◌, ◌-◌}
use world_boss_raid.Security.RateLimiter.{RateLimiter}
use world_boss_raid.Security.RateLimiter.Limit.{rate_limiter_limit}

accepted-IsAscending_example :
    let passed = accepted (4 ∷ 7 ∷ 5 ∷ 7 ∷ 9 ∷ []) replay_protection_init in
    (rest : List ℕ) × (passed ≡ 4 ∷ rest) × IsAscending 4 rest
accepted-IsAscending_example =
    accepted-IsAscending 4 (7 ∷ 5 ∷ 7 ∷ 9 ∷ []) (omega arith)
      (omega arith, (omega arith, (omega arith, (omega arith, tt))))

-- The limits of the server, two requests before the end of a window.
abbrev busy : RateLimiter
busy = record { request_count = 3; window_start = pos 999; max_requests = 5; window_seconds = 1 }

rate_limiter_limit_example :
    ((rate_limiter_run (replicate 20 (pos 1000)) busy).0 ≤ 2 * 5)
    × ((rate_limiter_run
          (replicate 5 (pos 1000 +ℤ pos (1 - 1)) ++ replicate 5 (pos 1000 +ℤ pos (1 - 1) +ℤ pos 1))
          (rate_limiter_init (pos 1000) 5 1)).0
        ≡ 2 * 5)
unfolding ◌+ℤ◌
rate_limiter_limit_example =
    rate_limiter_limit busy (pos 1000) (pos 1000) (replicate 20 (pos 1000)) (omega arith)
      (omega arith) (omega arith) (omega arith)
