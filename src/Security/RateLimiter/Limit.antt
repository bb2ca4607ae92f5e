-- ===== src/Security/RateLimiter/Limit.antt =====
-- The most that the limiter lets pass.
use world_boss_raid.Base.{
  ℕ, zero, suc, ◌+◌, ◌-◌, ◌*◌, ◌≤◌, ◌<◌, ◌^◌, ◌≡◌, refl, inl, inr, List, [], ◌∷◌, ◌++◌, arith, ℤ,
  pos, ◌+ℤ◌, ◌≤ℤ◌, ◌<ℤ◌, +ℤ_parts, leb_ℤ, All, replicate, dec_lt, Bool-cases,
}
use world_boss_raid.Security.RateLimiter.{RateLimiter, rate_limiter_init, rate_limiter_run}
use world_boss_raid.Security.RateLimiter.Windows.{
  InWindow, IsValid, check-InWindow, check_expired, rate_limiter_run_window, rate_limiter_burst,
}

-- A time from `first` on, and less than so many seconds later.
abbrev pub InSpan : ℤ → ℕ → ℤ → Type 0
InSpan first seconds now = (first ≤ℤ now) × (now <ℤ first +ℤ pos seconds)

-- What comes in the span comes in the window that a time of the span has begun.
InSpan-InWindow :
    (first now : ℤ) (rl : RateLimiter) (times : List ℤ)
    → first ≤ℤ now
    → rl.window_start ≡ now
    → All (InSpan first rl.window_seconds) times
    → All (InWindow rl) times
InSpan-InWindow first now rl [] h e a = tt
InSpan-InWindow first now rl (t ∷ times) h e a = (
  rw e (
      omega (
        arith,
        a.0.1,
        +ℤ_parts first (pos rl.window_seconds),
        +ℤ_parts now (pos rl.window_seconds),
      )),
  InSpan-InWindow first now rl times h e a.1,
)

run-le :
    (first : ℤ) (rl : RateLimiter) (times : List ℤ)
    → IsValid rl
    → 0 < rl.max_requests
    → All (InSpan first rl.window_seconds) times
    → (rate_limiter_run times rl).0 ≤ (rl.max_requests - rl.request_count) + rl.max_requests
unfolding rate_limiter_run
run-le first rl [] v m a = omega arith
run-le first rl (now ∷ times) v m a =
    elim (Bool-cases (leb_ℤ (rl.window_start +ℤ pos rl.window_seconds) now)) [
      | inl late ↦
          let rl1 = record rl { request_count = 1; window_start = now } in
          rw (check_expired now rl (ground (arith, late))) (
            omega (
              arith,
              rate_limiter_run_window times rl1 (omega arith)
                  (InSpan-InWindow first now rl1 times a.0.0 refl a.1),
            ))
      | inr soon ↦
          let within : InWindow rl now = ground (arith, soon) in
          elim (dec_lt rl.request_count rl.max_requests) [
            | yes l ↦
                let rl1 = record rl { request_count = rl.request_count + 1 } in
                rw ((check-InWindow now rl v within).1 l)
                  (omega (arith, run-le first rl1 times (omega arith) m a.1))
            | no n ↦
                rw ((check-InWindow now rl v within).0 (omega arith))
                  (omega (arith, run-le first rl times v m a.1))
          ]
    ]

-- `rate_limiter_burst` for a maximum that is not zero.
burst :
    (max_requests window_seconds : ℕ) (started : ℤ)
    → 0 < max_requests
    → max_requests < 2 ^ 32
    → 0 < window_seconds
    → let last = started +ℤ pos (window_seconds - 1) in
      (rate_limiter_run
        (replicate max_requests last ++ replicate max_requests (last +ℤ pos 1))
        (rate_limiter_init started max_requests window_seconds)).0
      ≡ 2 * max_requests
burst zero w started m small h = elim m [ ]
burst (suc k) w started m small h = rate_limiter_burst k w started small h

-- A limiter with a maximum from 1 to 2^32 - 1 that has counted no more than it, and a window of a
-- second or more: of requests at any times within one length of the window, at most twice the
-- maximum pass, and this bound is reached: of the maximum of requests in the last second of a new
-- limiter's window and as many a second later, all pass.
pub rate_limiter_limit :
    (rl : RateLimiter) (first started : ℤ) (times : List ℤ)
    → IsValid rl
    → 0 < rl.max_requests
    → 0 < rl.window_seconds
    → All (InSpan first rl.window_seconds) times
    → let last = started +ℤ pos (rl.window_seconds - 1) in
      ((rate_limiter_run times rl).0 ≤ 2 * rl.max_requests)
      × ((rate_limiter_run
            (replicate rl.max_requests last ++ replicate rl.max_requests (last +ℤ pos 1))
            (rate_limiter_init started rl.max_requests rl.window_seconds)).0
          ≡ 2 * rl.max_requests)
rate_limiter_limit rl first started times v m w a = (
  omega (arith, run-le first rl times v m a),
  burst rl.max_requests rl.window_seconds started m v.small w,
)
