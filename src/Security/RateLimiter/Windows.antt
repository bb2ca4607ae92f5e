-- ===== src/Security/RateLimiter/Windows.antt =====
-- How many requests the limiter lets pass.
use world_boss_raid.Base.{
  ℕ, suc, ◌+◌, ◌-◌, ◌*◌, ◌≤◌, ◌<◌, ◌^◌, ◌≡◌, refl, true, false, List, [], ◌∷◌, ◌++◌, arith, ℤ, pos,
  ◌+ℤ◌, ◌-ℤ◌, ◌≤ℤ◌, ◌<ℤ◌, +ℤ_parts, -ℤ_parts, leb_ℤ, All, length, replicate, min, dec_lt,
  All-replicate, length-replicate,
}
use world_boss_raid.Security.RateLimiter.{
  RateLimiter, rate_limiter_init, rate_limiter_check, rate_limiter_run,
}

-- A time before the end of the limiter's window.
abbrev pub InWindow : RateLimiter → ℤ → Type 0
InWindow rl now = now <ℤ rl.window_start +ℤ pos rl.window_seconds

pub record IsValid (rl : RateLimiter) : Type 0 where
  pub small : rl.max_requests < 2 ^ 32
  pub counted : rl.request_count ≤ rl.max_requests

-- A check within the window: it passes exactly if the count is below the maximum, and counts it.
pub check-InWindow :
    (now : ℤ) (rl : RateLimiter)
    → IsValid rl
    → InWindow rl now
    → (rl.request_count ≡ rl.max_requests → rate_limiter_check now rl ≡ (false, rl))
      × (rl.request_count < rl.max_requests
          → rate_limiter_check now rl ≡ (true, record rl { request_count = rl.request_count + 1 }))
unfolding rate_limiter_check
check-InWindow now rl v h =
    let late : leb_ℤ (pos rl.window_seconds) (now -ℤ rl.window_start) ≡ false =
      ground
        (arith, +ℤ_parts rl.window_start (pos rl.window_seconds), -ℤ_parts now rl.window_start) in
    (λ e. ground (arith, late), λ l. ground (arith, late))

-- Of requests that all come before the end of the window, as many pass as the maximum has left.
pub rate_limiter_run_window :
    (times : List ℤ) (rl : RateLimiter)
    → IsValid rl
    → All (InWindow rl) times
    → (rate_limiter_run times rl).0 ≡ min (length times) (rl.max_requests - rl.request_count)
unfolding rate_limiter_run
rate_limiter_run_window [] rl v h = omega arith
rate_limiter_run_window (now ∷ times) rl v h = elim (dec_lt rl.request_count rl.max_requests) [
  | yes l ↦
      let passed = (check-InWindow now rl v h.0).1 l in
      let rl1 = record rl { request_count = rl.request_count + 1 } in
      rw passed (omega (arith, rate_limiter_run_window times rl1 (omega arith) h.1))
  | no n ↦
      let refused = (check-InWindow now rl v h.0).0 (omega arith) in
      rw refused (omega (arith, rate_limiter_run_window times rl v h.1))
]

run_window-keeps :
    (times : List ℤ) (rl : RateLimiter)
    → IsValid rl
    → All (InWindow rl) times
    → let rl' = (rate_limiter_run times rl).1 in
      (rl'.window_start ≡ rl.window_start)
      × (rl'.window_seconds ≡ rl.window_seconds)
      × (rl'.max_requests ≡ rl.max_requests)
unfolding rate_limiter_run
run_window-keeps [] rl v h = (refl, refl, refl)
run_window-keeps (now ∷ times) rl v h = elim (dec_lt rl.request_count rl.max_requests) [
  | yes l ↦
      let passed = (check-InWindow now rl v h.0).1 l in
      let rl1 = record rl { request_count = rl.request_count + 1 } in
      rw passed (run_window-keeps times rl1 (omega arith) h.1)
  | no n ↦
      let refused = (check-InWindow now rl v h.0).0 (omega arith) in
      rw refused (run_window-keeps times rl v h.1)
]

run-append :
    (xs ys : List ℤ) (rl : RateLimiter)
    → (rate_limiter_run (xs ++ ys) rl).0
      ≡ (rate_limiter_run xs rl).0 + (rate_limiter_run ys (rate_limiter_run xs rl).1).0
unfolding rate_limiter_run
run-append [] ys rl = omega arith
run-append (now ∷ xs) ys rl = ground (arith, run-append xs ys (rate_limiter_check now rl).1)

pub check_expired :
    (now : ℤ) (rl : RateLimiter)
    → rl.window_start +ℤ pos rl.window_seconds ≤ℤ now
    → rate_limiter_check now rl ≡ (true, record rl { request_count = 1; window_start = now })
unfolding rate_limiter_check
check_expired now rl h =
    let late : leb_ℤ (pos rl.window_seconds) (now -ℤ rl.window_start) ≡ true =
      ground
        (arith, +ℤ_parts rl.window_start (pos rl.window_seconds), -ℤ_parts now rl.window_start) in
    ground (arith, late)

-- `k + 1` requests at the moment at which the window ends all pass, if the maximum allows them.
run_expired :
    (k : ℕ) (now : ℤ) (rl : RateLimiter)
    → rl.window_start +ℤ pos rl.window_seconds ≤ℤ now
    → suc k ≤ rl.max_requests
    → rl.max_requests < 2 ^ 32
    → 0 < rl.window_seconds
    → (rate_limiter_run (replicate (suc k) now) rl).0 ≡ suc k
unfolding rate_limiter_run
run_expired k now rl h fits small w =
    let rl1 = record rl { request_count = 1; window_start = now } in
    let soon : InWindow rl1 now = omega (arith, +ℤ_parts now (pos rl.window_seconds)) in
    rw (check_expired now rl h) (
      omega (
        arith,
        rate_limiter_run_window (replicate k now) rl1 (omega arith)
            (All-replicate (InWindow rl1) k now soon),
        length-replicate {0} k now,
      ))

-- For any maximum below 2^32 and any window of a second or more: of the maximum of requests in the
-- window's last second and the same number a second later, all pass.
pub rate_limiter_burst :
    (k window_seconds : ℕ) (started : ℤ)
    → suc k < 2 ^ 32
    → 0 < window_seconds
    → let last = started +ℤ pos (window_seconds - 1) in
      (rate_limiter_run
        (replicate (suc k) last ++ replicate (suc k) (last +ℤ pos 1))
        (rate_limiter_init started (suc k) window_seconds)).0
      ≡ 2 * suc k
unfolding rate_limiter_init
rate_limiter_burst k w started small h =
    let last = started +ℤ pos (w - 1) in
    let rl = rate_limiter_init started (suc k) w in
    let soon : InWindow rl last =
      omega (arith, +ℤ_parts started (pos (w - 1)), +ℤ_parts started (pos w)) in
    let all = All-replicate (InWindow rl) (suc k) last soon in
    let first = rate_limiter_run_window (replicate (suc k) last) rl (omega arith) all in
    let (s, d, m) = run_window-keeps (replicate (suc k) last) rl (omega arith) all in
    rw (run-append (replicate (suc k) last) (replicate (suc k) (last +ℤ pos 1)) rl) (
      omega (
        arith,
        first,
        length-replicate {0} k last,
        run_expired k (last +ℤ pos 1) (rate_limiter_run (replicate (suc k) last) rl).1
            (rw (s, d)
              (omega (
                arith,
                +ℤ_parts started (pos (w - 1)),
                +ℤ_parts last (pos 1),
                +ℤ_parts started (pos w),
              )))
            (rw m (omega arith)) (rw m small) (rw d h),
      ))
