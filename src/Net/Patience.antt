-- ===== src/Net/Patience.antt =====
-- Reading on a connection on which SSL_read does not ask for retries without end.
use world_boss_raid.Base.{
  ℕ, zero, suc, ◌+◌, ◌-◌, ◌*◌, ◌≤◌, ◌<◌, ◌≡◌, ◌≢◌, refl, List, [], ◌∷◌, ◌++◌, arith, length,
}
use native.Mathlib.Nat.{mul-le-mul_right}
use world_boss_raid.Net.{
  Os, ReadResult, got, again, failed, Outcome, done, broken, starved, read_exactly,
}

module _ (os : Os) where
  open os use {Env, ssl_read}

  abbrev pub FewerRetries : (Env → ℕ) → Env → ReadResult × Env → Type 0
  FewerRetries retries e (again, e') = retries e' < retries e
  FewerRetries retries e _ = Unit

  -- SSL_read asks for at most `most` retries in a row before it delivers or fails.
  pub record IsPatient (most : ℕ) : Type 0 where
    pub retries : Env → ℕ
    pub bounded : (e : Env) → retries e ≤ most
    pub fewer : (n : ℕ) (e : Env) → FewerRetries retries e (ssl_read n e)

times_step : (j k c : ℕ) → suc j ≤ k → j * c + c ≤ k * c
times_step j k c h = omega (arith, mul-le-mul_right {m = suc j} {n = k} c h, suc_times j c)
  where
    suc_times : (j c : ℕ) → suc j * c ≡ j * c + c
    suc_times j c = omega arith

module _ (os : Os) (most : ℕ) (patient : IsPatient os most) where
  open os use {Env, ssl_read}

  -- With `k + 1` bytes to go: the retries of the others in full, and those left for the next.
  next_byte-ne-starved :
      (fuel k : ℕ) (e : Env)
      → k * (most + 1) + patient.retries e < fuel
      → (read_exactly os fuel (suc k) e).0 ≢ starved
  unfolding read_exactly
  next_byte-ne-starved zero k e h = absurd (omega arith)
  next_byte-ne-starved (suc fuel) k e h =
      go (ssl_read (suc k) e).0 refl (patient.fewer (suc k) e)
        (next_byte-ne-starved fuel k (ssl_read (suc k) e).1)
        (λ j. next_byte-ne-starved fuel j (ssl_read (suc k) e).1)
    where
      e1 : Env
      e1 = (ssl_read (suc k) e).1

      rest-ne-starved :
          (bs : List ℕ) (r : Outcome (List ℕ) × Env)
          → r.0 ≢ starved
          → (elim r.0 as (λ _. Outcome (List ℕ)) [
            | done tail ↦ done (bs ++ tail)
            | broken ↦ broken
            | starved ↦ starved
          ])
            ≢ starved
      rest-ne-starved bs (done _, e2) ne q = cc
      rest-ne-starved bs (broken, e2) ne q = cc
      rest-ne-starved bs (starved, e2) ne q = ne refl

      tail-ne-starved :
          (n : ℕ)
          → n ≤ k
          → ((j : ℕ)
              → j * (most + 1) + patient.retries e1 < fuel
              → (read_exactly os fuel (suc j) e1).0 ≢ starved)
          → (read_exactly os fuel n e1).0 ≢ starved
      tail-ne-starved zero l further = λ q. cc
      tail-ne-starved (suc j) l further =
          further j (omega (arith, times_step j k (most + 1) l, patient.bounded e1))

      go :
          (r : ReadResult)
          → (ssl_read (suc k) e).0 ≡ r
          → FewerRetries os patient.retries e (r, e1)
          → (k * (most + 1) + patient.retries e1 < fuel
              → (read_exactly os fuel (suc k) e1).0 ≢ starved)
          → ((j : ℕ)
              → j * (most + 1) + patient.retries e1 < fuel
              → (read_exactly os fuel (suc j) e1).0 ≢ starved)
          → (read_exactly os (suc fuel) (suc k) e).0 ≢ starved
      go failed q w retry further = rw (q, read_exactly) (λ s. cc)
      go again q w retry further = rw (q, read_exactly) (retry (omega arith))
      go (got []) q w retry further = rw (q, read_exactly) (λ s. cc)
      go (got (b ∷ more)) q w retry further =
          rw (q, read_exactly)
            (rest-ne-starved (b ∷ more) (read_exactly os fuel (k - length more) e1)
              (tail-ne-starved (k - length more) (omega arith) further))

  -- If SSL_read asks for at most `most` retries in a row, fuel for each byte with its retries is
  -- enough for the loop to end, with the bytes or with an error.
  pub read_exactly-ne-starved :
      (fuel need : ℕ) (e : Env)
      → need * (most + 1) ≤ fuel
      → (read_exactly os fuel need e).0 ≢ starved
  unfolding read_exactly
  read_exactly-ne-starved fuel zero e h = λ q. cc
  read_exactly-ne-starved fuel (suc k) e h =
      next_byte-ne-starved fuel k e
        (omega (arith, times_step k (suc k) (most + 1) (omega arith), patient.bounded e))
