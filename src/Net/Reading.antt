-- ===== src/Net/Reading.antt =====
-- `read_exactly` on a connection that delivers what is pending.
use world_boss_raid.Base.{
  ℕ, zero, suc, ◌+◌, ◌-◌, ◌≤◌, ◌≡◌, refl, sym, ap, ◌∙◌, List, [], ◌∷◌, ◌++◌, arith, length, take,
  drop, length-append,
}
use world_boss_raid.Net.{
  Os, ReadResult, got, again, failed, Outcome, done, broken, starved, read_exactly,
}
use world_boss_raid.Net.Laws.{Incoming, ReadsWell, Delivers}

take-append_more {ℓ} :
    {A : Type ℓ} (xs ys : List A) (n : ℕ)
    → length xs ≤ n
    → take n (xs ++ ys) ≡ xs ++ take (n - length xs) ys
take-append_more [] ys n h = let e : n - 0 ≡ n = omega arith in rw e
take-append_more (x ∷ xs) ys zero h = absurd (omega arith)
take-append_more (x ∷ xs) ys (suc n) h =
    let e : suc n - suc (length xs) ≡ n - length xs = omega arith in
    rw e (ap (λ l. x ∷ l) (take-append_more xs ys n (omega arith)))

drop-append_more {ℓ} :
    {A : Type ℓ} (xs ys : List A) (n : ℕ)
    → length xs ≤ n
    → drop n (xs ++ ys) ≡ drop (n - length xs) ys
drop-append_more [] ys n h = let e : n - 0 ≡ n = omega arith in rw e
drop-append_more (x ∷ xs) ys zero h = absurd (omega arith)
drop-append_more (x ∷ xs) ys (suc n) h =
    let e : suc n - suc (length xs) ≡ n - length xs = omega arith in
    rw e (drop-append_more xs ys n (omega arith))

module _ (os : Os) (io : Incoming os) (delivers : Delivers os io) where
  open os use {Env, ssl_read}

  abbrev ReadsAll : ℕ → Env → Outcome (List ℕ) × Env → Type 0
  ReadsAll need e (r, e') =
      (r ≡ done (take need (io.pending e)))
      × (io.pending e' ≡ drop need (io.pending e))
      × (io.retries e' ≤ io.retries e)

  -- A round that has read `b ∷ more`, before the rest.
  joined :
      (k : ℕ) (e : Env) (e1 : Env) (b : ℕ) (more : List ℕ) (rest : Outcome (List ℕ) × Env)
      → length (b ∷ more) ≤ suc k
      → io.pending e ≡ (b ∷ more) ++ io.pending e1
      → io.retries e1 ≤ io.retries e
      → ReadsAll (k - length more) e1 rest
      → ReadsAll (suc k) e (
        elim rest.0 as (λ _. Outcome (List ℕ)) [
          | done tail ↦ done ((b ∷ more) ++ tail)
          | broken ↦ broken
          | starved ↦ starved
        ],
        rest.1,
      )
  joined k e e1 b more rest short p q (d, l, r) = (
    rw (d, p)
        (ap (λ l. done (b ∷ l)) (sym (take-append_more more (io.pending e1) k (omega arith)))),
    rw p (l ∙ sym (drop-append_more more (io.pending e1) k (omega arith))),
    omega arith,
  )

  -- If SSL_read delivers what is pending, at least `need` bytes are pending and the fuel covers them
  -- and the retries, the loop ends with the next `need` bytes and leaves those behind them, with no
  -- more retries than before.
  pub read_exactly_lem :
      (fuel need : ℕ) (e : Env)
      → need ≤ length (io.pending e)
      → need + io.retries e ≤ fuel
      → ((read_exactly os fuel need e).0 ≡ done (take need (io.pending e)))
        × (io.pending (read_exactly os fuel need e).1 ≡ drop need (io.pending e))
        × (io.retries (read_exactly os fuel need e).1 ≤ io.retries e)
  unfolding read_exactly
  read_exactly_lem fuel zero e h f = (refl, refl, omega arith)
  read_exactly_lem zero (suc k) e h f = absurd (omega arith)
  read_exactly_lem (suc fuel) (suc k) e h f =
      go (ssl_read (suc k) e).0 refl (delivers (suc k) e (omega arith) (omega arith))
        (read_exactly_lem fuel (suc k) (ssl_read (suc k) e).1)
        (λ more. read_exactly_lem fuel (k - length more) (ssl_read (suc k) e).1)
    where
      e1 : Env
      e1 = (ssl_read (suc k) e).1

      go :
          (r : ReadResult)
          → (ssl_read (suc k) e).0 ≡ r
          → ReadsWell os io (suc k) e (r, e1)
          → (suc k ≤ length (io.pending e1)
              → suc k + io.retries e1 ≤ fuel
              → ReadsAll (suc k) e1 (read_exactly os fuel (suc k) e1))
          → ((more : List ℕ)
              → k - length more ≤ length (io.pending e1)
              → k - length more + io.retries e1 ≤ fuel
              → ReadsAll (k - length more) e1 (read_exactly os fuel (k - length more) e1))
          → ReadsAll (suc k) e (read_exactly os (suc fuel) (suc k) e)
      go failed q w retry more_to_read = absurd w
      go again q w retry more_to_read =
          rw (q, read_exactly)
            (let (a, b, c) = retry (rw w.0 h) (omega arith) in
              (a ∙ rw w.0, b ∙ rw w.0, omega arith))
      go (got []) q w retry more_to_read = absurd (omega (arith, w.0))
      go (got (b ∷ more)) q w retry more_to_read =
          rw (q, read_exactly)
            (joined k e e1 b more _ (w.1) (w.2) (w.3) (
              more_to_read more
                (omega (arith, ap length w.2, length-append {0} more (io.pending e1)))
                (omega arith)))
