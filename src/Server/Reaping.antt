-- ===== src/Server/Reaping.antt =====
-- The workers' ends and `sigchld_handler` of server.c: each step of the kernel and of the handler is one
-- constructor. SIGCHLD is not queued, so that one signal may stand for several ends, and it is blocked
-- while its handler runs.
use world_boss_raid.Base.{
  ℕ, zero, suc, ◌+◌, ◌<◌, ◌≡◌, refl, ◌⊎◌, inl, inr, Bool, true, false, if◌then◌else◌, arith, ℤ, pos,
  ltb_ℤ, ◌<ℤ◌, ◌≤ℤ◌,
}

-- The workers that run, those that have ended and are not waited for, whether the signal is pending and
-- whether the handler is in its loop; `forked` counts the workers ever made, `waited` those waited for.
pub record Workers : Type 0 where
  pub running : ℕ
  pub zombies : ℕ
  pub pending : Bool
  pub reaping : Bool
  pub forked : ℕ
  pub waited : ℕ

abbrev pub no_workers : Workers
no_workers = record {
  running = 0;
  zombies = 0;
  pending = false;
  reaping = false;
  forked = 0;
  waited = 0;
}

-- `waitpid(-1, NULL, WNOHANG) > 0`, the condition of the handler's loop, of what waitpid returns.
unfoldable pub goes_on : ℤ → Bool
goes_on r = ltb_ℤ (pos 0) r

-- What waitpid(-1, NULL, WNOHANG) may return, and the process table after it: the positive number of a
-- worker that has ended, which is waited for with that; or no positive number where none has ended.
pub data Waits (s : Workers) : ℤ → Workers → Type 0 where
  collected :
      (n : ℕ) (pid : ℤ)
      → pos 0 <ℤ pid
      → s.zombies ≡ suc n
      → Waits s pid (record s { zombies = n; waited = suc s.waited })
  none_ended : (r : ℤ) → r ≤ℤ pos 0 → s.zombies ≡ 0 → Waits s r s

pub data Step : Workers → Workers → Type 0 where
  fork : {s : Workers} → Step s (record s { running = suc s.running; forked = suc s.forked })
  exit :
      {s : Workers} (n : ℕ)
      → s.running ≡ suc n
      → Step s (record s { running = n; zombies = suc s.zombies; pending = true })
  deliver :
      {s : Workers}
      → s.pending ≡ true
      → s.reaping ≡ false
      → Step s (record s { pending = false; reaping = true })
  wait :
      {s t : Workers} (r : ℤ)
      → s.reaping ≡ true
      → Waits s r t
      → Step s (record t { reaping = goes_on r })

pub data Reach : Workers → Type 0 where
  start : Reach no_workers
  step : {s t : Workers} → Reach s → Step s t → Reach t

pub record Inv (s : Workers) : Type 0 where
  pub noticed : 0 < s.zombies → (s.pending ≡ true) ⊎ (s.reaping ≡ true)
  pub counted : s.running + s.zombies + s.waited ≡ s.forked

Waits-Inv : {s t : Workers} {r : ℤ} → Waits s r t → Inv s → Inv (record t { reaping = goes_on r })
unfolding goes_on
Waits-Inv (collected n pid h e) i = record {
  noticed = λ a. inr (ground (arith, h));
  counted = ground (arith, i.counted, e);
}
Waits-Inv (none_ended r h e) i = record {
  noticed = λ a. absurd (omega (arith, a, e));
  counted = i.counted;
}

Step-Inv : {s t : Workers} → Step s t → Inv s → Inv t
Step-Inv {s} fork i = record { noticed = i.noticed; counted = ground (arith, i.counted) }
Step-Inv {s} (exit n e) i = record { noticed = λ a. inl refl; counted = ground (arith, i.counted) }
Step-Inv {s} (deliver p r) i = record { noticed = λ a. inr refl; counted = i.counted }
Step-Inv {s} (wait r h w) i = Waits-Inv w i

Reach-Inv : {s : Workers} → Reach s → Inv s
Reach-Inv start = record { noticed = λ a. ground arith; counted = refl }
Reach-Inv (step r st) = Step-Inv st (Reach-Inv r)

-- In every state that the workers' ends, the signal and its handler can reach: if no signal is pending
-- and the handler is not at work, then every worker that has ended has been waited for, and those ever
-- forked are those that run and those waited for.
pub at_rest-zombies :
    (s : Workers)
    → Reach s
    → s.pending ≡ false
    → s.reaping ≡ false
    → (s.zombies ≡ 0) × (s.forked ≡ s.running + s.waited)
at_rest-zombies s r p q = (
  ground (arith, (Reach-Inv r).noticed),
  ground (arith, (Reach-Inv r).noticed, (Reach-Inv r).counted),
)

-- What waitpid(-1, NULL, WNOHANG) promises, called by the handler: a positive result waits for one worker
-- that has ended; any other says that none has ended then. Workers may end between the calls, but
-- none is forked, since it is the master itself that runs the handler. `left` counts the workers that
-- are not waited for, which run or have ended.
pub record WaitLaws {K : Type 0} (waitpid : K → ℤ × K) (left ended waited : K → ℕ) : Type 0 where
  pub collects :
      (k : K)
      → goes_on (waitpid k).0 ≡ true
      → (suc (left (waitpid k).1) ≡ left k) × (waited (waitpid k).1 ≡ suc (waited k))
  pub finds_none :
      (k : K)
      → goes_on (waitpid k).0 ≡ false
      → (ended (waitpid k).1 ≡ 0)
        × (left (waitpid k).1 ≡ left k)
        × (waited (waitpid k).1 ≡ waited k)

module _ {K : Type 0} (waitpid : K → ℤ × K) where
  -- The loop of the handler, and whether it has come to its end with this fuel.
  unfoldable pub sigchld_handler : ℕ → K → Bool × K
  sigchld_handler zero k = (false, k)
  sigchld_handler (suc fuel) k =
      let (r, k1) = waitpid k in
      let rest = sigchld_handler fuel k1 in if goes_on r then rest else (true, k1)
