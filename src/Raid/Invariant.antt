-- ===== src/Raid/Invariant.antt =====
-- What holds in every state that the workers can reach.
use world_boss_raid.Base.{
  ℕ, zero, suc, ◌+◌, ◌≤◌, ◌<◌, ◌≡◌, refl, sym, ap, Bool, true, false, some, List, [], ◌∷◌, arith, ℤ,
  pos, ◌+ℤ◌, ◌-ℤ◌, ◌≤ℤ◌, ◌<ℤ◌, int_laws, ltb_ℤ, if◌then◌else◌, get_elem?, set, replicate, All,
  All-set, All-replicate, Bool-cases, inl, inr,
}
use world_boss_raid.GameState.{
  GameSharedData, gamestate_init, gamestate_player_join, gamestate_player_leave,
  gamestate_apply_damage, gamestate_spawn_next_boss, gamestate_update_streak,
  gamestate_mark_lucky_kill, gamestate_clear_lucky_kill,
}
use world_boss_raid.GameState.Invariant.{
  IsValid, gamestate_init-IsValid, gamestate_player_join-IsValid, gamestate_player_leave-IsValid,
  gamestate_apply_damage-IsValid, gamestate_spawn_next_boss-IsValid,
  gamestate_update_streak-IsValid, gamestate_mark_lucky_kill-IsValid,
  gamestate_clear_lucky_kill-IsValid,
}
use world_boss_raid.Dice.{die}
use world_boss_raid.Dice.Outcome.{win_result-damage}
use world_boss_raid.Raid.{
  Pc, away, winning, striking, spawning, after_strike, after_heartbeat, Move, join, leave,
  turned_away, roll, mark, win, lose, strike, spawn, snapshot, heartbeat, clear, System, Step, pick,
  start_of, Reach, start, later,
}

-- A worker that has joined and not left.
abbrev pub joined : Pc → ℕ
joined away = 0
joined _ = 1

-- A worker that has killed a boss and not yet called for the next.
abbrev pub spawns : Pc → ℕ
spawns spawning = 1
spawns _ = 0

-- What the local variables of a worker guarantee.
abbrev pub IsSafe : Pc → Type 0
IsSafe (winning name dice boss) = (boss <ℤ dice) × (pos 0 ≤ℤ boss)
IsSafe (striking name damage) = pos 0 ≤ℤ damage
IsSafe _ = Unit

-- The sum of a weight over the workers.
unfoldable pub count : (Pc → ℕ) → List Pc → ℕ
count w [] = 0
count w (p ∷ ps) = w p + count w ps

pub count-set :
    (w : Pc → ℕ) (ps : List Pc) (i : ℕ) (p q : Pc)
    → get_elem? ps i ≡ some p
    → count w (set ps i q) + w p ≡ count w ps + w q
unfolding count
count-set w [] i p q e = cc
count-set w (r ∷ ps) zero p q e = ground arith
count-set w (r ∷ ps) (suc i) p q e = omega (arith, count-set w ps i p q e)

count-replicate : (w : Pc → ℕ) (n : ℕ) → w away ≡ 0 → count w (replicate n away) ≡ 0
unfolding count
count-replicate w zero e = refl
count-replicate w (suc n) e = omega (arith, count-replicate w n e)

All-get_elem? : (ps : List Pc) (i : ℕ) (p : Pc) → All IsSafe ps → get_elem? ps i ≡ some p → IsSafe p
All-get_elem? [] i p h e = cc
All-get_elem? (r ∷ ps) zero p h e = ground arith
All-get_elem? (r ∷ ps) (suc i) p h e = All-get_elem? ps i p h.1 e

pub record Inv (s : System) : Type 0 where
  pub valid : IsValid s.mem
  pub safe : All IsSafe s.workers
  pub online : s.mem.online_count ≡ pos (count joined s.workers)
  pub spawner : count spawns s.workers ≡ (if s.mem.is_respawning then 1 else 0)

after_strike-IsSafe : (killed : Bool) → IsSafe (after_strike killed)
after_strike-IsSafe true = tt
after_strike-IsSafe false = tt

after_heartbeat-IsSafe : (now : ℤ) (m : GameSharedData) → IsSafe (after_heartbeat now m)
after_heartbeat-IsSafe now m = ground arith

pub Move-IsValid :
    {m m' : GameSharedData} {p q : Pc}
    → Move m p m' q
    → IsSafe p
    → IsValid m
    → IsValid m' × IsSafe q
Move-IsValid {m} join s v = (gamestate_player_join-IsValid m v, tt)
Move-IsValid {m} leave s v = (gamestate_player_leave-IsValid m v, tt)
Move-IsValid (turned_away c) s v = (v, tt)
Move-IsValid (roll name dice x true c) s v = (v, tt)
Move-IsValid (roll name dice x false c) s v = elim (Bool-cases (ltb_ℤ (die x) dice)) [
  | inl e ↦ (v, rw e (ground arith))
  | inr e ↦ (v, rw e tt)
]
Move-IsValid {m} (mark now) s v = (gamestate_mark_lucky_kill-IsValid now m v, omega arith)
Move-IsValid {m} (win {name} {dice} {boss}) s v = (
  gamestate_update_streak-IsValid (some name) dice true m v,
  win_result-damage dice boss _ s.0 s.1,
)
Move-IsValid {m} (lose {name} {dice}) s v =
    (gamestate_update_streak-IsValid (some name) dice false m v, tt)
Move-IsValid {m} (strike {name} {damage}) s v = (
  gamestate_apply_damage-IsValid damage (some name) m s v,
  after_strike-IsSafe (gamestate_apply_damage damage (some name) m).0,
)
Move-IsValid {m} spawn s v = (gamestate_spawn_next_boss-IsValid m v, tt)
Move-IsValid snapshot s v = (v, tt)
Move-IsValid {m} (heartbeat now) s v = (v, after_heartbeat-IsSafe now m)
Move-IsValid {m} clear s v = (gamestate_clear_lucky_kill-IsValid m v, tt)

-- The counts of one worker, before and after its call.
Move-counts :
    {m m' : GameSharedData} {p q : Pc}
    → Move m p m' q
    → pos 0 ≤ℤ m.online_count
    → (0 < joined p → pos 1 ≤ℤ m.online_count)
    → (spawns p ≤ (if m.is_respawning then 1 else 0))
    → (m'.online_count +ℤ pos (joined p) ≡ m.online_count +ℤ pos (joined q))
      × ((if m'.is_respawning then 1 else 0) + spawns p
          ≡ (if m.is_respawning then 1 else 0) + spawns q)
unfolding ◌+ℤ◌ ◌-ℤ◌ gamestate_player_join gamestate_player_leave gamestate_apply_damage
    gamestate_spawn_next_boss gamestate_update_streak gamestate_mark_lucky_kill
    gamestate_clear_lucky_kill
Move-counts join o j k = ground arith
Move-counts leave o j k = ground arith
Move-counts (turned_away c) o j k = ground arith
Move-counts (roll name dice x l c) o j k = ground arith
Move-counts (mark now) o j k = ground arith
Move-counts win o j k = ground arith
Move-counts lose o j k = ground arith
Move-counts strike o j k = ground arith
Move-counts spawn o j k = ground arith
Move-counts snapshot o j k = ground arith
Move-counts (heartbeat now) o j k = ground arith
Move-counts clear o j k = ground arith

pub count-ge :
    (w : Pc → ℕ) (ps : List Pc) (i : ℕ) (p : Pc) → get_elem? ps i ≡ some p → w p ≤ count w ps
unfolding count
count-ge w [] i p e = cc
count-ge w (r ∷ ps) zero p e = ground arith
count-ge w (r ∷ ps) (suc i) p e = omega (arith, count-ge w ps i p e)

Step-Inv : {s t : System} → Step s t → Inv s → Inv t
Step-Inv {s} (pick i {p} {q} {m} e mv) inv =
    let safe = All-get_elem? s.workers i p inv.safe e in
    let (valid, kept) = Move-IsValid mv safe inv.valid in
    let present = count-ge joined s.workers i p e in
    let busy = count-ge spawns s.workers i p e in
    let (on, sp) =
      Move-counts mv inv.valid.online (λ h. ground (arith, inv.online, present))
        (ground (arith, inv.spawner, busy)) in
    record {
      valid = valid;
      safe = All-set IsSafe s.workers i q inv.safe kept;
      online =
          online_of_parts m s.mem (count joined s.workers) (joined p) (joined q)
            (count joined (set s.workers i q)) inv.online on (count-set joined s.workers i p q e);
      spawner = ground (arith, sp, inv.spawner, count-set spawns s.workers i p q e);
    }
  where
    online_of_parts :
        (m' m : GameSharedData) (c a b d : ℕ)
        → m.online_count ≡ pos c
        → m'.online_count +ℤ pos a ≡ m.online_count +ℤ pos b
        → d + a ≡ c + b
        → m'.online_count ≡ pos d
    online_of_parts m' m c a b d h k e = grind int_laws

start_of-Inv : (n : ℕ) → Inv (start_of n)
unfolding gamestate_init
start_of-Inv n = record {
  valid = gamestate_init-IsValid;
  safe = All-replicate IsSafe n away tt;
  online = ap pos (sym (count-replicate joined n refl));
  spawner = count-replicate spawns n refl;
}

-- In every state that the workers can reach: the shared memory is well formed, a pending hit has no
-- negative damage and a pending win a dice above a boss dice that is not negative, `online_count` is
-- the number of workers that have joined and not left, and the number of workers about to call
-- `gamestate_spawn_next_boss` is one if `is_respawning` is set and zero if not.
pub Reach-Inv : {n : ℕ} {s : System} → Reach n s → Inv s
Reach-Inv {n} start = start_of-Inv n
Reach-Inv (later r st) = Step-Inv st (Reach-Inv r)
