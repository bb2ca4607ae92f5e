-- ===== src/Raid/Safety.antt =====
-- The order of the bosses, for every schedule of the workers.
use world_boss_raid.Base.{
  ℕ, zero, suc, ◌+◌, ◌≤◌, ◌<◌, ◌≡◌, ◌≢◌, ◌⊎◌, refl, true, false, some, List, [], ◌∷◌, arith, pos,
  get_elem?, ℕ_discrete, ap,
}
use world_boss_raid.GameState.{
  boss_stage_dead, stage_code, GameSharedData, gamestate_player_join, gamestate_player_leave,
  gamestate_apply_damage, gamestate_spawn_next_boss, gamestate_update_streak,
  gamestate_mark_lucky_kill, gamestate_clear_lucky_kill,
}
use world_boss_raid.GameState.Invariant.{IsValid}
use world_boss_raid.Raid.{
  Pc, spawning, Move, join, leave, turned_away, roll, mark, win, lose, strike, spawn, snapshot,
  heartbeat, clear, System, Step, pick, Reach, later,
}
use world_boss_raid.Raid.Invariant.{Reach-Inv, spawns, count, count-ge}

count-spawns-two :
    (ps : List Pc) (i j : ℕ)
    → get_elem? ps i ≡ some spawning
    → get_elem? ps j ≡ some spawning
    → i ≢ j
    → 2 ≤ count spawns ps
unfolding count
count-spawns-two [] i j a b ne = cc
count-spawns-two (p ∷ ps) zero zero a b ne = absurd (ne refl)
count-spawns-two (p ∷ ps) zero (suc j) a b ne = ground (arith, count-ge spawns ps j spawning b)
count-spawns-two (p ∷ ps) (suc i) zero a b ne = ground (arith, count-ge spawns ps i spawning a)
count-spawns-two (p ∷ ps) (suc i) (suc j) a b ne =
    omega (arith, count-spawns-two ps i j a b (λ e. ne (ap suc e)))

-- In a reachable state, two workers that are both about to call `gamestate_spawn_next_boss` are the
-- same.
pub one_killer :
    {n : ℕ} {s : System}
    → Reach n s
    → (i j : ℕ) → get_elem? s.workers i ≡ some spawning
    → get_elem? s.workers j ≡ some spawning
    → i ≡ j
one_killer {s} r i j a b = elim (ℕ_discrete i j) [
  | yes e ↦ e
  | no ne ↦ absurd (ground (arith, (Reach-Inv r).spawner, count-spawns-two s.workers i j a b ne))
]

-- How a call changes the stage: not at all, or to the next, full boss or the end, from a boss that
-- had fallen.
abbrev pub StageChange : GameSharedData → GameSharedData → Type 0
StageChange m m' =
    ((stage_code m'.stage ≡ stage_code m.stage) × (m'.max_hp ≡ m.max_hp))
    ⊎ ((stage_code m'.stage ≡ stage_code m.stage + 1)
        × (m.current_hp ≡ pos 0)
        × (m.is_respawning ≡ true)
        × (m'.is_respawning ≡ false)
        × ((m'.current_hp ≡ m'.max_hp) ⊎ (m'.stage ≡ boss_stage_dead)))

Move-StageChange :
    {m m' : GameSharedData} {p q : Pc}
    → Move m p m' q
    → (0 < spawns p → m.is_respawning ≡ true)
    → IsValid m
    → StageChange m m'
unfolding gamestate_player_join gamestate_player_leave gamestate_apply_damage
    gamestate_spawn_next_boss gamestate_update_streak gamestate_mark_lucky_kill
    gamestate_clear_lucky_kill
Move-StageChange join b v = ground arith
Move-StageChange leave b v = ground arith
Move-StageChange (turned_away c) b v = ground arith
Move-StageChange (roll name dice x l c) b v = ground arith
Move-StageChange (mark now) b v = ground arith
Move-StageChange win b v = ground arith
Move-StageChange lose b v = ground arith
Move-StageChange strike b v = ground arith
Move-StageChange {m} spawn b v =
    let h : m.is_respawning ≡ true = b (omega arith) in ground (arith, h, v.hp)
Move-StageChange snapshot b v = ground arith
Move-StageChange (heartbeat now) b v = ground arith
Move-StageChange clear b v = ground arith

-- In every step from a reachable state the stage and the maximum stay, or a boss that is at zero hit
-- points with `is_respawning` set gives way to the next stage, with `is_respawning` cleared and either
-- full hit points or the game over.
pub Step-StageChange : {n : ℕ} {s t : System} → Reach n s → Step s t → StageChange s.mem t.mem
Step-StageChange {s} r (pick i {p} e mv) =
    let inv = Reach-Inv r in
    Move-StageChange mv (λ h. ground (arith, inv.spawner, count-ge spawns s.workers i p e))
      inv.valid

-- A run of further steps.
pub data Run (s : System) : System → Type 0 where
  here : Run s s
  next : {t u : System} → Run s t → Step t u → Run s u

Run-Reach : {n : ℕ} {s t : System} → Reach n s → Run s t → Reach n t
Run-Reach r here = r
Run-Reach r (next run st) = later (Run-Reach r run) st

-- In every run from a reachable state the stage never goes back.
pub Run-stage_code :
    {n : ℕ} {s t : System} → Reach n s → Run s t → stage_code s.mem.stage ≤ stage_code t.mem.stage
Run-stage_code r here = omega arith
Run-stage_code r (next run st) =
    ground (arith, Run-stage_code r run, Step-StageChange (Run-Reach r run) st)

pub find_spawner : (ps : List Pc) → count spawns ps ≡ 1 → (i : ℕ) × (get_elem? ps i ≡ some spawning)
unfolding count
find_spawner [] h = absurd (omega arith)
find_spawner (spawning ∷ ps) h = (0, refl)
find_spawner (p ∷ ps) h = let (i, e) = find_spawner ps (omega arith) in (suc i, e)

-- In every reachable state with `is_respawning` set, some step clears it.
pub respawn_ends :
    {n : ℕ} {s : System}
    → Reach n s
    → s.mem.is_respawning ≡ true
    → (t : System) × Step s t × (t.mem.is_respawning ≡ false)
unfolding gamestate_spawn_next_boss
respawn_ends {s} r h =
    let (i, e) = find_spawner s.workers (ground (arith, (Reach-Inv r).spawner)) in
    (_, pick i e spawn, refl)
