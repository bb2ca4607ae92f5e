-- ===== src/Raid/Respawn.antt =====
-- The time between a kill and the next boss, and the event of a lucky kill, for every schedule of the
-- workers.
use world_boss_raid.Base.{
  ℕ, zero, suc, ◌≡◌, ◌≢◌, ◌⊎◌, inl, inr, refl, sym, ap, ◌∙◌, true, false, some, List, [], ◌∷◌,
  arith, ℤ, get_elem?, set, ℕ_discrete,
}
use world_boss_raid.GameState.{
  GameSharedData, gamestate_player_join, gamestate_player_leave, gamestate_apply_damage,
  gamestate_spawn_next_boss, gamestate_update_streak, gamestate_mark_lucky_kill,
  gamestate_clear_lucky_kill,
}
use world_boss_raid.Dice.{lucky_result}
use world_boss_raid.Raid.{
  Pc, playing, lucky, striking, spawning, clearing, Move, join, leave, turned_away, roll, mark, win,
  lose, strike, spawn, snapshot, heartbeat, clear, System, Step, pick, Reach,
}
use world_boss_raid.Raid.Invariant.{Reach-Inv, spawns}
use world_boss_raid.Raid.Safety.{Run, here, next, find_spawner}

get_elem?-set :
    (ps : List Pc) (i j : ℕ) (q : Pc) → i ≢ j → get_elem? (set ps j q) i ≡ get_elem? ps i
get_elem?-set [] i j q ne = refl
get_elem?-set (p ∷ ps) zero zero q ne = absurd (ne refl)
get_elem?-set (p ∷ ps) zero (suc j) q ne = refl
get_elem?-set (p ∷ ps) (suc i) zero q ne = refl
get_elem?-set (p ∷ ps) (suc i) (suc j) q ne = get_elem?-set ps i j q (λ e. ne (ap suc e))

get_elem?-set_self :
    (ps : List Pc) (j : ℕ) {p : Pc} (q : Pc)
    → get_elem? ps j ≡ some p
    → get_elem? (set ps j q) j ≡ some q
get_elem?-set_self [] j q e = cc
get_elem?-set_self (p ∷ ps) zero q e = refl
get_elem?-set_self (p ∷ ps) (suc j) q e = get_elem?-set_self ps j q e

-- A call while the next boss is awaited: it brings the next boss, or it leaves the boss as it is.
Move-awaits :
    {m m' : GameSharedData} {p q : Pc}
    → Move m p m' q
    → m.is_respawning ≡ true
    → (m'.is_respawning ≡ false)
      ⊎ ((spawns p ≡ 0)
          × (m'.is_respawning ≡ true)
          × (m'.current_hp ≡ m.current_hp)
          × (m'.stage ≡ m.stage))
unfolding gamestate_player_join gamestate_player_leave gamestate_apply_damage
    gamestate_spawn_next_boss gamestate_update_streak gamestate_mark_lucky_kill
    gamestate_clear_lucky_kill
Move-awaits join h = inr (refl, h, refl, refl)
Move-awaits leave h = inr (refl, ground arith, ground arith, ground arith)
Move-awaits (turned_away c) h = inr (refl, h, refl, refl)
Move-awaits (roll name dice x l c) h = inr (refl, h, refl, refl)
Move-awaits (mark now) h = inr (refl, h, refl, refl)
Move-awaits win h = inr (refl, h, refl, refl)
Move-awaits lose h = inr (refl, h, refl, refl)
Move-awaits strike h = inr (refl, ground arith, ground arith, ground arith)
Move-awaits spawn h = inl refl
Move-awaits snapshot h = inr (refl, h, refl, refl)
Move-awaits (heartbeat now) h = inr (refl, h, refl, refl)
Move-awaits clear h = inr (refl, h, refl, refl)

-- A step from `s` to `t` that brings the next boss, or that leaves the boss as it is and worker `i`
-- about to bring it.
abbrev pub Awaits : ℕ → System → System → Type 0
Awaits i s t =
    (t.mem.is_respawning ≡ false)
    ⊎ ((t.mem.is_respawning ≡ true)
        × (t.mem.current_hp ≡ s.mem.current_hp)
        × (t.mem.stage ≡ s.mem.stage)
        × (get_elem? t.workers i ≡ some spawning))

Step-Awaits :
    {s t : System} (i : ℕ)
    → get_elem? s.workers i ≡ some spawning
    → s.mem.is_respawning ≡ true
    → Step s t
    → Awaits i s t
Step-Awaits {s} i at h (pick j {p} {q} e mv) = elim (Move-awaits mv h) [
  | inl done ↦ inl done
  | inr (idle, r, hp, stage) ↦ elim (ℕ_discrete i j) [
    | yes same ↦ absurd (ground (arith, idle, at, e, same))
    | no ne ↦ inr (r, hp, stage, get_elem?-set s.workers i j q ne ∙ at)
  ]
]

-- The next call of worker `i`.
pub data StepOf (i : ℕ) (s : System) : System → Type 0 where
  call :
      {p q : Pc} {m : GameSharedData}
      → get_elem? s.workers i ≡ some p
      → Move s.mem p m q
      → StepOf i s (record { mem = m; workers = set s.workers i q })

-- A worker that is about to bring the next boss clears the flag.
Move-spawning :
    {m m' : GameSharedData} {p q : Pc} → Move m p m' q → spawns p ≡ 1 → m'.is_respawning ≡ false
unfolding gamestate_spawn_next_boss
Move-spawning join e = absurd (omega (arith, e))
Move-spawning leave e = absurd (omega (arith, e))
Move-spawning (turned_away c) e = absurd (omega (arith, e))
Move-spawning (roll name dice x l c) e = absurd (omega (arith, e))
Move-spawning (mark now) e = absurd (omega (arith, e))
Move-spawning win e = absurd (omega (arith, e))
Move-spawning lose e = absurd (omega (arith, e))
Move-spawning strike e = absurd (omega (arith, e))
Move-spawning spawn e = refl
Move-spawning snapshot e = absurd (omega (arith, e))
Move-spawning (heartbeat now) e = absurd (omega (arith, e))
Move-spawning clear e = absurd (omega (arith, e))

StepOf-clears :
    {s t : System} (i : ℕ)
    → get_elem? s.workers i ≡ some spawning
    → StepOf i s t
    → t.mem.is_respawning ≡ false
StepOf-clears {s} i at (call {p} e mv) = Move-spawning mv (ground (arith, at, e))

-- In every reachable state with `is_respawning` set there is a worker that is about to bring the
-- next boss and can make its call; every call that this worker can make next clears the flag, and
-- every step of any worker clears it or leaves the flag, the hit points, the stage and this worker
-- as they are.
pub Reach-Awaits :
    {n : ℕ} {s : System}
    → Reach n s
    → s.mem.is_respawning ≡ true
    → (i : ℕ) × (get_elem? s.workers i ≡ some spawning)
      × ((t : System) × StepOf i s t)
      × ((t : System) → StepOf i s t → t.mem.is_respawning ≡ false)
      × ((t : System) → Step s t → Awaits i s t)
Reach-Awaits {s} r h =
    let (i, e) = find_spawner s.workers (ground (arith, (Reach-Inv r).spawner)) in
    (i, e, (_, call e spawn), λ t st. StepOf-clears i e st, λ t st. Step-Awaits i e h st)

-- A worker with an old event at hand that it is about to clear, and another one that is about to mark a
-- lucky kill, in any state: the new event can be marked at any time and then be cleared, before its
-- hit and before anyone has seen it.
pub lost_event :
    {s : System} (i j : ℕ) (name : List ℕ) (boss now : ℤ)
    → i ≢ j
    → get_elem? s.workers i ≡ some clearing
    → get_elem? s.workers j ≡ some (lucky name boss)
    → (t : System) × Run s t
      × (get_elem? t.workers j ≡ some (striking name (lucky_result boss).dmg_dealt))
      × (t.mem.has_lucky_kill_event ≡ false)
unfolding gamestate_mark_lucky_kill gamestate_clear_lucky_kill
lost_event {s} i j name boss now ne a b =
    let q = striking name (lucky_result boss).dmg_dealt in
    let a' = get_elem?-set s.workers i j q ne ∙ a in
    (
      _,
      next (next here (pick j b (mark now))) (pick i a' clear),
      get_elem?-set (set s.workers j q) j i playing (λ e. ne (sym e))
          ∙ get_elem?-set_self s.workers j q b,
      refl,
    )
