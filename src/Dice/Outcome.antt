-- ===== src/Dice/Outcome.antt =====
-- What an attack returns and what it does to the raid, on each of its branches.
use world_boss_raid.Base.{
  ℕ, ◌+◌, ◌%◌, ◌≡◌, inl, inr, refl, Bool, true, false, some, List, arith, ℤ, pos, ◌-ℤ◌, ◌*ℤ◌, ◌≤ℤ◌,
  ◌<ℤ◌, -ℤ_parts, ltb_ℤ, leb_ℤ, ◌==◌, if◌then◌else◌, Bool-cases,
}
use world_boss_raid.GameState.{
  BossStage, boss_stage_1, boss_stage_2, boss_stage_dead, stage_code, GameSharedData,
  gamestate_apply_damage, gamestate_spawn_next_boss, gamestate_update_streak,
  gamestate_mark_lucky_kill,
}
use world_boss_raid.GameState.Invariant.{
  IsValid, HpFits, gamestate_apply_damage-IsValid, gamestate_spawn_next_boss-IsValid,
  gamestate_update_streak-IsValid, gamestate_mark_lucky_kill-IsValid,
}
use world_boss_raid.GameState.Damage.{IsOpen}
use world_boss_raid.Dice.{
  AttackResult, instant_kill_damage, die, deal, lucky_result, win_result, loss_result, resolve,
  game_process_attack,
}

pub deal-IsValid :
    (name : List ℕ) (result : AttackResult) (g : GameSharedData)
    → pos 0 ≤ℤ result.dmg_dealt
    → IsValid g
    → IsValid (deal name result g).1
unfolding deal
deal-IsValid name result g d v =
    let w = gamestate_apply_damage-IsValid result.dmg_dealt (some name) g d v in
    ground (
      arith,
      w,
      gamestate_spawn_next_boss-IsValid (gamestate_apply_damage result.dmg_dealt (some name) g).1 w,
    )

-- A win deals something.
pub win_result-damage :
    (dice boss streak : ℤ)
    → boss <ℤ dice
    → pos 0 ≤ℤ boss
    → pos 0 ≤ℤ (win_result dice boss streak).dmg_dealt
unfolding win_result ◌*ℤ◌
win_result-damage dice boss streak h k = ground arith

pub resolve-IsValid :
    (dice : ℤ) (name : List ℕ) (now boss : ℤ) (lucky : Bool) (g : GameSharedData)
    → pos 0 ≤ℤ boss
    → IsValid g
    → IsValid (resolve dice name now boss lucky g).1
unfolding resolve
resolve-IsValid dice name now boss true g b v =
    deal-IsValid name (lucky_result boss) _ (omega arith)
      (gamestate_mark_lucky_kill-IsValid now g v)
resolve-IsValid dice name now boss false g b v = elim (Bool-cases (ltb_ℤ boss dice)) [
  | inl e ↦ rw e (
      deal-IsValid name _ _ (win_result-damage dice boss _ (ground arith) b)
        (gamestate_update_streak-IsValid (some name) dice true g v))
  | inr e ↦ rw e (gamestate_update_streak-IsValid (some name) dice false g v)
]

-- The stage and the flag of the state after a hit, against those before.
abbrev pub Advances : AttackResult → GameSharedData → GameSharedData → Type 0
Advances result g g' =
    (g'.is_respawning ≡ false)
    × (stage_code g'.stage ≡ stage_code g.stage + (if result.boss_just_died then 1 else 0))

deal-Advances :
    (name : List ℕ) (result : AttackResult) (g : GameSharedData)
    → IsOpen g
    → result.boss_just_died ≡ false
    → let (result', g') = deal name result g in Advances result' g g'
unfolding deal gamestate_apply_damage gamestate_spawn_next_boss
deal-Advances name result g o b = ground arith

hp-le :
    (stage : BossStage) (respawning : Bool) (hp : ℤ) → HpFits stage respawning hp → hp ≤ℤ pos 2000
hp-le boss_stage_1 true hp h = ground arith
hp-le boss_stage_1 false hp h = omega arith
hp-le boss_stage_2 true hp h = ground arith
hp-le boss_stage_2 false hp h = h.1
hp-le boss_stage_dead true hp h = absurd h
hp-le boss_stage_dead false hp h = ground arith

leb_of_overkill : (hp damage : ℤ) → hp ≤ℤ damage → leb_ℤ (hp -ℤ damage) (pos 0) ≡ true
leb_of_overkill hp damage h = ground (arith, -ℤ_parts hp damage)

deal_overkill :
    (name : List ℕ) (result : AttackResult) (g : GameSharedData)
    → IsOpen g
    → leb_ℤ (g.current_hp -ℤ result.dmg_dealt) (pos 0) ≡ true
    → (deal name result g).0.boss_just_died ≡ true
unfolding deal gamestate_apply_damage
deal_overkill name result g o h = ground arith

-- More damage than any boss has hit points kills.
pub deal_instant_kill :
    (name : List ℕ) (result : AttackResult) (g : GameSharedData)
    → IsValid g
    → IsOpen g
    → result.dmg_dealt ≡ instant_kill_damage
    → (deal name result g).0.boss_just_died ≡ true
deal_instant_kill name result g v o d =
    let low = hp-le g.stage g.is_respawning g.current_hp v.hp in
    deal_overkill name result g o
      (rw d (leb_of_overkill g.current_hp instant_kill_damage (omega arith)))

resolve-Advances :
    (dice : ℤ) (name : List ℕ) (now boss : ℤ) (lucky : Bool) (g : GameSharedData)
    → IsOpen g
    → let (result, g') = resolve dice name now boss lucky g in Advances result g g'
unfolding resolve gamestate_mark_lucky_kill gamestate_update_streak win_result loss_result
resolve-Advances dice name now boss true g o = deal-Advances name (lucky_result boss) _ o refl
resolve-Advances dice name now boss false g o = elim (Bool-cases (ltb_ℤ boss dice)) [
  | inl e ↦ rw e (deal-Advances name _ _ o (ground arith))
  | inr e ↦ rw e (ground arith)
]

module _ {R : Type 0} (rand : R → ℕ × R) (clock : R → ℤ) (dice : ℤ) (name : List ℕ) (r : R)
    (g : GameSharedData) where
  -- An attack keeps the shared memory well formed, whatever `rand` and the clock return.
  pub game_process_attack-IsValid :
      IsValid g → IsValid (game_process_attack rand clock dice name r g).3
  unfolding game_process_attack
  game_process_attack-IsValid v = ground (
    arith,
    resolve-IsValid dice name (clock (rand (rand r).1).1) (die (rand r).0)
        ((rand (rand r).1).0 % 1000000 == 0) g (omega arith) v,
  )

  -- With the boss standing, an attack ends with `is_respawning` clear, and with the stage one further
  -- if it reports that the boss just died and the same if not.
  pub game_process_attack-Advances :
      IsOpen g
      → Advances
          (game_process_attack rand clock dice name r g).0
          g
          (game_process_attack rand clock dice name r g).3
  unfolding game_process_attack
  game_process_attack-Advances o = ground (
    arith,
    resolve-Advances dice name (clock (rand (rand r).1).1) (die (rand r).0)
        ((rand (rand r).1).0 % 1000000 == 0) g o,
  )
