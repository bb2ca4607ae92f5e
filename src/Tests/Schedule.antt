-- ===== src/Tests/Schedule.antt =====
-- A schedule of two workers in which the first one kills the boss by a lucky hit.
use world_boss_raid.Base.{ℕ, ◌+◌, ◌≡◌, refl, true, false, List, [], ◌∷◌, pos, some, ◌-ℤ◌}
use world_boss_raid.GameState.{
  GameSharedData, gamestate_init, gamestate_player_join, gamestate_apply_damage,
  gamestate_spawn_next_boss, gamestate_mark_lucky_kill,
}
use world_boss_raid.Dice.{game_process_attack, lucky_result}
use world_boss_raid.Raid.{
  away, playing, spawning, join, roll, mark, strike, spawn, System, Step, pick, Reach, start, later,
}
use world_boss_raid.Raid.Invariant.{Inv, Reach-Inv}
use world_boss_raid.Raid.Safety.{one_killer, StageChange, Step-StageChange}
use world_boss_raid.Raid.Solo.{Attack, game_process_attack-Attack}
use world_boss_raid.Raid.Respawn.{StepOf, Awaits, Reach-Awaits}
use world_boss_raid.Base.{get_elem?}

abbrev ann : List ℕ
ann = 97 ∷ 110 ∷ 110 ∷ []

abbrev with_ann : GameSharedData
with_ann = (gamestate_player_join gamestate_init).1

abbrev marked : GameSharedData
marked = gamestate_mark_lucky_kill (pos 1000) with_ann

-- The boss has fallen, and the next one is not there yet.
abbrev fallen : System
fallen = record {
  mem = (gamestate_apply_damage (lucky_result (pos 4)).dmg_dealt (some ann) marked).1;
  workers = spawning ∷ away ∷ [];
}

fallen-Reach : Reach 2 fallen
unfolding gamestate_init gamestate_player_join gamestate_mark_lucky_kill gamestate_apply_damage ◌-ℤ◌
fallen-Reach =
    later
      (later (later (later start (pick 0 refl join)) (pick 0 refl (roll ann (pos 5) 3 true refl)))
        (pick 0 refl (mark (pos 1000))))
      (pick 0 refl strike)

Reach-Inv_example : Inv fallen
Reach-Inv_example = Reach-Inv fallen-Reach

one_killer_example : ◌≡◌ {A = ℕ} 0 0
one_killer_example = one_killer fallen-Reach 0 0 refl refl

Step-StageChange_example : StageChange fallen.mem (gamestate_spawn_next_boss fallen.mem)
Step-StageChange_example = Step-StageChange fallen-Reach (pick 0 refl spawn)

game_process_attack-Attack_example :
    Attack ann
      (pos 20)
      7
      false
      (pos 1000)
      gamestate_init
      (game_process_attack (λ r. (r, r + 1)) (λ r. pos 1000) (pos 20) ann 7 gamestate_init).3
      playing
game_process_attack-Attack_example =
    game_process_attack-Attack (λ r. (r, r + 1)) (λ r. pos 1000) (pos 20) ann 7 gamestate_init

Reach-Awaits_example :
    (i : ℕ) × (get_elem? fallen.workers i ≡ some spawning)
    × ((t : System) × StepOf i fallen t)
    × ((t : System) → StepOf i fallen t → t.mem.is_respawning ≡ false)
    × ((t : System) → Step fallen t → Awaits i fallen t)
unfolding gamestate_init gamestate_player_join gamestate_mark_lucky_kill gamestate_apply_damage ◌-ℤ◌
Reach-Awaits_example = Reach-Awaits fallen-Reach refl
