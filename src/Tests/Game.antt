-- ===== src/Tests/Game.antt =====
-- The shared memory and attacks, for two players.
use world_boss_raid.Base.{ℕ, ◌+◌, ◌≡◌, refl, inr, true, some, List, [], ◌∷◌, arith, pos, ◌+ℤ◌}
use world_boss_raid.GameState.{
  GameSharedData, gamestate_init, gamestate_update_streak, find_empty, update_players,
}
use world_boss_raid.GameState.Invariant.{
  IsValid, gamestate_init-IsValid, gamestate_update_streak-IsValid,
}
use world_boss_raid.GameState.Damage.{IsOpen}
use world_boss_raid.GameState.Streak.{
  IsUsableName, record_of, HasRoom, Attempt, play, play_new-last_run,
}
use world_boss_raid.Dice.{game_process_attack}
use world_boss_raid.Dice.Outcome.{Advances, game_process_attack-Advances}
use world_boss_raid.Dice.Combo.{game_process_attack_combo, game_process_attack_loss}
use world_boss_raid.Protocol.Wire.{IsGameState}
use world_boss_raid.GameState.{empty_history}
use world_boss_raid.GameState.Streak.{CanGrow}
use world_boss_raid.Base.{All-replicate}
use world_boss_raid.Dice.{die}
use world_boss_raid.Dice.Rules.{IsVerdict, LosesDamage, game_process_attack-IsVerdict}
use world_boss_raid.Handler.Session.{attach_result}
use world_boss_raid.Handler.Session.Fits.{attack_state-IsGameState}

abbrev ann : List ℕ
ann = 97 ∷ 110 ∷ 110 ∷ []

abbrev bob : List ℕ
bob = 98 ∷ 111 ∷ 98 ∷ []

ann-IsUsableName : IsUsableName ann
ann-IsUsableName = (λ e. omega arith, omega arith)

bob-IsUsableName : IsUsableName bob
bob-IsUsableName = (λ e. omega arith, omega arith)

abbrev hits : List (ℕ × List ℕ)
hits = (400, ann) ∷ (700, bob) ∷ (5, ann) ∷ (2500, ann) ∷ []

init-HasRoom : HasRoom ann gamestate_init.players
unfolding gamestate_init find_empty
init-HasRoom = inr (λ e. cc)

abbrev won_by_ann : Attempt
won_by_ann = record { player = ann; dice = pos 6; win = true }

abbrev attempts : List Attempt
attempts = record { player = bob; dice = pos 3; win = true } ∷ won_by_ann ∷ []

play_new-last_run_example :
    record_of ann (play (won_by_ann ∷ attempts) gamestate_init.players) ≡ some (pos 6, pos 2)
unfolding gamestate_init record_of
play_new-last_run_example =
    play_new-last_run won_by_ann attempts gamestate_init.players ann-IsUsableName
      (bob-IsUsableName, (ann-IsUsableName, tt))
      (gamestate_init-IsValid.tracked, gamestate_init-IsValid.histories) init-HasRoom refl

-- Ann has won twice in a row with 20.
abbrev two_wins : GameSharedData
two_wins =
    (gamestate_update_streak (some ann) (pos 20) true
      (gamestate_update_streak (some ann) (pos 20) true gamestate_init).1).1

two_wins-IsValid : IsValid two_wins
two_wins-IsValid =
    gamestate_update_streak-IsValid (some ann) (pos 20) true
      (gamestate_update_streak (some ann) (pos 20) true gamestate_init).1
      (gamestate_update_streak-IsValid (some ann) (pos 20) true gamestate_init
        gamestate_init-IsValid)

two_wins-IsOpen : IsOpen two_wins
unfolding gamestate_init gamestate_update_streak
two_wins-IsOpen = (refl, refl)

-- `rand` counts.
abbrev counting : ℕ → ℕ × ℕ
counting r = (r, r + 1)

game_process_attack_combo_example :
    let (result, state, r', g') =
      game_process_attack counting (λ r. pos 1000) (pos 20) ann 7 two_wins in
    (result.boss_just_died ≡ true) × (result.current_streak ≡ pos 3)
unfolding gamestate_init gamestate_update_streak record_of update_players ◌+ℤ◌
game_process_attack_combo_example =
    game_process_attack_combo ann two_wins ann-IsUsableName two_wins-IsValid two_wins-IsOpen
      counting (λ r. pos 1000) 7 refl 20 2 refl (omega arith) (omega arith)

game_process_attack_loss_example :
    let (result, state, r', g') =
      game_process_attack counting (λ r. pos 1000) (pos 1) ann 7 gamestate_init in
    (result.dmg_dealt ≡ pos 0)
    × (g'.current_hp ≡ pos 1000)
    × (g'.stage ≡ gamestate_init.stage)
    × (record_of ann g'.players ≡ some (pos 1, pos 0))
unfolding gamestate_init
game_process_attack_loss_example =
    game_process_attack_loss ann gamestate_init ann-IsUsableName gamestate_init-IsValid (refl, refl)
      counting (λ r. pos 1000) 7 refl (pos 1) init-HasRoom (omega arith)

game_process_attack-Advances_example :
    let (result, state, r', g') =
      game_process_attack counting (λ r. pos 1000) (pos 20) ann 7 two_wins in
    Advances result two_wins g'
game_process_attack-Advances_example =
    game_process_attack-Advances counting (λ r. pos 1000) (pos 20) ann 7 two_wins two_wins-IsOpen

game_process_attack-IsVerdict_example :
    let (result, state, r', g') =
      game_process_attack counting (λ r. pos 1000) (pos 6) ann 7 gamestate_init in
    IsVerdict result × LosesDamage result gamestate_init g'
unfolding gamestate_init
game_process_attack-IsVerdict_example =
    game_process_attack-IsVerdict counting (λ r. pos 1000) 6 ann 7 gamestate_init (omega arith)
      (omega arith) (refl, refl)

attack_state-IsGameState_example :
    let (result, state, r', g') =
      game_process_attack counting (λ r. pos 1000) (die 5) ann 7 gamestate_init in
    IsGameState (attach_result result state)
unfolding gamestate_init
attack_state-IsGameState_example =
    attack_state-IsGameState counting (λ r. pos 1000) 5 ann 7 gamestate_init gamestate_init-IsValid
      (omega arith, omega arith)
      (All-replicate CanGrow 100 empty_history (omega arith, omega arith))
