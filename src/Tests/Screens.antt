-- ===== src/Tests/Screens.antt =====
-- The UI on a server that announces a lucky kill, and then the end of the game.
use world_boss_raid.Base.{ℕ, zero, suc, ◌≤◌, Option, some, none, [], ◌∷◌, pos, if◌then◌else◌}
use world_boss_raid.GameState.{no_name}
use world_boss_raid.Client.Network.{UiGameState}
use world_boss_raid.Client.Ui.{space, other, quit, ui_game_loop}
use world_boss_raid.Client.Ui.Screens.{victories, ui_game_loop-victories}

abbrev lucky_state : UiGameState
lucky_state = record {
  boss_hp = pos 2000;
  max_hp = pos 2000;
  online_count = pos 2;
  stage = 1;
  is_respawning = 0;
  is_crit = 1;
  is_lucky = 1;
  last_player_damage = pos 999999;
  last_boss_dice = pos 4;
  last_player_streak = pos 0;
  dmg_taken = pos 0;
  last_killer = no_name;
}

abbrev quiet_state : UiGameState
quiet_state = record lucky_state { is_lucky = 0; is_crit = 0 }

abbrev end_state : UiGameState
end_state = record quiet_state { boss_hp = pos 0; stage = 2 }

-- The first attack fails, the second one ends the game.
abbrev attack_cb : ℕ → Option UiGameState × ℕ
attack_cb zero = (none, 1)
attack_cb (suc n) = (some end_state, suc n)

abbrev heartbeat_cb : ℕ → Option UiGameState × ℕ
heartbeat_cb n = (some lucky_state, n)

ui_game_loop-victories_example :
    let (ui, over) =
      ui_game_loop
        (λ n. (5, n))
        attack_cb
        heartbeat_cb
        (97 ∷ [])
        (space ∷ other ∷ space ∷ other ∷ quit ∷ [])
        0 in
    victories ui.shown ≤ (if over then 1 else 0)
ui_game_loop-victories_example =
    ui_game_loop-victories (λ n. (5, n)) attack_cb heartbeat_cb (97 ∷ [])
      (space ∷ other ∷ space ∷ other ∷ quit ∷ []) 0
