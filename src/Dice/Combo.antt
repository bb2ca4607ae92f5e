-- ===== src/Dice/Combo.antt =====
-- Attacks and streaks.
use world_boss_raid.Base.{
  ℕ, ◌+◌, ◌≤◌, ◌%◌, ◌≡◌, inl, ◌∙◌, true, false, some, List, arith, ℤ, pos, ◌+ℤ◌, ◌≤ℤ◌, ◌<ℤ◌, ltb_ℤ,
  ◌==◌,
}
use world_boss_raid.GameState.{
  GameSharedData, gamestate_apply_damage, gamestate_spawn_next_boss, gamestate_update_streak,
  update_players,
}
use world_boss_raid.GameState.Invariant.{IsValid, gamestate_update_streak-IsValid}
use world_boss_raid.GameState.Damage.{IsOpen}
use world_boss_raid.GameState.Streak.{IsUsableName, record_of, HasRoom, update_players_self}
use world_boss_raid.Dice.{
  AttackResult, instant_kill_damage, die, deal, win_result, loss_result, resolve,
  game_process_attack,
}
use world_boss_raid.Dice.Outcome.{deal_instant_kill}

-- The hit changes neither the streak nor the table.
deal-rest :
    (name : List ℕ) (result : AttackResult) (g : GameSharedData)
    → ((deal name result g).0.current_streak ≡ result.current_streak)
      × ((deal name result g).1.players ≡ g.players)
unfolding deal gamestate_apply_damage gamestate_spawn_next_boss
deal-rest name result g = ground arith

combo_result :
    (dice boss streak : ℤ)
    → pos 3 ≤ℤ streak
    → ((win_result dice boss streak).dmg_dealt ≡ instant_kill_damage)
      × ((win_result dice boss streak).current_streak ≡ streak)
unfolding win_result
combo_result dice boss streak h = ground arith

module _ (name : List ℕ) (g : GameSharedData) (usable : IsUsableName name) (valid : IsValid g)
    (open_boss : IsOpen g) where
  resolve_combo :
      (now boss : ℤ) (d s : ℕ)
      → record_of name g.players ≡ some (pos d, pos s)
      → 2 ≤ s
      → boss <ℤ pos d
      → let (result, g') = resolve (pos d) name now boss false g in
        (result.boss_just_died ≡ true) × (result.current_streak ≡ pos (s + 1))
  unfolding resolve gamestate_update_streak ◌+ℤ◌
  resolve_combo now boss d s e two win =
      let (self, streak) =
        update_players_self name (pos d) true g.players usable (valid.tracked, valid.histories)
          (inl (ground (arith, e))) in
      let k : (update_players name (pos d) true g.players).0 ≡ pos (s + 1) =
        ground (arith, e, streak) in
      let r = win_result (pos d) boss (update_players name (pos d) true g.players).0 in
      let (big, same) =
        combo_result (pos d) boss (update_players name (pos d) true g.players).0
          (rw k (omega arith)) in
      let w : ltb_ℤ boss (pos d) ≡ true = ground arith in
      let g1 = (gamestate_update_streak (some name) (pos d) true g).1 in
      rw w (
        deal_instant_kill name r g1
            (gamestate_update_streak-IsValid (some name) (pos d) true g valid) open_boss big,
        (deal-rest name r g1).0 ∙ same ∙ k,
      )

  resolve_loss :
      (now boss dice : ℤ)
      → HasRoom name g.players
      → dice ≤ℤ boss
      → let (result, g') = resolve dice name now boss false g in
        (result.dmg_dealt ≡ pos 0)
        × (g'.current_hp ≡ g.current_hp)
        × (g'.stage ≡ g.stage)
        × (record_of name g'.players ≡ some (dice, pos 0))
  unfolding resolve gamestate_update_streak loss_result
  resolve_loss now boss dice room lost =
      let (self, streak) =
        update_players_self name dice false g.players usable (valid.tracked, valid.histories)
          room in
      ground arith

  module _ {R : Type 0} (rand : R → ℕ × R) (clock : R → ℤ) (r : R)
      (not_lucky : ((rand (rand r).1).0 % 1000000 == 0) ≡ false) where
    -- A usable name in a well-formed state with the boss standing, whose record has this dice and a
    -- streak of two or more: an attack that wins and is not lucky kills the boss, and returns a streak
    -- that is one longer.
    pub game_process_attack_combo :
        (d s : ℕ)
        → record_of name g.players ≡ some (pos d, pos s)
        → 2 ≤ s
        → die (rand r).0 <ℤ pos d
        → let (result, state, r', g') = game_process_attack rand clock (pos d) name r g in
          (result.boss_just_died ≡ true) × (result.current_streak ≡ pos (s + 1))
    unfolding game_process_attack
    game_process_attack_combo d s e two win =
        simp (open_boss.0, open_boss.1, not_lucky)
          (resolve_combo (clock (rand (rand r).1).1) (die (rand r).0) d s e two win)

    -- A usable name that has room in a well-formed state with the boss standing: an attack that is
    -- lost or drawn and is not lucky deals no damage, leaves the hit points and the stage as they
    -- are, and sets the player's record to this dice and a streak of zero.
    pub game_process_attack_loss :
        (dice : ℤ)
        → HasRoom name g.players
        → dice ≤ℤ die (rand r).0
        → let (result, state, r', g') = game_process_attack rand clock dice name r g in
          (result.dmg_dealt ≡ pos 0)
          × (g'.current_hp ≡ g.current_hp)
          × (g'.stage ≡ g.stage)
          × (record_of name g'.players ≡ some (dice, pos 0))
    unfolding game_process_attack
    game_process_attack_loss dice room lost =
        simp (open_boss.0, open_boss.1, not_lucky)
          (resolve_loss (clock (rand (rand r).1).1) (die (rand r).0) dice room lost)
