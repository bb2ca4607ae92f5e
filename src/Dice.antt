-- ===== src/Dice.antt =====
-- src/server/logic/dice.h and dice.c: one attack. `rand` is the C library's generator on a state
-- `R`, `clock` is `time(NULL)` in such a state. This is the attack of a worker that no other interrupts;
-- the module Raid cuts it at every access to the shared memory.
pub mod Outcome
pub mod Combo
pub mod Rules
use world_boss_raid.Base.{
  ℕ, ◌+◌, ◌%◌, Bool, true, false, ◌||◌, Option, none, some, List, ℤ, pos, ◌+ℤ◌, ◌*ℤ◌, ltb_ℤ, leb_ℤ,
  eqb_ℤ, ◌==◌, if◌then◌else◌, replicate,
}
use world_boss_raid.Base.CString.{strncpy}
use world_boss_raid.Protocol.{PayloadGameState, max_player_name}
use world_boss_raid.Protocol.Wire.{to_u32}
use world_boss_raid.GameState.{
  GameSharedData, is_dead, stage_code, gamestate_apply_damage, gamestate_spawn_next_boss,
  gamestate_update_streak, gamestate_mark_lucky_kill,
}

abbrev pub instant_kill_damage : ℤ
instant_kill_damage = pos 999999

-- `srand(time(NULL))`, whose argument is an unsigned int.
unfoldable pub dice_init : {R : Type 0} → (ℕ → R → R) → ℤ → R → R
dice_init srand now r = srand (to_u32 now) r

pub record AttackResult : Type 0 where
  pub boss_dice : ℤ
  pub dmg_dealt : ℤ
  pub dmg_taken : ℤ
  pub is_win : Bool
  pub is_crit : Bool
  pub boss_just_died : Bool
  pub is_lucky_kill : Bool
  pub current_streak : ℤ

-- After `memset(result_out, 0, …)` and `memset(state_out, 0, …)`.
abbrev pub no_result : AttackResult
no_result = record {
  boss_dice = pos 0;
  dmg_dealt = pos 0;
  dmg_taken = pos 0;
  is_win = false;
  is_crit = false;
  boss_just_died = false;
  is_lucky_kill = false;
  current_streak = pos 0;
}

abbrev pub no_state : PayloadGameState
no_state = record {
  boss_hp = pos 0;
  max_hp = pos 0;
  online_count = pos 0;
  stage = 0;
  is_respawning = 0;
  is_crit = 0;
  is_lucky = 0;
  last_player_damage = pos 0;
  last_boss_dice = pos 0;
  last_player_streak = pos 0;
  dmg_taken = pos 0;
  last_killer = replicate max_player_name 0;
}

abbrev pub flag : Bool → ℕ
flag b = if b then 1 else 0

-- The assignments from a snapshot to `state_out`.
unfoldable pub report : GameSharedData → PayloadGameState → PayloadGameState
report g out = record out {
  boss_hp = g.current_hp;
  max_hp = g.max_hp;
  online_count = g.online_count;
  stage = stage_code g.stage;
  is_respawning = flag g.is_respawning;
  last_killer = strncpy out.last_killer g.last_killer max_player_name;
}

-- A die, as `(rand() % 6) + 1` has it.
abbrev pub die : ℕ → ℤ
die r = pos (r % 6 + 1)

abbrev pub closed : GameSharedData → Bool
closed g = g.is_respawning || is_dead g.stage

-- The hit, and the next boss if it killed: the two calls at the end of both winning branches.
unfoldable pub deal : List ℕ → AttackResult → GameSharedData → AttackResult × GameSharedData
deal player_name result g =
    let (killed, g1) = gamestate_apply_damage result.dmg_dealt (some player_name) g in
    if killed
    then (record result { boss_just_died = true }, gamestate_spawn_next_boss g1)
    else (result, g1)

-- The result of a lucky kill, before the hit.
abbrev pub lucky_result : ℤ → AttackResult
lucky_result boss_dice = record no_result {
  boss_dice = boss_dice;
  is_win = true;
  is_crit = true;
  is_lucky_kill = true;
  dmg_dealt = instant_kill_damage;
}

-- The result of a win, before the hit, from the streak that `gamestate_update_streak` returns.
unfoldable pub win_result : ℤ → ℤ → ℤ → AttackResult
win_result player_dice boss_dice streak =
    let base = record no_result {
      boss_dice = boss_dice;
      is_win = true;
      is_crit = eqb_ℤ player_dice (pos 6);
      dmg_dealt = if eqb_ℤ player_dice (pos 6) then player_dice *ℤ pos 2 else player_dice;
      current_streak = streak;
    } in
    if leb_ℤ (pos 3) streak
    then record base { is_crit = true; dmg_dealt = instant_kill_damage }
    else base

-- The result of a loss or a draw.
unfoldable pub loss_result : ℤ → ℤ → AttackResult
loss_result player_dice boss_dice = record no_result {
  boss_dice = boss_dice;
  dmg_taken = if ltb_ℤ player_dice boss_dice then boss_dice +ℤ pos 10 else pos 0;
}

-- The three branches, after the dice of the boss and the test for a lucky kill.
unfoldable pub resolve : ℤ → List ℕ → ℤ → ℤ → Bool → GameSharedData → AttackResult × GameSharedData
resolve player_dice player_name now boss_dice is_lucky_kill g =
    if is_lucky_kill
    then deal player_name (lucky_result boss_dice) (gamestate_mark_lucky_kill now g)
    else if ltb_ℤ boss_dice player_dice
    then (let (streak, g1) = gamestate_update_streak (some player_name) player_dice true g in
        deal player_name (win_result player_dice boss_dice streak) g1)
    else (let (_, g1) = gamestate_update_streak (some player_name) player_dice false g in
        (loss_result player_dice boss_dice, g1))

module _ {R : Type 0} (rand : R → ℕ × R) (clock : R → ℤ) where
  unfoldable pub game_process_attack :
      ℤ → List ℕ → R → GameSharedData → AttackResult × PayloadGameState × R × GameSharedData
  game_process_attack player_dice player_name r g =
      if closed g
      then (no_result, report g no_state, r, g)
      else (let (x, r1) = rand r in
          let (y, r2) = rand r1 in
          let (result, g1) =
            resolve player_dice player_name (clock r2) (die x) (y % 1000000 == 0) g in
          (result, report g1 no_state, r2, g1))
