-- ===== src/Client/Ui.antt =====
-- `ui_game_loop` of src/client/ui/client_ui.c. Screens and texts are data, the keys are a list, and
-- the callbacks are parameters over a state of theirs; both are given, and `rand` acts on the same state.
-- The keys are those that the loop itself reads: a screen reads its own. The drawing is in the module
-- Client.Draw.
pub mod Screens
use world_boss_raid.Base.{
  ℕ, zero, suc, ◌+◌, Bool, true, false, not, ◌&&◌, Option, none, some, List, [], ◌∷◌, ◌++◌, ℤ, pos,
  ltb, ltb_ℤ, leb_ℤ, ◌==◌, if◌then◌else◌,
}
use world_boss_raid.GameState.{no_name}
use world_boss_raid.Dice.{die}
use world_boss_raid.Client.Network.{UiGameState, copy_name}

-- `log_msg`, as the format and its arguments.
pub data LogMsg : Type 0 where
  connecting network_error lucky_man : LogMsg
  crit_combo : ℤ → ℤ → LogMsg
  crit ouch hit : ℤ → LogMsg

pub data DiceVisual : Type 0 where
  unknown_dice : DiceVisual
  rolling : ℤ → ℤ → ℤ → DiceVisual
  you_vs_boss : ℤ → ℤ → DiceVisual

pub data Screen : Type 0 where
  god_screen bonus_screen : Screen
  victory_screen : List ℕ → Screen

pub record LocalGameState : Type 0 where
  pub boss_hp : ℤ
  pub max_hp : ℤ
  pub player_hp : ℤ
  pub stage : ℕ
  pub log_msg : LogMsg
  pub dice_visual : DiceVisual
  pub last_killer : List ℕ  -- char[32]
  pub player_name : List ℕ  -- char[32]
  pub has_shown_lucky_kill : Bool

-- `(g.stage == 0) ? 1 : (g.stage == 1 ? 2 : state.stage)`
abbrev pub shown_stage : ℕ → ℕ → ℕ
shown_stage stage old = if stage == 0 then 1 else if stage == 1 then 2 else old

abbrev pub is_victory : UiGameState → Bool
is_victory g = (g.stage == 2) && leb_ℤ g.boss_hp (pos 0) && (g.is_respawning == 0)

-- The fields that both answers set.
unfoldable pub show_boss : UiGameState → LocalGameState → LocalGameState
show_boss g state = record state {
  boss_hp = g.boss_hp;
  max_hp = g.max_hp;
  stage = shown_stage g.stage state.stage;
  last_killer = copy_name state.last_killer g.last_killer;
}

-- The screen of a victory, and whether the loop returns.
abbrev pub check_victory : UiGameState → LocalGameState → List Screen × Bool
check_victory g state =
    if is_victory g then (victory_screen state.last_killer ∷ [], true) else ([], false)

-- The message after an attack, and the screen before the check for the victory.
unfoldable pub show_result : UiGameState → LocalGameState → LocalGameState × List Screen
show_result g state =
    if not (g.is_lucky == 0) && not state.has_shown_lucky_kill
    then (record state { log_msg = lucky_man; has_shown_lucky_kill = true }, god_screen ∷ [])
    else if not (g.is_crit == 0)
    then (
      record state {
        log_msg =
            if leb_ℤ (pos 3) g.last_player_streak
            then crit_combo g.last_player_damage g.last_player_streak
            else crit g.last_player_damage;
      },
      bonus_screen ∷ [],
    )
    else if ltb_ℤ (pos 0) g.dmg_taken
    then (record state { log_msg = ouch g.dmg_taken }, [])
    else (record state { log_msg = hit g.last_player_damage }, [])

-- An attack with its answer: the state, the screens in their order, and whether the loop returns.
unfoldable pub show_attack : UiGameState → LocalGameState → LocalGameState × List Screen × Bool
show_attack g state =
    let named = show_boss g state in
    let rolled : LocalGameState = record named {
      dice_visual = you_vs_boss g.last_player_damage g.last_boss_dice;
    } in
    let (next, screens) = show_result g rolled in
    let (last, over) = check_victory g next in (next, screens ++ last, over)

unfoldable pub show_heartbeat : UiGameState → LocalGameState → LocalGameState × List Screen × Bool
show_heartbeat g state =
    let named = show_boss g state in
    let lucky = not (g.is_lucky == 0) in
    let fresh = lucky && not named.has_shown_lucky_kill in
    let marked : LocalGameState = record named {
      has_shown_lucky_kill = if fresh then true else named.has_shown_lucky_kill;
    } in
    let next : LocalGameState = record marked {
      has_shown_lucky_kill =
          if not lucky && marked.has_shown_lucky_kill then false else marked.has_shown_lucky_kill;
    } in
    let (last, over) = check_victory g next in
    (next, (if fresh then god_screen ∷ last else last), over)

-- The state of the loop: the local state, the ticks, the screens so far and the callbacks' own state.
pub record Ui (S : Type 0) : Type 0 where
  pub state : LocalGameState
  pub idle_ticks : ℕ
  pub shown : List Screen
  pub world : S

pub data Key : Type 0 where
  quit space other : Key

-- The static `state` starts with zero bytes in its names.
abbrev pub ui_start : {S : Type 0} → List ℕ → S → Ui S
ui_start player_name world =
    let state : LocalGameState = record {
      boss_hp = pos 0;
      max_hp = pos 0;
      player_hp = pos 100;
      stage = 1;
      log_msg = connecting;
      dice_visual = unknown_dice;
      last_killer = no_name;
      player_name = copy_name no_name player_name;
      has_shown_lucky_kill = false;
    } in
    record { state = state; idle_ticks = 0; shown = []; world = world }

module _ {S : Type 0} (rand : S → ℕ × S) (attack_cb heartbeat_cb : S → Option UiGameState × S) where
  -- The frames that are left of the animation, which shows dice of its own.
  unfoldable pub animate_dice_roll : ℕ → Ui S → Ui S
  animate_dice_roll zero ui = ui
  animate_dice_roll (suc frames) ui =
      let (x, s1) = rand ui.world in
      let (y, s2) = rand s1 in
      let (z, s3) = rand s2 in
      let shaken : LocalGameState = record (ui.state) {
        dice_visual = rolling (die x) (die y) (die z);
      } in
      animate_dice_roll frames (record ui { state = shaken; world = s3 })

  -- The space bar; the flag is whether the loop returns.
  unfoldable pub attack_turn : Ui S → Ui S × Bool
  attack_turn ui =
      let rolled = animate_dice_roll 10 ui in
      let (answer, world) = attack_cb rolled.world in
      elim answer [
        | none ↦
            let failed : LocalGameState = record (rolled.state) { log_msg = network_error } in
            (record rolled { state = failed; world = world }, false)
        | some g ↦
            let (state, screens, over) = show_attack g rolled.state in
            (record rolled { state = state; shown = rolled.shown ++ screens; world = world }, over)
      ]

  unfoldable pub heartbeat_turn : Ui S → Ui S × Bool
  heartbeat_turn ui =
      let ticks = ui.idle_ticks + 1 in
      let (answer, world) = heartbeat_cb ui.world in
      if ltb 5 ticks
      then elim answer [
        | none ↦ (record ui { world = world; idle_ticks = 0 }, false)
        | some g ↦
            let (state, screens, over) = show_heartbeat g ui.state in
            let left = if over then ticks else 0 in
            (
              record ui {
                state = state;
                shown = ui.shown ++ screens;
                world = world;
                idle_ticks = left;
              },
              over,
            )
      ]
      else (record ui { idle_ticks = ticks }, false)

  -- One round: whether it returns.
  unfoldable pub ui_round : Key → Ui S → Ui S × Bool
  ui_round quit ui = (ui, true)
  ui_round space ui =
      let (ui1, over) = attack_turn ui in if over then (ui1, true) else heartbeat_turn ui1
  ui_round other ui = heartbeat_turn ui

  unfoldable pub ui_rounds : List Key → Ui S → Ui S × Bool
  ui_rounds [] ui = (ui, false)
  ui_rounds (key ∷ keys) ui =
      let (ui1, over) = ui_round key ui in
      let rest = ui_rounds keys ui1 in if over then (ui1, true) else rest

  unfoldable pub ui_game_loop : List ℕ → List Key → S → Ui S × Bool
  ui_game_loop player_name keys world = ui_rounds keys (ui_start player_name world)
