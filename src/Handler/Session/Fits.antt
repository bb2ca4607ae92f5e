-- ===== src/Handler/Session/Fits.antt =====
-- The fields of the states that `handle_client` sends, in the machine types of `Payload_GameState`.
use world_boss_raid.Base.{
  ℕ, ◌+◌, ◌%◌, ◌^◌, ◌<◌, ◌≡◌, refl, inl, inr, Bool, true, false, some, List, arith, ℤ, pos, ltb_ℤ,
  ◌==◌, All, length, Bool-cases,
}
use world_boss_raid.Base.CString.{length-strncpy}
use world_boss_raid.Protocol.{PayloadGameState}
use world_boss_raid.Protocol.Wire.{IsInt32, IsGameState}
use world_boss_raid.GameState.{
  gamestate_mark_lucky_kill, gamestate_apply_damage, gamestate_spawn_next_boss, BossStage,
  boss_stage_1, boss_stage_2, boss_stage_dead, stage_code, GameSharedData, gamestate_update_streak,
}
use world_boss_raid.GameState.Invariant.{IsValid, HpFits, stage_max_hp}
use world_boss_raid.GameState.Streak.{CanGrow, update_players-IsInt32}
use world_boss_raid.GameState.Damage.{IsOpen}
use world_boss_raid.Dice.Rules.{IsVerdict, resolve-IsVerdict}
use world_boss_raid.Dice.{
  AttackResult, no_result, deal, die, resolve, lucky_result, win_result, loss_result,
  game_process_attack, flag, report, no_state, closed,
}
use world_boss_raid.Dice.Outcome.{resolve-IsValid}
use world_boss_raid.Handler.Session.{attach_result, heartbeat_state}

-- The part of a state that a snapshot gives: the hit points, the maximum, the players online, the
-- stage, the flag and the killer.
pub record ReportFits (s : PayloadGameState) : Type 0 where
  pub boss_hp_fits : IsInt32 s.boss_hp
  pub max_hp_fits : IsInt32 s.max_hp
  pub online_count_fits : IsInt32 s.online_count
  pub bytes_fit : (s.stage < 2 ^ 8) × (s.is_respawning < 2 ^ 8)
  pub last_killer_fits : length s.last_killer ≡ 32

hp-IsInt32 :
    (stage : BossStage) (respawning : Bool) (hp : ℤ) → HpFits stage respawning hp → IsInt32 hp
hp-IsInt32 boss_stage_1 true hp h = ground arith
hp-IsInt32 boss_stage_1 false hp h = ground arith
hp-IsInt32 boss_stage_2 true hp h = ground arith
hp-IsInt32 boss_stage_2 false hp h = ground arith
hp-IsInt32 boss_stage_dead true hp h = absurd h
hp-IsInt32 boss_stage_dead false hp h = ground arith

stage_max_hp-IsInt32 : (stage : BossStage) → IsInt32 (stage_max_hp stage)
stage_max_hp-IsInt32 boss_stage_1 = (omega arith, omega arith)
stage_max_hp-IsInt32 boss_stage_2 = (omega arith, omega arith)
stage_max_hp-IsInt32 boss_stage_dead = (omega arith, omega arith)

flag-lt : (b : Bool) → flag b < 2 ^ 8
flag-lt true = omega arith
flag-lt false = omega arith

stage_code-lt : (stage : BossStage) → stage_code stage < 2 ^ 8
stage_code-lt boss_stage_1 = omega arith
stage_code-lt boss_stage_2 = omega arith
stage_code-lt boss_stage_dead = omega arith

report-ReportFits :
    (g : GameSharedData) → IsValid g → IsInt32 g.online_count → ReportFits (report g no_state)
unfolding report
report-ReportFits g v online = record {
  boss_hp_fits = hp-IsInt32 g.stage g.is_respawning g.current_hp v.hp;
  max_hp_fits = rw v.max (stage_max_hp-IsInt32 g.stage);
  online_count_fits = online;
  bytes_fit = (stage_code-lt g.stage, flag-lt g.is_respawning);
  last_killer_fits = length-strncpy no_state.last_killer g.last_killer 32;
}

-- The answer to a heartbeat from a well-formed state fits its packet, if the number of players
-- online does.
pub heartbeat_state-IsGameState :
    (now : ℤ) (g : GameSharedData)
    → IsValid g
    → IsInt32 g.online_count
    → IsGameState (heartbeat_state now g)
unfolding heartbeat_state report
heartbeat_state-IsGameState now g v online =
    let r = report-ReportFits g v online in
    record {
      boss_hp_fits = r.boss_hp_fits;
      max_hp_fits = r.max_hp_fits;
      online_count_fits = online;
      bytes_fit = (r.bytes_fit.0, r.bytes_fit.1, omega arith, flag-lt _);
      last_player_damage_fits = (omega arith, omega arith);
      last_boss_dice_fits = (omega arith, omega arith);
      last_player_streak_fits = (omega arith, omega arith);
      dmg_taken_fits = (omega arith, omega arith);
      last_killer_fits = r.last_killer_fits;
    }

-- The numbers of a result that a packet carries.
pub record ResultFits (result : AttackResult) : Type 0 where
  pub damage_fits : IsInt32 result.dmg_dealt
  pub boss_dice_fits : IsInt32 result.boss_dice
  pub streak_fits : IsInt32 result.current_streak
  pub taken_fits : IsInt32 result.dmg_taken

attach_result-IsGameState :
    (result : AttackResult) (state : PayloadGameState)
    → ReportFits state
    → ResultFits result
    → IsGameState (attach_result result state)
unfolding attach_result
attach_result-IsGameState result state r f = record {
  boss_hp_fits = r.boss_hp_fits;
  max_hp_fits = r.max_hp_fits;
  online_count_fits = r.online_count_fits;
  bytes_fit = (r.bytes_fit.0, r.bytes_fit.1, flag-lt _, flag-lt _);
  last_player_damage_fits = f.damage_fits;
  last_boss_dice_fits = f.boss_dice_fits;
  last_player_streak_fits = f.streak_fits;
  dmg_taken_fits = f.taken_fits;
  last_killer_fits = r.last_killer_fits;
}

dealt-IsInt32 : (result : AttackResult) → IsVerdict result → IsInt32 result.dmg_dealt
dealt-IsInt32 result v = ground (arith, v.dealt)

taken-IsInt32 : (result : AttackResult) → IsVerdict result → IsInt32 result.dmg_taken
taken-IsInt32 result v = ground (arith, v.taken)

boss-IsInt32 : (result : AttackResult) → IsVerdict result → IsInt32 result.boss_dice
boss-IsInt32 result v = ground (arith, v.boss)

deal-kept :
    (name : List ℕ) (result : AttackResult) (g : GameSharedData)
    → ((deal name result g).0.current_streak ≡ result.current_streak)
      × ((deal name result g).1.online_count ≡ g.online_count)
unfolding deal gamestate_apply_damage gamestate_spawn_next_boss
deal-kept name result g = ground arith

win_result-streak : (dice boss streak : ℤ) → (win_result dice boss streak).current_streak ≡ streak
unfolding win_result
win_result-streak dice boss streak = ground arith

resolve-kept :
    (dice : ℤ) (name : List ℕ) (now boss : ℤ) (lucky : Bool) (g : GameSharedData)
    → All CanGrow g.players
    → let (result, g') = resolve dice name now boss lucky g in
      IsInt32 result.current_streak × (g'.online_count ≡ g.online_count)
unfolding resolve gamestate_mark_lucky_kill gamestate_update_streak loss_result
resolve-kept dice name now boss true g h =
    let (s, o) = deal-kept name (lucky_result boss) (gamestate_mark_lucky_kill now g) in
    (rw s (omega arith, omega arith), o)
resolve-kept dice name now boss false g h = elim (Bool-cases (ltb_ℤ boss dice)) [
  | inl e ↦
      let (streak, g1) = gamestate_update_streak (some name) dice true g in
      let (s, o) = deal-kept name (win_result dice boss streak) g1 in
      rw e (
        rw (s, win_result-streak dice boss streak)
            (update_players-IsInt32 name dice true g.players h),
        o,
      )
  | inr e ↦ rw e ((omega arith, omega arith), refl)
]

no_result-ResultFits : ResultFits no_result
no_result-ResultFits = record {
  damage_fits = (omega arith, omega arith);
  boss_dice_fits = (omega arith, omega arith);
  streak_fits = (omega arith, omega arith);
  taken_fits = (omega arith, omega arith);
}

is_open : (g : GameSharedData) → closed g ≡ false → IsOpen g
is_open g e = (ground arith, ground arith)

module _ {R : Type 0} (rand : R → ℕ × R) (clock : R → ℤ) (x : ℕ) (name : List ℕ) (r : R)
    (g : GameSharedData) (valid : IsValid g) (online : IsInt32 g.online_count)
    (growing : All CanGrow g.players) where
  -- In a well-formed state whose number of players and streaks leave room in an int32_t, every
  -- field of the state that reports an attack is a value of its type in the packet.
  pub attack_state-IsGameState :
      let (result, state, r', g') = game_process_attack rand clock (die x) name r g in
      IsGameState (attach_result result state)
  unfolding game_process_attack
  attack_state-IsGameState = elim (Bool-cases (closed g)) [
    | inl e ↦
        rw (e, game_process_attack)
          (attach_result-IsGameState no_result (report g no_state)
            (report-ReportFits g valid online) no_result-ResultFits)
    | inr e ↦
        let now = clock (rand (rand r).1).1 in
        let boss = (rand r).0 % 6 + 1 in
        let lucky = (rand (rand r).1).0 % 1000000 == 0 in
        let (result, g1) = resolve (die x) name now (pos boss) lucky g in
        let (verdict, _) =
          resolve-IsVerdict (x % 6 + 1) name now boss lucky g (omega arith) (omega arith)
            (omega arith) (omega arith) (is_open g e) in
        let (streak, same) = resolve-kept (die x) name now (pos boss) lucky g growing in
        rw (e, game_process_attack)
          (attach_result-IsGameState result (report g1 no_state)
            (report-ReportFits g1
              (resolve-IsValid (die x) name now (pos boss) lucky g (omega arith) valid)
              (rw same online))
            (record {
              damage_fits = dealt-IsInt32 result verdict;
              boss_dice_fits = boss-IsInt32 result verdict;
              streak_fits = streak;
              taken_fits = taken-IsInt32 result verdict;
            }))
  ]
