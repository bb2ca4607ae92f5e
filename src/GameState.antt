-- ===== src/GameState.antt =====
-- src/server/logic/gamestate.h and gamestate.c: the shared memory of the raid. Each function is the
-- critical section between the lock and the unlock of its mutex, as a map on `GameSharedData` that
-- returns its result first. The test for a `shm` that is NULL is left out; the mapping of the memory is
-- in the module Server.
pub mod Invariant
pub mod Damage
pub mod Streak
use world_boss_raid.Base.{
  ℕ, zero, suc, ◌+◌, Bool, true, false, not, ◌&&◌, ◌||◌, Option, none, some, List, [], ◌∷◌, ℤ, pos,
  negsuc, ◌+ℤ◌, ◌-ℤ◌, ltb_ℤ, leb_ℤ, eqb_ℤ, ◌==◌, if◌then◌else◌, set, get_or, replicate,
}
use world_boss_raid.Base.CString.{strncpy, same_text}

abbrev pub boss_1_max_hp : ℤ
boss_1_max_hp = pos 1000

abbrev pub boss_2_max_hp : ℤ
boss_2_max_hp = pos 2000

abbrev pub max_tracked_players : ℕ
max_tracked_players = 100

pub data BossStage : Type 0 where
  boss_stage_1 boss_stage_2 boss_stage_dead : BossStage

-- `stage == BOSS_STAGE_DEAD`
abbrev pub is_dead : BossStage → Bool
is_dead boss_stage_dead = true
is_dead _ = false

-- The value of the enumerator.
abbrev pub stage_code : BossStage → ℕ
stage_code boss_stage_1 = 0
stage_code boss_stage_2 = 1
stage_code boss_stage_dead = 2

pub record PlayerHistory : Type 0 where
  pub name : List ℕ  -- char[32]
  pub last_dice : ℤ
  pub streak_count : ℤ

pub record GameSharedData : Type 0 where
  pub current_hp : ℤ
  pub max_hp : ℤ
  pub stage : BossStage
  pub online_count : ℤ
  pub is_respawning : Bool
  pub last_killer : List ℕ  -- char[32]
  pub has_lucky_kill_event : Bool
  pub lucky_kill_timestamp : ℤ
  pub players : List PlayerHistory

abbrev pub no_name : List ℕ
no_name = replicate 32 0

abbrev pub empty_history : PlayerHistory
empty_history = record { name = no_name; last_dice = pos 0; streak_count = pos 0 }

-- The values that `gamestate_init` writes.
unfoldable pub gamestate_init : GameSharedData
gamestate_init = record {
  current_hp = boss_1_max_hp;
  max_hp = boss_1_max_hp;
  stage = boss_stage_1;
  online_count = pos 0;
  is_respawning = false;
  last_killer = no_name;
  has_lucky_kill_event = false;
  lucky_kill_timestamp = pos 0;
  players = replicate max_tracked_players empty_history;
}

unfoldable pub gamestate_player_join : GameSharedData → ℤ × GameSharedData
gamestate_player_join g =
    let count = g.online_count +ℤ pos 1 in (count, record g { online_count = count })

unfoldable pub gamestate_player_leave : GameSharedData → GameSharedData
gamestate_player_leave g =
    if ltb_ℤ (pos 0) g.online_count then record g { online_count = g.online_count -ℤ pos 1 } else g

-- `strncpy(shm->last_killer, attacker_name, 31)`, if there is a name.
abbrev pub record_killer : Option (List ℕ) → List ℕ → List ℕ
record_killer none killer = killer
record_killer (some name) killer = strncpy killer name 31

-- The result is `just_killed`.
unfoldable pub gamestate_apply_damage : ℤ → Option (List ℕ) → GameSharedData → Bool × GameSharedData
gamestate_apply_damage damage attacker_name g =
    if g.is_respawning || is_dead g.stage
    then (false, g)
    else let hp = g.current_hp -ℤ damage in
      if leb_ℤ hp (pos 0)
      then if not g.is_respawning
        then (
          true,
          record g {
            current_hp = pos 0;
            is_respawning = true;
            last_killer = record_killer attacker_name g.last_killer;
          },
        )
        else (false, record g { current_hp = pos 0 })
      else (false, record g { current_hp = hp })

-- The stage and the hit points of the next boss, or the end of the game.
abbrev pub next_boss : GameSharedData → GameSharedData
next_boss g = elim g.stage [
  | boss_stage_1 ↦ record g {
    stage = boss_stage_2;
    max_hp = boss_2_max_hp;
    current_hp = boss_2_max_hp;
  }
  | _ ↦ record g { stage = boss_stage_dead; current_hp = pos 0 }
]

-- `last_killer` is cleared only if the stage is now `boss_stage_2`.
abbrev pub killer_after : BossStage → List ℕ → List ℕ
killer_after boss_stage_2 killer = no_name
killer_after _ killer = killer

unfoldable pub gamestate_spawn_next_boss : GameSharedData → GameSharedData
gamestate_spawn_next_boss g =
    let next = next_boss g in
    record next { is_respawning = false; last_killer = killer_after next.stage next.last_killer }

-- `name[0] != '\0'`
abbrev pub in_use : PlayerHistory → Bool
in_use p = not (get_or p.name 0 0 == 0)

-- The first slot in use whose name is `name`.
pub find_player : List ℕ → List PlayerHistory → Option ℕ
find_player name [] = none
find_player name (p ∷ ps) = elim (in_use p && same_text p.name name) [
  | true ↦ some 0
  | false ↦ elim (find_player name ps) [ none ↦ none | some i ↦ some (suc i) ]
]

-- The first slot that is not in use.
unfoldable pub find_empty : List PlayerHistory → Option ℕ
find_empty [] = none
find_empty (p ∷ ps) = elim (in_use p) [
  | false ↦ some 0
  | true ↦ elim (find_empty ps) [ none ↦ none | some i ↦ some (suc i) ]
]

-- A slot for a new player.
abbrev pub claim : List ℕ → PlayerHistory → PlayerHistory
claim name p = record p { name = strncpy p.name name 31; streak_count = pos 0; last_dice = pos 0 }

-- Step 3 of `gamestate_update_streak`, on the slot of the player.
pub update_history : ℤ → Bool → PlayerHistory → PlayerHistory
update_history current_dice is_win p = record p {
  streak_count =
      if is_win
      then if eqb_ℤ p.last_dice current_dice then p.streak_count +ℤ pos 1 else pos 1
      else pos 0;
  last_dice = current_dice;
}

-- Steps 1 and 2: the table after a new player has claimed a slot, and the slot of the player.
-- `none` stands for the slot -1 of a full table.
pub player_slot : List ℕ → List PlayerHistory → Option ℕ × List PlayerHistory
unfolding find_player find_empty
player_slot name ps = elim (find_player name ps) [
  | some i ↦ (some i, ps)
  | none ↦ elim (find_empty ps) [
    | some i ↦ (some i, set ps i (claim name (get_or ps i empty_history)))
    | none ↦ (none, ps)
  ]
]

-- The streak, and the table after the update.
unfoldable pub update_players : List ℕ → ℤ → Bool → List PlayerHistory → ℤ × List PlayerHistory
unfolding player_slot update_history
update_players name current_dice is_win players =
    let (slot, ps) = player_slot name players in
    elim slot [
      | none ↦ (pos 0, ps)
      | some i ↦
          let p = update_history current_dice is_win (get_or ps i empty_history) in
          (p.streak_count, set ps i p)
    ]

unfoldable pub gamestate_update_streak :
    Option (List ℕ) → ℤ → Bool → GameSharedData → ℤ × GameSharedData
gamestate_update_streak none current_dice is_win g = (pos 0, g)
gamestate_update_streak (some name) current_dice is_win g =
    let (streak, ps) = update_players name current_dice is_win g.players in
    (streak, record g { players = ps })

-- `now` is the value of `time(NULL)`.
unfoldable pub gamestate_mark_lucky_kill : ℤ → GameSharedData → GameSharedData
gamestate_mark_lucky_kill now g = record g {
  has_lucky_kill_event = true;
  lucky_kill_timestamp = now;
}

unfoldable pub gamestate_clear_lucky_kill : GameSharedData → GameSharedData
gamestate_clear_lucky_kill g = record g {
  has_lucky_kill_event = false;
  lucky_kill_timestamp = pos 0;
}
