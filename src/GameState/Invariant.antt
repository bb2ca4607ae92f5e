-- ===== src/GameState/Invariant.antt =====
-- Well-formed shared memory, under the operations of gamestate.c.
use world_boss_raid.Base.{
  ℕ, ◌≡◌, refl, Bool, true, false, Option, none, some, List, arith, ℤ, pos, ◌≤ℤ◌, int_laws,
  -ℤ_parts, +ℤ_parts, ◌∙◌, inl, inr, length, length-set, get_or, set, All, All-set, All-get_or,
  All-replicate, length-replicate, Option-cases,
}
use world_boss_raid.Base.CString.{strncpy, length-strncpy, get_or-strncpy}
use world_boss_raid.GameState.{
  BossStage, boss_stage_1, boss_stage_2, boss_stage_dead, GameSharedData, PlayerHistory,
  boss_1_max_hp, boss_2_max_hp, max_tracked_players, empty_history, claim, find_player, find_empty,
  player_slot, update_history, update_players, gamestate_init, gamestate_player_join,
  gamestate_player_leave, gamestate_apply_damage, gamestate_spawn_next_boss,
  gamestate_update_streak, gamestate_mark_lucky_kill, gamestate_clear_lucky_kill,
}

-- A char[32] whose last byte is zero: its string ends inside it.
abbrev pub IsNameBuffer : List ℕ → Type 0
IsNameBuffer bs = (length bs ≡ 32) × (get_or bs 31 1 ≡ 0)

-- The maximum that goes with a stage; it stays at that of the second boss when the game is over.
abbrev pub stage_max_hp : BossStage → ℤ
stage_max_hp boss_stage_1 = boss_1_max_hp
stage_max_hp _ = boss_2_max_hp

-- The hit points that a stage and the flag `is_respawning` allow.
abbrev pub HpFits : BossStage → Bool → ℤ → Type 0
HpFits boss_stage_dead true hp = ⊥
HpFits boss_stage_dead false hp = hp ≡ pos 0
HpFits boss_stage_1 true hp = hp ≡ pos 0
HpFits boss_stage_2 true hp = hp ≡ pos 0
HpFits boss_stage_1 false hp = (pos 1 ≤ℤ hp) × (hp ≤ℤ boss_1_max_hp)
HpFits boss_stage_2 false hp = (pos 1 ≤ℤ hp) × (hp ≤ℤ boss_2_max_hp)

pub record IsValidHistory (p : PlayerHistory) : Type 0 where
  pub named : IsNameBuffer p.name
  pub counted : pos 0 ≤ℤ p.streak_count

pub record IsValid (g : GameSharedData) : Type 0 where
  pub hp : HpFits g.stage g.is_respawning g.current_hp
  pub max : g.max_hp ≡ stage_max_hp g.stage
  pub online : pos 0 ≤ℤ g.online_count
  pub killer : IsNameBuffer g.last_killer
  pub tracked : length g.players ≡ max_tracked_players
  pub histories : All IsValidHistory g.players

strncpy-IsNameBuffer : (dst src : List ℕ) → IsNameBuffer dst → IsNameBuffer (strncpy dst src 31)
strncpy-IsNameBuffer dst src h =
    (length-strncpy dst src 31 ∙ h.0, get_or-strncpy dst src 31 31 1 (omega arith) ∙ h.1)

empty_history-IsValid : IsValidHistory empty_history
empty_history-IsValid = record { named = (refl, refl); counted = omega arith }

-- The state that `gamestate_init` sets up is well formed.
pub gamestate_init-IsValid : IsValid gamestate_init
unfolding gamestate_init
gamestate_init-IsValid = record {
  hp = omega arith;
  max = refl;
  online = omega arith;
  killer = (refl, refl);
  tracked = length-replicate max_tracked_players empty_history;
  histories = All-replicate IsValidHistory max_tracked_players empty_history empty_history-IsValid;
}

pub gamestate_player_join-IsValid :
    (g : GameSharedData) → IsValid g → IsValid (gamestate_player_join g).1
unfolding gamestate_player_join
gamestate_player_join-IsValid g v = record {
  hp = v.hp;
  max = v.max;
  killer = v.killer;
  tracked = v.tracked;
  histories = v.histories;
  online = omega int_laws;
}

pub gamestate_player_leave-IsValid :
    (g : GameSharedData) → IsValid g → IsValid (gamestate_player_leave g)
unfolding gamestate_player_leave
gamestate_player_leave-IsValid g v = grind int_laws

pub gamestate_apply_damage-IsValid :
    (damage : ℤ) (name : Option (List ℕ)) (g : GameSharedData)
    → pos 0 ≤ℤ damage
    → IsValid g
    → IsValid (gamestate_apply_damage damage name g).1
unfolding gamestate_apply_damage
gamestate_apply_damage-IsValid damage none g d v = ground (arith, -ℤ_parts g.current_hp damage)
gamestate_apply_damage-IsValid damage (some name) g d v =
    ground (arith, -ℤ_parts g.current_hp damage, strncpy-IsNameBuffer g.last_killer name)

pub gamestate_spawn_next_boss-IsValid :
    (g : GameSharedData) → IsValid g → IsValid (gamestate_spawn_next_boss g)
unfolding gamestate_spawn_next_boss
gamestate_spawn_next_boss-IsValid g v = ground arith

claim-IsValidHistory :
    (name : List ℕ) (p : PlayerHistory) → IsValidHistory p → IsValidHistory (claim name p)
claim-IsValidHistory name p v = record {
  named = strncpy-IsNameBuffer p.name name v.named;
  counted = omega arith;
}

update_history-IsValidHistory :
    (dice : ℤ) (win : Bool) (p : PlayerHistory)
    → IsValidHistory p
    → IsValidHistory (update_history dice win p)
unfolding update_history
update_history-IsValidHistory dice win p v = ground (arith, +ℤ_parts p.streak_count (pos 1))

-- The invariant of the table alone.
abbrev pub IsValidTable : List PlayerHistory → Type 0
IsValidTable ps = (length ps ≡ max_tracked_players) × All IsValidHistory ps

set-IsValidTable :
    (ps : List PlayerHistory) (i : ℕ) (p : PlayerHistory)
    → IsValidTable ps
    → IsValidHistory p
    → IsValidTable (set ps i p)
set-IsValidTable ps i p v h = (length-set ps i p ∙ v.0, All-set IsValidHistory ps i p v.1 h)

pub slot_history-IsValid :
    (ps : List PlayerHistory) (i : ℕ) → IsValidTable ps → IsValidHistory (get_or ps i empty_history)
slot_history-IsValid ps i v = All-get_or IsValidHistory ps i empty_history v.1 empty_history-IsValid

player_slot-IsValidTable :
    (name : List ℕ) (ps : List PlayerHistory)
    → IsValidTable ps
    → IsValidTable (player_slot name ps).1
unfolding player_slot
player_slot-IsValidTable name ps v = elim (Option-cases (find_player name ps)) [
  | inr (i, e) ↦ rw (e, player_slot) v
  | inl e ↦ elim (Option-cases (find_empty ps)) [
    | inl f ↦ rw (e, f, player_slot) v
    | inr (i, f) ↦
        rw (e, f, player_slot)
          (set-IsValidTable ps i _ v (claim-IsValidHistory name _ (slot_history-IsValid ps i v)))
  ]
]

pub update_players-IsValidTable :
    (name : List ℕ) (dice : ℤ) (win : Bool) (ps : List PlayerHistory)
    → IsValidTable ps
    → IsValidTable (update_players name dice win ps).1
unfolding update_players
update_players-IsValidTable name dice win ps v =
    let w = player_slot-IsValidTable name ps v in
    elim (Option-cases (player_slot name ps).0) [
      | inl e ↦ rw (e, update_players) w
      | inr (i, e) ↦
          rw (e, update_players)
            (set-IsValidTable _ i _ w
              (update_history-IsValidHistory dice win _ (slot_history-IsValid _ i w)))
    ]

pub gamestate_update_streak-IsValid :
    (name : Option (List ℕ)) (dice : ℤ) (win : Bool) (g : GameSharedData)
    → IsValid g
    → IsValid (gamestate_update_streak name dice win g).1
unfolding gamestate_update_streak
gamestate_update_streak-IsValid none dice win g v = v
gamestate_update_streak-IsValid (some name) dice win g v =
    let (t, h) = update_players-IsValidTable name dice win g.players (v.tracked, v.histories) in
    record {
      hp = v.hp;
      max = v.max;
      online = v.online;
      killer = v.killer;
      tracked = t;
      histories = h;
    }

pub gamestate_mark_lucky_kill-IsValid :
    (now : ℤ) (g : GameSharedData) → IsValid g → IsValid (gamestate_mark_lucky_kill now g)
unfolding gamestate_mark_lucky_kill
gamestate_mark_lucky_kill-IsValid now g v = ground arith

pub gamestate_clear_lucky_kill-IsValid :
    (g : GameSharedData) → IsValid g → IsValid (gamestate_clear_lucky_kill g)
unfolding gamestate_clear_lucky_kill
gamestate_clear_lucky_kill-IsValid g v = ground arith
