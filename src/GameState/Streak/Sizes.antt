-- ===== src/GameState/Streak/Sizes.antt =====
-- The streaks of `gamestate_update_streak` as an int32_t of a packet.
use world_boss_raid.Base.{
  ℕ, ◌+◌, ◌-◌, ◌^◌, ◌≤◌, Bool, inl, inr, List, [], ◌∷◌, arith, ℤ, pos, ◌≤ℤ◌, +ℤ_parts, All,
  All-get_or, All-set, get_or, Option-cases,
}
use world_boss_raid.Protocol.Wire.{IsInt32}
use world_boss_raid.GameState.{
  PlayerHistory, empty_history, find_player, find_empty, player_slot, update_history,
  update_players,
}

-- A streak of at most `most`.
abbrev pub IsUpTo : ℕ → PlayerHistory → Type 0
IsUpTo most p = (pos 0 ≤ℤ p.streak_count) × (p.streak_count ≤ℤ pos most)

-- A streak that can be counted up once more.
abbrev pub CanGrow : PlayerHistory → Type 0
CanGrow = IsUpTo (2 ^ 31 - 2)

pub IsUpTo-mono :
    (m n : ℕ) (ps : List PlayerHistory) → m ≤ n → All (IsUpTo m) ps → All (IsUpTo n) ps
IsUpTo-mono m n [] h a = tt
IsUpTo-mono m n (p ∷ ps) h a = ((a.0.0, omega (arith, a.0.1)), IsUpTo-mono m n ps h a.1)

update_history-IsUpTo :
    (most : ℕ) (dice : ℤ) (win : Bool) (p : PlayerHistory)
    → IsUpTo most p
    → IsUpTo (most + 1) (update_history dice win p)
unfolding update_history
update_history-IsUpTo most dice win p h = ground (arith, +ℤ_parts p.streak_count (pos 1))

update_history-IsInt32 :
    (dice : ℤ) (win : Bool) (p : PlayerHistory)
    → CanGrow p
    → IsInt32 (update_history dice win p).streak_count
unfolding update_history
update_history-IsInt32 dice win p h = ground (arith, +ℤ_parts p.streak_count (pos 1))

player_slot-IsUpTo :
    (most : ℕ) (name : List ℕ) (ps : List PlayerHistory)
    → All (IsUpTo most) ps
    → All (IsUpTo most) (player_slot name ps).1
unfolding player_slot
player_slot-IsUpTo most name ps h = elim (Option-cases (find_player name ps)) [
  | inr (i, e) ↦ rw (e, player_slot) h
  | inl e ↦ elim (Option-cases (find_empty ps)) [
    | inl f ↦ rw (e, f, player_slot) h
    | inr (i, f) ↦
        rw (e, f, player_slot) (All-set (IsUpTo most) ps i _ h (omega arith, omega arith))
  ]
]

-- The streak that an update returns fits an int32_t, if every streak of the table can grow.
pub update_players-IsInt32 :
    (name : List ℕ) (dice : ℤ) (win : Bool) (ps : List PlayerHistory)
    → All CanGrow ps
    → IsInt32 (update_players name dice win ps).0
unfolding update_players
update_players-IsInt32 name dice win ps h = elim (Option-cases (player_slot name ps).0) [
  | inl e ↦ rw (e, update_players) (omega arith, omega arith)
  | inr (i, e) ↦
      rw (e, update_players)
        (update_history-IsInt32 dice win (get_or (player_slot name ps).1 i empty_history) (
          All-get_or CanGrow (player_slot name ps).1 i empty_history
            (player_slot-IsUpTo (2 ^ 31 - 2) name ps h) (omega arith, omega arith)))
]

-- An update makes no streak longer by more than one.
pub update_players-IsUpTo :
    (most : ℕ) (name : List ℕ) (dice : ℤ) (win : Bool) (ps : List PlayerHistory)
    → All (IsUpTo most) ps
    → All (IsUpTo (most + 1)) (update_players name dice win ps).1
unfolding update_players
update_players-IsUpTo most name dice win ps h =
    let kept = player_slot-IsUpTo most name ps h in
    let later = IsUpTo-mono most (most + 1) (player_slot name ps).1 (omega arith) kept in
    elim (Option-cases (player_slot name ps).0) [
      | inl e ↦ rw (e, update_players) later
      | inr (i, e) ↦
          rw (e, update_players)
            (All-set (IsUpTo (most + 1)) (player_slot name ps).1 i _ later (
              update_history-IsUpTo most dice win (get_or (player_slot name ps).1 i empty_history) (
                All-get_or (IsUpTo most) (player_slot name ps).1 i empty_history kept
                  (omega arith, omega arith))))
    ]
