-- ===== src/Raid.antt =====
-- The workers of the server together: `handle_client` runs in a process of its own for each client,
-- and all share the memory of gamestate.c. Every function of gamestate.c holds the lock for its whole
-- body, so a schedule is a sequence of such calls; between two calls of one worker any other worker
-- may make calls of its own. A worker that is killed from outside in the middle of an attack is not
-- in the model.
pub mod Invariant
pub mod Safety
pub mod Solo
pub mod Respawn
use world_boss_raid.Base.{
  ℕ, suc, ◌+◌, ◌≡◌, Bool, true, false, some, List, [], ◌∷◌, ℤ, pos, ◌-ℤ◌, ltb_ℤ, if◌then◌else◌,
  Option, get_elem?, set, replicate,
}
use world_boss_raid.GameState.{
  GameSharedData, gamestate_init, gamestate_player_join, gamestate_player_leave,
  gamestate_apply_damage, gamestate_spawn_next_boss, gamestate_update_streak,
  gamestate_mark_lucky_kill, gamestate_clear_lucky_kill,
}
use world_boss_raid.Dice.{die, closed, lucky_result, win_result}

-- Where a worker stands between two calls, with what it has in its local variables.
pub data Pc : Type 0 where
  away : Pc  -- before the join, or after the leave
  playing : Pc  -- joined, in the main loop
  lucky : List ℕ → ℤ → Pc  -- a lucky kill, before `gamestate_mark_lucky_kill`
  winning : List ℕ → ℤ → ℤ → Pc  -- player and boss dice, before `gamestate_update_streak`
  losing : List ℕ → ℤ → Pc  -- the same, on the branch of a loss
  striking : List ℕ → ℤ → Pc  -- the damage, before `gamestate_apply_damage`
  spawning : Pc  -- `killed` is true, before `gamestate_spawn_next_boss`
  reporting : Pc  -- before the second snapshot
  clearing : Pc  -- a heartbeat that saw an old event, before `gamestate_clear_lucky_kill`

-- The branch that the dice choose.
abbrev pub aim : List ℕ → ℤ → ℤ → Bool → Pc
aim name dice boss is_lucky_kill =
    if is_lucky_kill
    then lucky name boss
    else if ltb_ℤ boss dice
    then winning name dice boss
    else losing name dice

-- `if (killed)`
abbrev pub after_strike : Bool → Pc
after_strike true = spawning
after_strike false = reporting

-- `now - snap.lucky_kill_timestamp > 5` of an event that the snapshot shows.
abbrev pub after_heartbeat : ℤ → GameSharedData → Pc
after_heartbeat now m =
    if m.has_lucky_kill_event
    then if ltb_ℤ (pos 5) (now -ℤ m.lucky_kill_timestamp) then clearing else playing
    else playing

-- One call of one worker.
pub data Move (m : GameSharedData) : Pc → GameSharedData → Pc → Type 0 where
  join : Move m away (gamestate_player_join m).1 playing
  leave : Move m playing (gamestate_player_leave m) away
  turned_away : closed m ≡ true → Move m playing m playing
  roll :
      (name : List ℕ) (dice : ℤ) (x : ℕ) (is_lucky_kill : Bool)
      → closed m ≡ false
      → Move m playing m (aim name dice (die x) is_lucky_kill)
  mark :
      {name : List ℕ} {boss : ℤ} (now : ℤ)
      → Move m
          (lucky name boss)
          (gamestate_mark_lucky_kill now m)
          (striking name (lucky_result boss).dmg_dealt)
  win :
      {name : List ℕ} {dice boss : ℤ}
      → Move m (winning name dice boss) (gamestate_update_streak (some name) dice true m).1 (
          striking name
            (win_result dice boss (gamestate_update_streak (some name) dice true m).0).dmg_dealt)
  lose :
      {name : List ℕ} {dice : ℤ}
      → Move m (losing name dice) (gamestate_update_streak (some name) dice false m).1 reporting
  strike :
      {name : List ℕ} {damage : ℤ}
      → Move m
          (striking name damage)
          (gamestate_apply_damage damage (some name) m).1
          (after_strike (gamestate_apply_damage damage (some name) m).0)
  spawn : Move m spawning (gamestate_spawn_next_boss m) reporting
  snapshot : Move m reporting m playing
  heartbeat : (now : ℤ) → Move m playing m (after_heartbeat now m)
  clear : Move m clearing (gamestate_clear_lucky_kill m) playing

pub record System : Type 0 where
  pub mem : GameSharedData
  pub workers : List Pc

-- Worker `i` makes its next call.
pub data Step (s : System) : System → Type 0 where
  pick :
      (i : ℕ) {p q : Pc} {m : GameSharedData}
      → get_elem? s.workers i ≡ some p
      → Move s.mem p m q
      → Step s (record { mem = m; workers = set s.workers i q })

-- The server with `n` workers to come.
abbrev pub start_of : ℕ → System
start_of n = record { mem = gamestate_init; workers = replicate n away }

pub data Reach (n : ℕ) : System → Type 0 where
  start : Reach n (start_of n)
  later : {s t : System} → Reach n s → Step s t → Reach n t
