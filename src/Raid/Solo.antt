-- ===== src/Raid/Solo.antt =====
-- The calls of one attack in a row, against `game_process_attack` of the module Dice.
use world_boss_raid.Base.{
  ℕ, ◌%◌, ◌≡◌, inl, inr, Bool, true, false, some, List, ℤ, ltb_ℤ, ◌==◌, ◌≢◌, refl, arith,
  Bool-cases,
}
use world_boss_raid.GameState.{GameSharedData, gamestate_apply_damage}
use world_boss_raid.Dice.{
  AttackResult, die, closed, deal, lucky_result, resolve, game_process_attack,
}
use world_boss_raid.Raid.{
  Pc, playing, striking, reporting, aim, after_strike, Move, mark, win, lose, strike, spawn,
  snapshot,
}

-- What a call of the worker marks a lucky kill with, if it does.
abbrev pub IsAt : ℤ → {m m' : GameSharedData} {p q : Pc} → Move m p m' q → Type 0
IsAt now (mark now') = now' ≡ now
IsAt now _ = Unit

-- One attack of a worker that nobody interrupts, from the main loop on: it begins with the roll of
-- these dice for this name, or is turned away, and goes on with the calls that follow until it is
-- back in the main loop. A lucky kill is marked at the time `now`.
pub data Attack (name : List ℕ) (dice : ℤ) (x : ℕ) (is_lucky_kill : Bool) (now : ℤ)
    (m : GameSharedData) : GameSharedData → Pc → Type 0 where
  refused : closed m ≡ true → Attack name dice x is_lucky_kill now m m playing
  rolled :
      closed m ≡ false
      → Attack name dice x is_lucky_kill now m m (aim name dice (die x) is_lucky_kill)
  then_call :
      {m' m'' : GameSharedData} {p p' : Pc}
      → Attack name dice x is_lucky_kill now m m' p
      → p ≢ playing
      → (call : Move m' p m'' p') → IsAt now call
      → Attack name dice x is_lucky_kill now m m'' p'

module _ (name : List ℕ) (dice : ℤ) (x : ℕ) (now : ℤ) (m : GameSharedData) where
  deal-Attack :
      (is_lucky_kill : Bool) (result : AttackResult) (m' : GameSharedData)
      → Attack name dice x is_lucky_kill now m m' (striking name result.dmg_dealt)
      → Attack name dice x is_lucky_kill now m (deal name result m').1 reporting
  unfolding deal
  deal-Attack is_lucky_kill result m' c =
      let hit : Attack name dice x is_lucky_kill now m
          (gamestate_apply_damage result.dmg_dealt (some name) m').1
          (after_strike (gamestate_apply_damage result.dmg_dealt (some name) m').0) =
        then_call c (λ e. ground arith) strike tt in
      elim (Bool-cases (gamestate_apply_damage result.dmg_dealt (some name) m').0) [
        | inl e ↦ rw e (then_call (rw e at hit) (λ e. ground arith) spawn tt)
        | inr e ↦ rw e (rw e at hit)
      ]

  resolve-Attack :
      (is_lucky_kill : Bool)
      → closed m ≡ false
      → Attack name dice x is_lucky_kill now m
          (resolve dice name now (die x) is_lucky_kill m).1
          reporting
  unfolding resolve
  resolve-Attack true c =
      deal-Attack true (lucky_result (die x)) _
        (then_call (rolled c) (λ e. ground arith) (mark now) refl)
  resolve-Attack false c =
      let first : Attack name dice x false now m m (aim name dice (die x) false) = rolled c in
      elim (Bool-cases (ltb_ℤ (die x) dice)) [
        | inl e ↦
            rw e (deal-Attack false _ _ (then_call (rw e at first) (λ e. ground arith) win tt))
        | inr e ↦ rw e (then_call (rw e at first) (λ e. ground arith) lose tt)
      ]

-- Whatever `rand` and the clock return: the memory that `game_process_attack` leaves is that of
-- one attack of one worker alone, call by call, from the main loop back to it: it is turned away,
-- or rolls this name's dice and the boss's dice and luck that `rand` gives, and makes the calls
-- that follow from them, with a lucky kill marked at the time of the clock.
pub game_process_attack-Attack :
    {R : Type 0} (rand : R → ℕ × R) (clock : R → ℤ) (dice : ℤ) (name : List ℕ) (r : R)
    (m : GameSharedData)
    → let (x, r1) = rand r in
      let (y, r2) = rand r1 in
      Attack name dice x
        (y % 1000000 == 0)
        (clock r2)
        m
        (game_process_attack rand clock dice name r m).3
        playing
unfolding game_process_attack
game_process_attack-Attack rand clock dice name r m = elim (Bool-cases (closed m)) [
  | inl e ↦ rw e (refused e)
  | inr e ↦ rw e (
      then_call
        (resolve-Attack name dice (rand r).0 (clock (rand (rand r).1).1) m
          ((rand (rand r).1).0 % 1000000 == 0) e)
        (λ e. ground arith) snapshot tt)
]
