-- ===== src/Dice/Rules.antt =====
-- The rules of an attack: which damage the dice give to the boss and to the player, and that the
-- result fits the fields of the packet that reports it.
use world_boss_raid.Base.{
  ℕ, ◌+◌, ◌%◌, ◌≤◌, ◌<◌, ◌≡◌, refl, sym, subst, ◌⊎◌, inl, inr, Bool, true, false, List, arith, ℤ,
  pos, ◌*ℤ◌, ◌+ℤ◌, ◌≤ℤ◌, -ℤ_parts, ◌-ℤ◌, eq_of_parts, ltb_ℤ, leb_ℤ, ◌==◌, Bool-cases,
}
use world_boss_raid.GameState.{
  GameSharedData, gamestate_mark_lucky_kill, gamestate_apply_damage, gamestate_update_streak,
}
use world_boss_raid.GameState.Damage.{IsOpen}
use world_boss_raid.Dice.{
  AttackResult, deal, lucky_result, win_result, loss_result, resolve, game_process_attack,
}

-- What the dice allow, whatever the name, the streak and the state: a die of the boss; damage to the
-- boss of 2 to 5, 12 or 999999, exactly for a win; damage to the player of 12 to 16 or none, and none
-- for a win; and a critical hit exactly for a damage of 12 or more.
pub record IsVerdict (result : AttackResult) : Type 0 where
  pub boss : (pos 1 ≤ℤ result.boss_dice) × (result.boss_dice ≤ℤ pos 6)
  pub dealt :
      (result.dmg_dealt ≡ pos 0)
      ⊎ (((pos 2 ≤ℤ result.dmg_dealt) × (result.dmg_dealt ≤ℤ pos 5))
          ⊎ ((result.dmg_dealt ≡ pos 12) ⊎ (result.dmg_dealt ≡ pos 999999)))
  pub taken :
      (result.dmg_taken ≡ pos 0) ⊎ ((pos 12 ≤ℤ result.dmg_taken) × (result.dmg_taken ≤ℤ pos 16))
  pub win : result.is_win ≡ ltb_ℤ (pos 0) result.dmg_dealt
  pub untouched : (result.is_win ≡ false) ⊎ (result.dmg_taken ≡ pos 0)
  pub crit : result.is_crit ≡ leb_ℤ (pos 12) result.dmg_dealt

lucky_result-IsVerdict : (b : ℕ) → 1 ≤ b → b ≤ 6 → IsVerdict (lucky_result (pos b))
lucky_result-IsVerdict b h k = record {
  boss = (omega arith, omega arith);
  dealt = inr (inr (inr refl));
  taken = inl refl;
  win = refl;
  untouched = inr refl;
  crit = refl;
}

win_result-IsVerdict :
    (d b : ℕ) (streak : ℤ) → 1 ≤ b → b < d → d ≤ 6 → IsVerdict (win_result (pos d) (pos b) streak)
unfolding win_result ◌*ℤ◌
win_result-IsVerdict d b streak h k l = record {
  boss = ground arith;
  dealt = ground arith;
  taken = ground arith;
  win = ground arith;
  untouched = ground arith;
  crit = ground arith;
}

loss_result-IsVerdict : (d b : ℕ) → 1 ≤ d → d ≤ b → b ≤ 6 → IsVerdict (loss_result (pos d) (pos b))
unfolding loss_result ◌+ℤ◌
loss_result-IsVerdict d b h k l = record {
  boss = ground arith;
  dealt = ground arith;
  taken = ground arith;
  win = ground arith;
  untouched = ground arith;
  crit = ground arith;
}

-- The hit changes only whether the boss just died.
deal-result :
    (name : List ℕ) (result : AttackResult) (g : GameSharedData)
    → (deal name result g).0
      ≡ record result { boss_just_died = (deal name result g).0.boss_just_died }
unfolding deal
deal-result name result g = ground arith

deal-IsVerdict :
    (name : List ℕ) (result : AttackResult) (g : GameSharedData)
    → IsVerdict result
    → IsVerdict (deal name result g).0
deal-IsVerdict name result g v = subst IsVerdict (sym (deal-result name result g)) (record {
  boss = v.boss;
  dealt = v.dealt;
  taken = v.taken;
  win = v.win;
  untouched = v.untouched;
  crit = v.crit;
})

-- The boss just died, or it has lost the damage.
abbrev pub LosesDamage : AttackResult → GameSharedData → GameSharedData → Type 0
LosesDamage result g g' =
    (result.boss_just_died ≡ true) ⊎ (g'.current_hp ≡ g.current_hp -ℤ result.dmg_dealt)

deal-LosesDamage :
    (name : List ℕ) (result : AttackResult) (g : GameSharedData)
    → IsOpen g
    → let (result', g') = deal name result g in LosesDamage result' g g'
unfolding deal gamestate_apply_damage
deal-LosesDamage name result g o = ground arith

no_damage : (hp : ℤ) → hp ≡ hp -ℤ pos 0
no_damage hp = eq_of_parts hp (hp -ℤ pos 0) (omega (arith, -ℤ_parts hp (pos 0)))

pub resolve-IsVerdict :
    (d : ℕ) (name : List ℕ) (now : ℤ) (b : ℕ) (lucky : Bool) (g : GameSharedData)
    → 1 ≤ d
    → d ≤ 6
    → 1 ≤ b
    → b ≤ 6
    → IsOpen g
    → let (result, g') = resolve (pos d) name now (pos b) lucky g in
      IsVerdict result × LosesDamage result g g'
unfolding resolve gamestate_mark_lucky_kill gamestate_update_streak loss_result
resolve-IsVerdict d name now b true g h1 h2 h3 h4 o = (
  deal-IsVerdict name (lucky_result (pos b)) _ (lucky_result-IsVerdict b h3 h4),
  deal-LosesDamage name (lucky_result (pos b)) (gamestate_mark_lucky_kill now g) o,
)
resolve-IsVerdict d name now b false g h1 h2 h3 h4 o = elim (Bool-cases (ltb_ℤ (pos b) (pos d))) [
  | inl e ↦ rw e (
    deal-IsVerdict name _ _ (win_result-IsVerdict d b _ h3 (ground arith) h2),
    deal-LosesDamage name _ _ o,
  )
  | inr e ↦ rw e (loss_result-IsVerdict d b h1 (ground arith) h4, inr (no_damage g.current_hp))
]

-- A player's dice from 1 to 6 against a standing boss: the result of the attack is one that the rules
-- allow, and the boss just died or has lost exactly the damage that is reported.
pub game_process_attack-IsVerdict :
    {R : Type 0} (rand : R → ℕ × R) (clock : R → ℤ) (d : ℕ) (name : List ℕ) (r : R)
    (g : GameSharedData)
    → 1 ≤ d
    → d ≤ 6
    → IsOpen g
    → let (result, state, r', g') = game_process_attack rand clock (pos d) name r g in
      IsVerdict result × LosesDamage result g g'
unfolding game_process_attack
game_process_attack-IsVerdict rand clock d name r g h k o =
    simp (o.0, o.1)
      (resolve-IsVerdict d name (clock (rand (rand r).1).1) ((rand r).0 % 6 + 1)
        ((rand (rand r).1).0 % 1000000 == 0) g h k (omega arith) (omega arith) o)
