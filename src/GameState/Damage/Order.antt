-- ===== src/GameState/Damage/Order.antt =====
-- Hits on one boss without their order: what many workers do to it between two snapshots.
use mathlib.Core.Quot
use mathlib.Core.Quot.{Quot}
use mathlib.Core.List.{Perm, Permᴰ}
use mathlib.Core.Logic.{∥∥₁_elim}
use native.Mathlib.Nat.{ℕ_set}
use world_boss_raid.Base.{
  ℕ, suc, ◌-◌, ◌≡◌, refl, sym, ap, ◌∙◌, List, arith, pos, leb, if◌then◌else◌,
}
use world_boss_raid.GameState.{GameSharedData}
use world_boss_raid.GameState.Damage.{IsOpen, volley, total_damage, volley_open}

-- The hits as a multiset.
abbrev pub Hits : Type 0
Hits = Quot (Perm {A = ℕ × List ℕ})

abbrev pub of_list : List (ℕ × List ℕ) → Hits
of_list = Quot.mk

total_damage-Permᴰ :
    {hits hits' : List (ℕ × List ℕ)} → Permᴰ hits hits' → total_damage hits ≡ total_damage hits'
total_damage-Permᴰ Permᴰ.nil = refl
total_damage-Permᴰ (Permᴰ.cons e p) = omega (arith, ap (λ x. x.0) e, total_damage-Permᴰ p)
total_damage-Permᴰ (Permᴰ.swap e f) = omega (arith, ap (λ x. x.0) e, ap (λ x. x.0) f)
total_damage-Permᴰ (Permᴰ.trans p q) = total_damage-Permᴰ p ∙ total_damage-Permᴰ q

total_damage-Perm :
    (hits hits' : List (ℕ × List ℕ)) → Perm hits hits' → total_damage hits ≡ total_damage hits'
total_damage-Perm hits hits' p = ∥∥₁_elim p (ℕ_set _ _) total_damage-Permᴰ

-- The damage of all hits.
pub damage : Hits → ℕ
damage = Quot.lift ℕ_set total_damage total_damage-Perm

-- The abstract boss: how many hits report a kill, and the hit points that are left.
abbrev pub kills : ℕ → Hits → ℕ
kills hp hits = if leb hp (damage hits) then 1 else 0

abbrev pub hp_left : ℕ → Hits → ℕ
hp_left hp hits = hp - damage hits

-- Hits in a row, with no call between them, on a standing boss with hit points left: the kills that
-- the calls report and the hit points at the end are those of the abstract boss, which knows the
-- hits without their order.
pub volley-kills :
    (hits : List (ℕ × List ℕ)) (h : ℕ) (g : GameSharedData)
    → IsOpen g
    → g.current_hp ≡ pos (suc h)
    → ((volley hits g).0 ≡ kills (suc h) (of_list hits))
      × ((volley hits g).1.current_hp ≡ pos (hp_left (suc h) (of_list hits)))
unfolding damage
volley-kills hits h g o e = volley_open hits h g o e

-- Hits in a row on a standing boss with hit points left, with no other call between them: the same
-- hits in another order report the same number of kills and leave the same hit points.
pub volley-Perm :
    (hits hits' : List (ℕ × List ℕ)) (h : ℕ) (g : GameSharedData)
    → Perm hits hits'
    → IsOpen g
    → g.current_hp ≡ pos (suc h)
    → ((volley hits g).0 ≡ (volley hits' g).0)
      × ((volley hits g).1.current_hp ≡ (volley hits' g).1.current_hp)
volley-Perm hits hits' h g p o e =
    let (k, l) = volley-kills hits h g o e in
    let (k', l') = volley-kills hits' h g o e in
    let same : of_list hits ≡ of_list hits' = Quot.sound p in
    (k ∙ ap (kills (suc h)) same ∙ sym k', l ∙ ap (λ b. pos (hp_left (suc h) b)) same ∙ sym l')
