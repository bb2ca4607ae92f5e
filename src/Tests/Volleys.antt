-- ===== src/Tests/Volleys.antt =====
-- Hits of two players on the first boss.
use mathlib.Core.List.Perm
use world_boss_raid.Base.{ℕ, ◌≡◌, refl, List, [], ◌∷◌}
use world_boss_raid.GameState.{gamestate_init}
use world_boss_raid.GameState.Damage.{volley}
use world_boss_raid.GameState.Damage.Order.{volley-Perm}

abbrev ann_first : List (ℕ × List ℕ)
ann_first = (400, 97 ∷ []) ∷ (12, 98 ∷ []) ∷ []

abbrev bob_first : List (ℕ × List ℕ)
bob_first = (12, 98 ∷ []) ∷ (400, 97 ∷ []) ∷ []

volley-Perm_example :
    ((volley ann_first gamestate_init).0 ≡ (volley bob_first gamestate_init).0)
    × ((volley ann_first gamestate_init).1.current_hp
        ≡ (volley bob_first gamestate_init).1.current_hp)
unfolding gamestate_init
volley-Perm_example =
    volley-Perm ann_first bob_first 999 gamestate_init (Perm.swap (12, 98 ∷ []) (400, 97 ∷ []) [])
      (refl, refl) refl
