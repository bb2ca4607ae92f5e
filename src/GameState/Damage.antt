-- ===== src/GameState/Damage.antt =====
-- What an attack does to the boss: `gamestate_apply_damage` and `gamestate_spawn_next_boss`.
pub mod Order
use world_boss_raid.Base.{
  ℕ, suc, ◌+◌, ◌-◌, ◌≡◌, refl, Bool, true, false, Option, some, List, [], ◌∷◌, ◌⊎◌, arith, ℤ, pos,
  ◌-ℤ◌, leb, if◌then◌else◌,
}
use world_boss_raid.GameState.{
  stage_code, is_dead, GameSharedData, record_killer, gamestate_apply_damage,
  gamestate_spawn_next_boss,
}

-- The boss stands: an attack counts.
abbrev pub IsOpen : GameSharedData → Type 0
IsOpen g = (g.is_respawning ≡ false) × (is_dead g.stage ≡ false)

-- What a hit of `d` on a boss with `h` hit points returns and leaves behind: the boss falls exactly
-- if `h ≤ d`, no hit points go below zero, the killer's name is written exactly for the fatal hit.
abbrev pub HitResult : ℕ → ℕ → Option (List ℕ) → GameSharedData → Bool × GameSharedData → Type 0
HitResult h d name g (killed, g') =
    (killed ≡ leb h d)
    × (g'.current_hp ≡ pos (h - d))
    × (g'.is_respawning ≡ killed)
    × (g'.last_killer ≡ (if killed then record_killer name g.last_killer else g.last_killer))
    × (g'.stage ≡ g.stage)
    × (g'.max_hp ≡ g.max_hp)
    × (g'.online_count ≡ g.online_count)
    × (g'.players ≡ g.players)

-- A hit of `d ≥ 0` on a standing boss with `h` hit points: it returns whether `h ≤ d`, leaves
-- `h - d` hit points or zero, sets `is_respawning` and writes the killer's name if and only if it
-- returns true, and leaves the stage, the maximum, the number of players and the table.
pub gamestate_apply_damage-HitResult :
    (h d : ℕ) (name : Option (List ℕ)) (g : GameSharedData)
    → IsOpen g
    → g.current_hp ≡ pos h
    → HitResult h d name g (gamestate_apply_damage (pos d) name g)
unfolding gamestate_apply_damage ◌-ℤ◌
gamestate_apply_damage-HitResult h d name g open_boss e = ground arith

-- While the next boss is awaited, and after the end, an attack returns false and changes nothing.
pub gamestate_apply_damage_closed :
    (d : ℤ) (name : Option (List ℕ)) (g : GameSharedData)
    → ((g.is_respawning ≡ true) ⊎ (is_dead g.stage ≡ true))
    → gamestate_apply_damage d name g ≡ (false, g)
unfolding gamestate_apply_damage
gamestate_apply_damage_closed d name g h = ground arith

-- Hits one after the other, with no call between them: the number of calls that return true, and
-- the state at the end.
unfoldable pub volley : List (ℕ × List ℕ) → GameSharedData → ℕ × GameSharedData
volley [] g = (0, g)
volley ((d, name) ∷ hits) g =
    let (killed, g1) = gamestate_apply_damage (pos d) (some name) g in
    let (kills, g2) = volley hits g1 in ((if killed then suc kills else kills), g2)

-- The sum of the damage.
abbrev pub total_damage : List (ℕ × List ℕ) → ℕ
total_damage [] = 0
total_damage ((d, _) ∷ hits) = d + total_damage hits

volley_closed :
    (hits : List (ℕ × List ℕ)) (g : GameSharedData)
    → g.is_respawning ≡ true
    → volley hits g ≡ (0, g)
unfolding volley
volley_closed [] g h = refl
volley_closed ((d, name) ∷ hits) g h =
    ground (arith, gamestate_apply_damage_closed (pos d) (some name) g, volley_closed hits g)

-- Hits in a row on a standing boss with hit points left, none of them negative and with no call
-- between them: one call returns true if the damage adds up to the hit points, and none if not, and
-- the hit points left are those minus the damage, or zero.
pub volley_open :
    (hits : List (ℕ × List ℕ)) (h : ℕ) (g : GameSharedData)
    → IsOpen g
    → g.current_hp ≡ pos (suc h)
    → ((volley hits g).0 ≡ (if leb (suc h) (total_damage hits) then 1 else 0))
      × ((volley hits g).1.current_hp ≡ pos (suc h - total_damage hits))
unfolding volley
volley_open [] h g o e = ground arith
volley_open ((d, name) ∷ hits) h g o e = ground (
  arith,
  gamestate_apply_damage-HitResult (suc h) d (some name) g o e,
  volley_closed hits (gamestate_apply_damage (pos d) (some name) g).1,
  volley_open hits (h - d) (gamestate_apply_damage (pos d) (some name) g).1,
)

-- An attack as `game_process_attack` makes it: a kill is followed by the next boss.
unfoldable pub strike : ℕ × List ℕ → GameSharedData → Bool × GameSharedData
strike (d, name) g =
    let (killed, g1) = gamestate_apply_damage (pos d) (some name) g in
    (killed, (if killed then gamestate_spawn_next_boss g1 else g1))

unfoldable pub strikes : List (ℕ × List ℕ) → GameSharedData → ℕ × GameSharedData
strikes [] g = (0, g)
strikes (hit ∷ hits) g =
    let (killed, g1) = strike hit g in
    let (kills, g2) = strikes hits g1 in ((if killed then suc kills else kills), g2)

strike-stage_code :
    (hit : ℕ × List ℕ) (g : GameSharedData)
    → g.is_respawning ≡ false
    → (stage_code (strike hit g).1.stage ≡ stage_code g.stage + (if (strike hit g).0 then 1 else 0))
      × ((strike hit g).1.is_respawning ≡ false)
unfolding strike gamestate_apply_damage gamestate_spawn_next_boss
strike-stage_code (d, name) g r = ground arith

-- Hits in a row, a kill followed by the next boss, from a state with `is_respawning` clear: the stage
-- has advanced by the number of hits that returned true.
pub strikes-stage_code :
    (hits : List (ℕ × List ℕ)) (g : GameSharedData)
    → g.is_respawning ≡ false
    → (stage_code (strikes hits g).1.stage ≡ stage_code g.stage + (strikes hits g).0)
unfolding strikes
strikes-stage_code [] g r = omega arith
strikes-stage_code (hit ∷ hits) g r =
    ground (arith, strike-stage_code hit g r, strikes-stage_code hits (strike hit g).1)
