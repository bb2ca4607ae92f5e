-- ===== src/GameState/Streak/Runs.antt =====
-- Sequences of attacks by any players.
use world_boss_raid.Base.{
  ℕ, suc, ◌≡◌, refl, sym, ◌∙◌, ap, Bool, ◌&&◌, Option, none, some, List, [], ◌∷◌, inl, inr, arith,
  ℤ, pos, ◌+ℤ◌, eqb_ℤ, eq_of_parts, if◌then◌else◌, Bool-cases, All,
}
use world_boss_raid.Base.CString.{text, same_text, same_text-eq, same_text_of_eq}
use world_boss_raid.GameState.{PlayerHistory, update_players}
use world_boss_raid.GameState.Invariant.{IsValidTable, update_players-IsValidTable}
use world_boss_raid.GameState.Streak.Slots.{IsUsableName, record_of, next_record}
use world_boss_raid.GameState.Streak.Updates.{HasRoom, update_players_self, update_players_other}

-- The arguments of one call: the name, the dice, and whether the attack was won.
pub record Attempt : Type 0 where
  pub player : List ℕ
  pub dice : ℤ
  pub win : Bool

-- The calls in the order of the list.
unfoldable pub play : List Attempt → List PlayerHistory → List PlayerHistory
play [] ps = ps
play (a ∷ rest) ps = play rest (update_players a.player a.dice a.win ps).1

-- The player's own dice and results, the newest first, in front of what came before.
abbrev pub own_results : List ℕ → List Attempt → List (ℤ × Bool) → List (ℤ × Bool)
own_results name [] before = before
own_results name (a ∷ rest) before =
    own_results name rest (if same_text a.player name then (a.dice, a.win) ∷ before else before)

-- How many of the newest results in a row are wins with this dice.
abbrev pub run_length : ℤ → List (ℤ × Bool) → ℕ
run_length dice [] = 0
run_length dice ((d, win) ∷ rest) = if win && eqb_ℤ d dice then suc (run_length dice rest) else 0

-- The newest dice, and the length of its run.
abbrev pub last_run : List (ℤ × Bool) → Option (ℤ × ℤ)
last_run [] = none
last_run ((d, win) ∷ rest) = some (d, pos (run_length d ((d, win) ∷ rest)))

next_record-last_run :
    (dice : ℤ) (win : Bool) (results : List (ℤ × Bool))
    → some (next_record dice win (last_run results)) ≡ last_run ((dice, win) ∷ results)
unfolding ◌+ℤ◌
next_record-last_run dice win [] = ground arith
next_record-last_run dice win ((d, w) ∷ results) = elim (Bool-cases (eqb_ℤ d dice)) [
  | inl e ↦ let p : d ≡ dice = eq_of_parts d dice (ground arith) in rw p (ground arith)
  | inr e ↦ ground arith
]

abbrev pub AllUsable : List Attempt → Type 0
AllUsable = All (λ a. IsUsableName a.player)

same_text_of_text : (b n m : List ℕ) → text n ≡ text m → same_text b n ≡ same_text b m
same_text_of_text b n m e = elim (Bool-cases (same_text b n)) [
  | inl p ↦ p ∙ sym (same_text_of_eq b m (same_text-eq b n p ∙ e))
  | inr p ↦ elim (Bool-cases (same_text b m)) [
    | inl q ↦ same_text_of_eq b n (same_text-eq b m q ∙ sym e) ∙ sym q
    | inr q ↦ p ∙ sym q
  ]
]

record_of-text :
    (n m : List ℕ) (ps : List PlayerHistory) → text n ≡ text m → record_of n ps ≡ record_of m ps
unfolding record_of
record_of-text n m [] e = refl
record_of-text n m (p ∷ ps) e =
    ground (arith, same_text_of_text p.name n m e, record_of-text n m ps e)

-- One more attempt of the player or of another.
step-last_run :
    (name : List ℕ) (a : Attempt) (ps : List PlayerHistory) (r : ℤ × Bool)
    (results : List (ℤ × Bool))
    → IsUsableName a.player
    → IsValidTable ps
    → record_of name ps ≡ last_run (r ∷ results)
    → record_of name (update_players a.player a.dice a.win ps).1
      ≡ last_run (own_results name (a ∷ []) (r ∷ results))
step-last_run name a ps r results u v h = elim (Bool-cases (same_text a.player name)) [
  | inl e ↦
      let t = same_text-eq a.player name e in
      let q : record_of a.player ps ≡ last_run (r ∷ results) =
        record_of-text a.player name ps t ∙ h in
      let (self, _) = update_players_self a.player a.dice a.win ps u v (inl (ground (arith, q))) in
      rw e (
        sym (record_of-text a.player name _ t)
        ∙ self
        ∙ ap (λ o. some (next_record a.dice a.win o)) q
        ∙ next_record-last_run a.dice a.win (r ∷ results))
  | inr e ↦ rw e (
      update_players_other a.player a.dice a.win ps u v name
        (λ t. ground (arith, same_text_of_eq a.player name t))
      ∙ h)
]

play-last_run :
    (name : List ℕ) (attempts : List Attempt) (ps : List PlayerHistory) (r : ℤ × Bool)
    (results : List (ℤ × Bool))
    → AllUsable attempts
    → IsValidTable ps
    → record_of name ps ≡ last_run (r ∷ results)
    → record_of name (play attempts ps) ≡ last_run (own_results name attempts (r ∷ results))
unfolding play
play-last_run name [] ps r results all v h = h
play-last_run name (a ∷ rest) ps r results all v h =
    let w = update_players-IsValidTable a.player a.dice a.win ps v in
    let s = step-last_run name a ps r results all.0 v h in
    elim (Bool-cases (same_text a.player name)) [
      | inl e ↦ rw e (play-last_run name rest _ (a.dice, a.win) (r ∷ results) all.1 w (rw e at s))
      | inr e ↦ rw e (play-last_run name rest _ r results all.1 w (rw e at s))
    ]

-- A player with a usable name who is not in a well-formed table that has room: after the first
-- attempt and any further attempts of usable names, the player's record is the newest dice and how
-- many of the player's newest attempts in a row were won with it.
pub play_new-last_run :
    (first : Attempt) (attempts : List Attempt) (ps : List PlayerHistory)
    → IsUsableName first.player
    → AllUsable attempts
    → IsValidTable ps
    → HasRoom first.player ps
    → record_of first.player ps ≡ none
    → record_of first.player (play (first ∷ attempts) ps)
      ≡ last_run (own_results first.player attempts ((first.dice, first.win) ∷ []))
unfolding play
play_new-last_run first attempts ps u all v room new =
    let (self, _) = update_players_self first.player first.dice first.win ps u v room in
    play-last_run first.player attempts _ (first.dice, first.win) [] all
      (update_players-IsValidTable first.player first.dice first.win ps v)
      (self
        ∙ ap (λ o. some (next_record first.dice first.win o)) new
        ∙ next_record-last_run first.dice first.win [])
