-- ===== src/GameState/Streak/Slots.antt =====
-- The table seen as a map from names to records.
use world_boss_raid.Base.{
  ℕ, zero, suc, ◌≤◌, ◌<◌, ◌≡◌, ◌≢◌, refl, sym, ap, ◌∙◌, Bool, true, false, ◌&&◌, Option, none, some,
  List, [], ◌∷◌, inl, inr, arith, ℤ, pos, ◌+ℤ◌, eqb_ℤ, if◌then◌else◌, get_or, set, length,
  Bool-cases, Option-cases,
}
use world_boss_raid.Base.CString.{text, same_text, same_text-eq, same_text_of_eq}
use world_boss_raid.GameState.{PlayerHistory, empty_history, in_use, find_player, find_empty}

-- A name that the table can hold: not empty, and at most 31 bytes.
abbrev pub IsUsableName : List ℕ → Type 0
IsUsableName name = (get_or name 0 0 ≢ 0) × (length (text name) ≤ 31)

-- The dice and the streak of a player, if the player is in the table.
unfoldable pub record_of : List ℕ → List PlayerHistory → Option (ℤ × ℤ)
record_of name [] = none
record_of name (p ∷ ps) =
    if in_use p && same_text p.name name
    then some (p.last_dice, p.streak_count)
    else record_of name ps

-- What a record becomes by an attack of its player, as a function of the record before.
abbrev pub next_record : ℤ → Bool → Option (ℤ × ℤ) → ℤ × ℤ
next_record dice win none =
    (dice, (if win then (if eqb_ℤ (pos 0) dice then pos 0 +ℤ pos 1 else pos 1) else pos 0))
next_record dice win (some (last, streak)) =
    (dice, (if win then (if eqb_ℤ last dice then streak +ℤ pos 1 else pos 1) else pos 0))

abbrev pub matches : List ℕ → PlayerHistory → Bool
matches name p = in_use p && same_text p.name name

pub record_of-found :
    (name : List ℕ) (ps : List PlayerHistory) (i : ℕ)
    → find_player name ps ≡ some i
    → record_of name ps
      ≡ some ((get_or ps i empty_history).last_dice, (get_or ps i empty_history).streak_count)
unfolding find_player record_of
record_of-found name [] i h = cc
record_of-found name (p ∷ ps) i h = elim (Bool-cases (matches name p)) [
  | inl e ↦ ground arith
  | inr e ↦ elim (Option-cases (find_player name ps)) [
    | inl f ↦ ground arith
    | inr (j, f) ↦ ground (arith, record_of-found name ps j f)
  ]
]

pub record_of-missing :
    (name : List ℕ) (ps : List PlayerHistory)
    → find_player name ps ≡ none
    → record_of name ps ≡ none
unfolding find_player record_of
record_of-missing name [] h = refl
record_of-missing name (p ∷ ps) h = ground (arith, record_of-missing name ps)

pub found-matches :
    (name : List ℕ) (ps : List PlayerHistory) (i : ℕ)
    → find_player name ps ≡ some i
    → matches name (get_or ps i empty_history) ≡ true
unfolding find_player
found-matches name [] i h = cc
found-matches name (p ∷ ps) i h = elim (Bool-cases (matches name p)) [
  | inl e ↦ ground arith
  | inr e ↦ elim (Option-cases (find_player name ps)) [
    | inl f ↦ ground arith
    | inr (j, f) ↦ ground (arith, found-matches name ps j f)
  ]
]

-- A write to the slot that the name is found in.
pub record_of-set_found :
    (name : List ℕ) (ps : List PlayerHistory) (i : ℕ) (q : PlayerHistory)
    → find_player name ps ≡ some i
    → matches name q ≡ true
    → record_of name (set ps i q) ≡ some (q.last_dice, q.streak_count)
unfolding find_player record_of
record_of-set_found name [] i q h m = cc
record_of-set_found name (p ∷ ps) i q h m = elim (Bool-cases (matches name p)) [
  | inl e ↦ ground arith
  | inr e ↦ elim (Option-cases (find_player name ps)) [
    | inl f ↦ ground arith
    | inr (j, f) ↦ ground (arith, record_of-set_found name ps j q f m)
  ]
]

-- A write to an empty slot, for a name that is nowhere found.
pub record_of-set_empty :
    (name : List ℕ) (ps : List PlayerHistory) (i : ℕ) (q : PlayerHistory)
    → find_player name ps ≡ none
    → find_empty ps ≡ some i
    → matches name q ≡ true
    → record_of name (set ps i q) ≡ some (q.last_dice, q.streak_count)
unfolding find_player find_empty record_of
record_of-set_empty name [] i q h e m = cc
record_of-set_empty name (p ∷ ps) i q h e m = elim (Option-cases (find_empty ps)) [
  | inl f ↦ ground arith
  | inr (j, f) ↦ ground (arith, record_of-set_empty name ps j q)
]

pub empty-in_use :
    (ps : List PlayerHistory) (i : ℕ)
    → find_empty ps ≡ some i
    → (in_use (get_or ps i empty_history) ≡ false) × (i < length ps)
unfolding find_empty
empty-in_use [] i e = cc
empty-in_use (p ∷ ps) i e = elim (Option-cases (find_empty ps)) [
  | inl f ↦ ground arith
  | inr (j, f) ↦ ground (arith, empty-in_use ps j)
]

-- A write that changes a record of somebody else.
pub record_of-set_other :
    (name : List ℕ) (ps : List PlayerHistory) (i : ℕ) (q : PlayerHistory)
    → matches name (get_or ps i empty_history) ≡ false
    → matches name q ≡ false
    → record_of name (set ps i q) ≡ record_of name ps
unfolding record_of
record_of-set_other name [] i q h m = refl
record_of-set_other name (p ∷ ps) zero q h m = ground arith
record_of-set_other name (p ∷ ps) (suc i) q h m =
    ground (arith, record_of-set_other name ps i q h m)

pub set-set :
    (ps : List PlayerHistory) (i : ℕ) (p q : PlayerHistory) → set (set ps i p) i q ≡ set ps i q
set-set [] i p q = refl
set-set (r ∷ ps) zero p q = refl
set-set (r ∷ ps) (suc i) p q = ap (λ l. r ∷ l) (set-set ps i p q)

pub get_or-set_self :
    (ps : List PlayerHistory) (i : ℕ) (p d : PlayerHistory)
    → i < length ps
    → get_or (set ps i p) i d ≡ p
get_or-set_self [] i p d h = elim h [ ]
get_or-set_self (r ∷ ps) zero p d h = refl
get_or-set_self (r ∷ ps) (suc i) p d h = get_or-set_self ps i p d (omega arith)

-- A name with the text of a usable name is in use.
first-of_text : (a b : List ℕ) → text a ≡ text b → get_or b 0 0 ≢ 0 → get_or a 0 0 ≢ 0
first-of_text a [] e u = absurd (u refl)
first-of_text a (zero ∷ b) e u = absurd (u refl)
first-of_text [] (suc c ∷ b) e u = cc
first-of_text (zero ∷ a) (suc c ∷ b) e u = cc
first-of_text (suc d ∷ a) (suc c ∷ b) e u = omega arith

pub matches_of_text :
    (name : List ℕ) (p : PlayerHistory)
    → IsUsableName name
    → text p.name ≡ text name
    → matches name p ≡ true
matches_of_text name p u e =
    ground (arith, first-of_text p.name name e, same_text_of_eq p.name name e)

pub matches_other :
    (name other : List ℕ) (p : PlayerHistory)
    → text name ≢ text other
    → text p.name ≡ text name
    → matches other p ≡ false
matches_other name other p ne e = elim (Bool-cases (same_text p.name other)) [
  | inl s ↦ absurd (ne (sym e ∙ same_text-eq p.name other s))
  | inr s ↦ ground arith
]
