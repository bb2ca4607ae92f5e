-- ===== src/Security/InputValidator/Names.antt =====
-- Which usernames pass.
use world_boss_raid.Base.{
  ℕ, zero, suc, ◌<◌, ◌≡◌, ◌≢◌, ◌↔◌, refl, Bool, true, false, ◌||◌, List, [], ◌∷◌, arith, leb, ◌==◌,
  All, length, get_or, min, Bool-cases, inl, inr,
}
use world_boss_raid.Base.CString.{text, strnlen}
use world_boss_raid.Protocol.{max_player_name}
use world_boss_raid.GameState.Streak.{IsUsableName}
use world_boss_raid.Security.InputValidator.{allowed_char, all_allowed, input_validate_username}

abbrev pub IsAllowed : ℕ → Type 0
IsAllowed c = allowed_char c ≡ true

-- One to 31 characters before the first zero byte, each of them allowed.
pub record IsValidUsername (username : List ℕ) : Type 0 where
  pub not_empty : 0 < length (text username)
  pub short : length (text username) < max_player_name
  pub allowed : All IsAllowed (text username)

strnlen-eq-min : (bs : List ℕ) (n : ℕ) → strnlen bs n ≡ min n (length (text bs))
strnlen-eq-min bs zero = omega arith
strnlen-eq-min [] (suc n) = omega arith
strnlen-eq-min (zero ∷ bs) (suc n) = omega arith
strnlen-eq-min (suc b ∷ bs) (suc n) = omega (arith, strnlen-eq-min bs n)

all_allowed-text :
    (bs : List ℕ) → (all_allowed bs (length (text bs)) ≡ true) ↔ All IsAllowed (text bs)
unfolding all_allowed
all_allowed-text [] = (λ _. tt, λ _. refl)
all_allowed-text (zero ∷ bs) = (λ _. tt, λ _. refl)
all_allowed-text (suc b ∷ bs) = elim (Bool-cases (allowed_char (suc b))) [
  | inl e ↦ rw e (λ h. (refl, (all_allowed-text bs).0 h), λ h. (all_allowed-text bs).1 h.1)
  | inr e ↦ rw e (λ h. absurd (ground arith), λ h. h.0)
]

abbrev bad_length : ℕ → Bool
bad_length len = len == 0 || leb max_player_name len

bad_length-min : (n : ℕ) → bad_length (min 32 n) ≡ bad_length n
bad_length-min n = ground arith

good_length : (n : ℕ) → bad_length n ≡ false → (min 32 n ≡ n) × (0 < n) × (n < 32)
good_length n h = ground arith

-- The check passes exactly the valid usernames.
pub input_validate_username_iff :
    (username : List ℕ) → (input_validate_username username ≡ true) ↔ IsValidUsername username
unfolding input_validate_username
input_validate_username_iff username =
    rw (strnlen-eq-min username 32, bad_length-min (length (text username)))
      (elim (Bool-cases (bad_length (length (text username)))) [
        | inl e ↦
            rw e (λ h. absurd (ground arith), λ v. absurd (ground (arith, v.not_empty, v.short)))
        | inr e ↦
            let (same, pos, short) = good_length (length (text username)) e in
            rw (e, same)
              (
                λ h. record {
                  not_empty = pos;
                  short = short;
                  allowed = (all_allowed-text username).0 h;
                },
                λ v. (all_allowed-text username).1 v.allowed,
              )
      ])

first-of_text : (bs : List ℕ) → 0 < length (text bs) → get_or bs 0 0 ≢ 0
first-of_text [] h = absurd (omega arith)
first-of_text (zero ∷ bs) h = absurd (omega arith)
first-of_text (suc b ∷ bs) h = omega arith

-- A username that passes can have a record in the table of streaks.
pub input_validate_username-IsUsableName :
    (username : List ℕ) → input_validate_username username ≡ true → IsUsableName username
input_validate_username-IsUsableName username h =
    let v = (input_validate_username_iff username).0 h in
    (first-of_text username v.not_empty, omega (arith, v.short))
