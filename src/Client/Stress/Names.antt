-- ===== src/Client/Stress/Names.antt =====
-- The names of the stress mode's threads.
use world_boss_raid.Base.{
  ℕ, ◌+◌, ◌/◌, ◌%◌, ◌<◌, ◌≡◌, ◌≢◌, refl, ap, true, List, [], ◌∷◌, arith, length, All, get_or,
}
use world_boss_raid.Base.CString.{text, text_of_nonzero}
use world_boss_raid.Security.InputValidator.{allowed_char, input_validate_username}
use world_boss_raid.Security.InputValidator.Names.{IsAllowed, input_validate_username_iff}
use world_boss_raid.Client.Stress.{bot_name}

digit-IsAllowed : (n : ℕ) → n < 10 → IsAllowed (48 + n)
unfolding allowed_char
digit-IsAllowed n h = ground (arith, h)

-- The characters of a name, without the zero byte.
abbrev bot_text : ℕ → List ℕ
bot_text id = 98 ∷ 111 ∷ 116 ∷ 95 ∷ (48 + id / 100 % 10) ∷ (48 + id / 10 % 10) ∷ (48 + id % 10) ∷ []

bot_text-nonzero : (id : ℕ) → All (λ b. b ≢ 0) (bot_text id)
bot_text-nonzero id = (
  λ e. omega arith,
  (
    λ e. omega arith,
    (
      λ e. omega arith,
      (λ e. omega arith, (λ e. omega arith, (λ e. omega arith, (λ e. omega arith, tt)))),
    ),
  ),
)

text-bot_name : (id : ℕ) → text (bot_name id) ≡ bot_text id
text-bot_name id = text_of_nonzero (bot_text id) [] (bot_text-nonzero id)

bot_text-IsAllowed : (id : ℕ) → All IsAllowed (bot_text id)
unfolding allowed_char
bot_text-IsAllowed id = (
  refl,
  (
    refl,
    (
      refl,
      (
        refl,
        (
          digit-IsAllowed (id / 100 % 10) (omega arith),
          (
            digit-IsAllowed (id / 10 % 10) (omega arith),
            (digit-IsAllowed (id % 10) (omega arith), tt),
          ),
        ),
      ),
    ),
  ),
)

valid_of_text :
    (name bs : List ℕ)
    → text name ≡ bs
    → 0 < length bs
    → length bs < 32
    → All IsAllowed bs
    → input_validate_username name ≡ true
valid_of_text name bs e h k a =
    (input_validate_username_iff name).1
      (record { not_empty = rw e h; short = rw e k; allowed = rw e a })

digits_of :
    (i j : ℕ)
    → i < 1000
    → j < 1000
    → 48 + i / 100 % 10 ≡ 48 + j / 100 % 10
    → 48 + i / 10 % 10 ≡ 48 + j / 10 % 10
    → 48 + i % 10 ≡ 48 + j % 10
    → i ≡ j
digits_of i j a b h t u = omega arith

-- The server allows the name of every bot with a number below 1000, and two of them with different
-- numbers have different names.
pub bot_name-IsUsable :
    (i j : ℕ)
    → i < 1000
    → j < 1000
    → i ≢ j
    → (input_validate_username (bot_name i) ≡ true) × (text (bot_name i) ≢ text (bot_name j))
bot_name-IsUsable i j a b differ = (
  valid_of_text (bot_name i) (bot_text i) (text-bot_name i) (omega arith) (omega arith)
      (bot_text-IsAllowed i),
  λ e. differ (
      digits_of i j a b (ap (λ xs. get_or xs 4 0) (rw (text-bot_name i, text-bot_name j) at e))
        (ap (λ xs. get_or xs 5 0) (rw (text-bot_name i, text-bot_name j) at e))
        (ap (λ xs. get_or xs 6 0) (rw (text-bot_name i, text-bot_name j) at e))),
)
