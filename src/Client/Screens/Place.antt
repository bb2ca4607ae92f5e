-- ===== src/Client/Screens/Place.antt =====
-- What lies on a screen of so many rows and columns.
use world_boss_raid.Base.{
  ℕ, ◌+◌, ◌-◌, ◌/◌, ◌^◌, ◌≤◌, ◌<◌, ◌≡◌, ◌∙◌, ap, List, [], ◌∷◌, ◌++◌, arith, ℤ, pos, ◌+ℤ◌, ◌-ℤ◌,
  length, All,
}
use world_boss_raid.Client.Screens.{
  Item, text_at, char_at, hline_at, half, centred, centred_size_t, draw_art,
}

-- A row of the screen, and a column from which on `n` columns are on the screen.
abbrev pub IsRoom : ℕ → ℕ → ℤ → ℤ → ℕ → Type 0
IsRoom rows cols y x n =
    ((j : ℕ) × (y ≡ pos j) × (j < rows)) × ((k : ℕ) × (x ≡ pos k) × (k + n ≤ cols))

-- All of the item is on the screen.
abbrev pub IsOnScreen : ℕ → ℕ → Item → Type 0
IsOnScreen rows cols (text_at y x bs) = IsRoom rows cols y x (length bs)
IsOnScreen rows cols (char_at y x ch) = IsRoom rows cols y x 1
IsOnScreen rows cols (hline_at y x ch n) = IsRoom rows cols y x n

pub minus_pos : (a b : ℕ) → b ≤ a → pos a -ℤ pos b ≡ pos (a - b)
unfolding ◌-ℤ◌
minus_pos a b h = ground arith

pub plus_pos : (a b : ℕ) → pos a +ℤ pos b ≡ pos (a + b)
unfolding ◌+ℤ◌
plus_pos a b = ground arith

pub centred_lem : (cols n : ℕ) → n ≤ cols → centred cols n ≡ pos ((cols - n) / 2)
unfolding half
centred_lem cols n h = rw (minus_pos cols n h, half)

pub centred_size_t_lem :
    (cols n : ℕ) → n ≤ cols → cols < 2 ^ 31 → centred_size_t cols n ≡ pos ((cols - n) / 2)
unfolding centred_size_t
centred_size_t_lem cols n h k = ground arith

pub All-append :
    {A : Type 0} (P : A → Type 0) (xs ys : List A) → All P xs → All P ys → All P (xs ++ ys)
All-append P [] ys h k = k
All-append P (x ∷ xs) ys h k = (h.0, All-append P xs ys h.1 k)

-- A picture from row `j` on that has room, in lines that have.
pub draw_art-IsOnScreen :
    (rows cols j : ℕ) (y : ℤ) (lines : List (List ℕ))
    → y ≡ pos j
    → j + length lines ≤ rows
    → All (λ line. length line ≤ cols) lines
    → All (IsOnScreen rows cols) (draw_art y cols lines)
unfolding draw_art
draw_art-IsOnScreen rows cols j y [] e h w = tt
draw_art-IsOnScreen rows cols j y (line ∷ lines) e h w = (
  (
    (j, e, omega arith),
    ((cols - length line) / 2, centred_lem cols (length line) w.0, omega (arith, w.0)),
  ),
  draw_art-IsOnScreen rows cols (j + 1) (y +ℤ pos 1) lines (ap (λ z. z +ℤ pos 1) e ∙ plus_pos j 1)
      (omega arith) w.1,
)
