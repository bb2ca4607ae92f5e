-- ===== src/Client/Login/Drawing/Places.antt =====
-- Where the login draws.
use world_boss_raid.Base.{
  ℕ, ◌+◌, ◌-◌, ◌/◌, ◌≤◌, ◌<◌, ◌≡◌, refl, ap, ◌∙◌, ◌⊎◌, inl, inr, Bool, true, false, List, [], ◌∷◌,
  arith, ℤ, pos, ◌+ℤ◌, ◌-ℤ◌, ◌≤ℤ◌, ltb_ℤ, leb_ℤ, length, All, Bool-cases,
}
use world_boss_raid.Client.Screens.{Item, text_at, char_at, hline_at, half}
use world_boss_raid.Client.Screens.Place.{IsRoom, IsOnScreen, minus_pos, plus_pos, All-append}
use world_boss_raid.Client.Login.Drawing.{
  big_sword_art, get_logo_width, not_negative, draw_lines, logo_left, draw_if, draw_swords,
  draw_decorations, draw_chars, login_row, box_row,
}

pub logo_x : (cols : ℕ) → not_negative (logo_left cols) ≡ pos (cols / 2 - 24)
unfolding ◌-ℤ◌
logo_x cols = ground arith

pub login_row_lem : (rows : ℕ) → 28 ≤ rows → login_row rows ≡ pos ((rows - 27) / 2)
unfolding half
login_row_lem rows h = rw (minus_pos rows 27 (omega arith), half) (ground arith)

pub box_row_lem : (rows : ℕ) → 28 ≤ rows → box_row rows ≡ pos ((rows - 27) / 2 + 20 + 4)
box_row_lem rows h =
    rw (login_row_lem rows h, plus_pos ((rows - 27) / 2) 20, plus_pos ((rows - 27) / 2 + 20) 4)

pub draw_lines-IsOnScreen :
    (rows cols j k : ℕ) (y x : ℤ) (lines : List (List ℕ))
    → y ≡ pos j
    → x ≡ pos k
    → j + length lines ≤ rows
    → All (λ line. k + length line ≤ cols) lines
    → All (IsOnScreen rows cols) (draw_lines y x lines)
unfolding draw_lines
draw_lines-IsOnScreen rows cols j k y x [] e f h w = tt
draw_lines-IsOnScreen rows cols j k y x (line ∷ lines) e f h w = (
  ((j, e, omega arith), (k, f, w.0)),
  draw_lines-IsOnScreen rows cols (j + 1) k (y +ℤ pos 1) x lines
      (ap (λ z. z +ℤ pos 1) e ∙ plus_pos j 1) f (omega arith) w.1,
)

pub draw_chars-IsOnScreen :
    (rows cols j k : ℕ) (y x : ℤ) (cs : List ℕ)
    → y ≡ pos j
    → x ≡ pos k
    → j < rows
    → k + length cs ≤ cols
    → All (IsOnScreen rows cols) (draw_chars y x cs)
unfolding draw_chars
draw_chars-IsOnScreen rows cols j k y x [] e f h w = tt
draw_chars-IsOnScreen rows cols j k y x (c ∷ cs) e f h w = (
  ((j, e, h), (k, f, omega arith)),
  draw_chars-IsOnScreen rows cols j (k + 1) y (x +ℤ pos 1) cs e
      (ap (λ z. z +ℤ pos 1) f ∙ plus_pos k 1) h (omega arith),
)

-- A text on the screen that ends 8 columns or more before the column of the logo, or begins 8 columns
-- or more behind it.
abbrev pub IsBesideLogo : ℕ → ℕ → Item → Type 0
IsBesideLogo rows cols (text_at y x bs) =
    IsRoom rows cols y x (length bs)
    × ((x +ℤ pos (length bs) +ℤ pos 8 ≤ℤ not_negative (logo_left cols))
        ⊎ (not_negative (logo_left cols) +ℤ pos get_logo_width +ℤ pos 8 ≤ℤ x))
IsBesideLogo rows cols (char_at y x ch) = ⊥
IsBesideLogo rows cols (hline_at y x ch n) = ⊥

-- The columns of a screen that has room for the sword on the left, or on the right.
room_left : (cols : ℕ) → ltb_ℤ (pos 0) (logo_left cols -ℤ pos 8 -ℤ pos 13) ≡ true → 46 ≤ cols / 2
unfolding ◌-ℤ◌
room_left cols l = ground (arith, l)

room_right :
    (cols : ℕ)
    → ltb_ℤ (logo_left cols +ℤ pos 49 +ℤ pos 8) (pos cols -ℤ pos 13) ≡ true
    → 46 ≤ cols / 2
unfolding ◌-ℤ◌ ◌+ℤ◌
room_right cols l = ground (arith, l)

left_sword :
    (rows cols j : ℕ) (y : ℤ) (line : List ℕ)
    → y ≡ pos j
    → j < rows
    → length line ≡ 13
    → ltb_ℤ (pos 0) (logo_left cols -ℤ pos 8 -ℤ pos 13) ≡ true
    → IsBesideLogo rows cols (text_at y (logo_left cols -ℤ pos 8 -ℤ pos 13) line)
left_sword rows cols j y line e h w l =
    let wide = room_left cols l in
    rw
      (
        logo_x cols,
        minus_pos (cols / 2) 24 (omega arith),
        minus_pos (cols / 2 - 24) 8 (omega arith),
        minus_pos (cols / 2 - 24 - 8) 13 (omega arith),
        w,
        plus_pos (cols / 2 - 24 - 8 - 13) 13,
        plus_pos (cols / 2 - 24 - 8 - 13 + 13) 8,
      )
      (((j, e, h), (cols / 2 - 24 - 8 - 13, refl, omega arith)), inl (omega arith))

right_sword :
    (rows cols j : ℕ) (y : ℤ) (line : List ℕ)
    → y ≡ pos j
    → j < rows
    → length line ≡ 13
    → ltb_ℤ (logo_left cols +ℤ pos 49 +ℤ pos 8) (pos cols -ℤ pos 13) ≡ true
    → IsBesideLogo rows cols (text_at y (logo_left cols +ℤ pos 49 +ℤ pos 8) line)
right_sword rows cols j y line e h w l =
    let wide = room_right cols l in
    rw
      (
        logo_x cols,
        minus_pos (cols / 2) 24 (omega arith),
        plus_pos (cols / 2 - 24) 49,
        plus_pos (cols / 2 - 24 + 49) 8,
        w,
      )
      (((j, e, h), (cols / 2 - 24 + 49 + 8, refl, omega arith)), inr (omega arith))

All-draw_if :
    (P : Item → Type 0) (b : Bool) (item : Item) → (b ≡ true → P item) → All P (draw_if b item)
All-draw_if P true item h = (h refl, tt)
All-draw_if P false item h = tt

draw_swords-IsBesideLogo :
    (rows cols j : ℕ) (y : ℤ) (lines : List (List ℕ))
    → y ≡ pos j
    → All (λ line. length line ≡ 13) lines
    → All (IsBesideLogo rows cols) (
        draw_swords rows cols
          (logo_left cols -ℤ pos 8 -ℤ pos 13)
          (logo_left cols +ℤ pos 49 +ℤ pos 8)
          y
          lines)
unfolding draw_swords
draw_swords-IsBesideLogo rows cols j y [] e w = tt
draw_swords-IsBesideLogo rows cols j y (line ∷ lines) e w = elim (Bool-cases (leb_ℤ (pos rows) y)) [
  | inl k ↦ rw k tt
  | inr k ↦
      let rest =
        draw_swords-IsBesideLogo rows cols (j + 1) (y +ℤ pos 1) lines
          (ap (λ z. z +ℤ pos 1) e ∙ plus_pos j 1) w.1 in
      rw k (
        All-append (IsBesideLogo rows cols) _ _
          (All-draw_if (IsBesideLogo rows cols) _ _ (left_sword rows cols j y line e (above k) w.0))
          (All-append (IsBesideLogo rows cols) _ _
            (All-draw_if (IsBesideLogo rows cols) _ _
              (right_sword rows cols j y line e (above k) w.0))
            rest))
]
  where
    above : leb_ℤ (pos rows) y ≡ false → j < rows
    above k = ground (arith, k, e)

-- Whatever the size of the screen: each line of a sword that is drawn lies on the screen, and ends 8
-- columns or more before the logo or begins 8 columns or more behind it.
pub draw_decorations-IsBesideLogo :
    (rows cols start_y : ℕ)
    → All (IsBesideLogo rows cols) (draw_decorations rows cols (pos start_y))
unfolding draw_decorations
draw_decorations-IsBesideLogo rows cols start_y =
    draw_swords-IsBesideLogo rows cols start_y _ big_sword_art refl (omega arith)

pub on_screen :
    (rows cols : ℕ) (items : List Item)
    → All (IsBesideLogo rows cols) items
    → All (IsOnScreen rows cols) items
on_screen rows cols [] h = tt
on_screen rows cols (text_at y x bs ∷ items) h = (h.0.0, on_screen rows cols items h.1)
on_screen rows cols (char_at y x ch ∷ items) h = absurd h.0
on_screen rows cols (hline_at y x ch n ∷ items) h = absurd h.0
