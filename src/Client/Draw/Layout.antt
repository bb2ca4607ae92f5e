-- ===== src/Client/Draw/Layout.antt =====
-- Where the parts of the client's screen lie.
use world_boss_raid.Base.{
  ℕ, suc, ◌+◌, ◌-◌, ◌/◌, ◌≡◌, false, Bool-cases, inl, inr, ◌⊎◌, Option, none, some, List, [], ◌∷◌,
  ℤ, pos, ◌+ℤ◌, ◌-ℤ◌, ◌≤ℤ◌, ◌<ℤ◌, +ℤ_parts, -ℤ_parts, ltb_ℤ, leb, leb→le, ap, arith, length, All,
}
use world_boss_raid.Base.CString.{text}
use world_boss_raid.Client.Draw.{
  Drawn, Figure, art_line, cut_newline, art_lines, draw_boss_art, player_name_x,
}

-- Room for so many columns at `x`, with more than three behind the dice and three before the log.
abbrev pub HasRoom : ℤ → ℤ → ℕ → ℤ → Type 0
HasRoom dice_end log_start len x = (dice_end +ℤ pos 3 <ℤ x) × (x +ℤ pos len +ℤ pos 3 ≤ℤ log_start)

-- A column with room, or none because there is none.
unfoldable pub IsPlace : ℤ → ℤ → ℕ → Option ℤ → Type 0
IsPlace dice_end log_start len (some x) = HasRoom dice_end log_start len x
IsPlace dice_end log_start len none = (x : ℤ) → ¬ HasRoom dice_end log_start len x

-- The player's name is drawn more than three columns behind the dice, and ends three columns or more
-- before the log; it is left out only if no column has that room.
pub player_name_x-IsPlace :
    (dice_end log_start : ℤ) (len : ℕ)
    → IsPlace dice_end log_start len (player_name_x dice_end log_start len)
unfolding player_name_x IsPlace
player_name_x-IsPlace d l n = elim (Bool-cases (ltb_ℤ (d +ℤ pos 5 +ℤ pos n +ℤ pos 3) l)) [
  | inl a ↦ simp a (
      ground (
        arith,
        +ℤ_parts d (pos 3),
        +ℤ_parts d (pos 5),
        +ℤ_parts (d +ℤ pos 5) (pos n),
        +ℤ_parts (d +ℤ pos 5 +ℤ pos n) (pos 3),
        a,
      ))
  | inr a ↦ elim (Bool-cases (ltb_ℤ (d +ℤ pos 3) (l -ℤ pos n -ℤ pos 3))) [
    | inl b ↦
        simp (a, b)
          (ground (
            arith,
            -ℤ_parts l (pos n),
            -ℤ_parts (l -ℤ pos n) (pos 3),
            +ℤ_parts (l -ℤ pos n -ℤ pos 3) (pos n),
            +ℤ_parts (l -ℤ pos n -ℤ pos 3 +ℤ pos n) (pos 3),
            b,
          ))
    | inr b ↦
        simp (a, b)
          (λ x h. ground (
            arith,
            -ℤ_parts l (pos n),
            -ℤ_parts (l -ℤ pos n) (pos 3),
            +ℤ_parts x (pos n),
            +ℤ_parts (x +ℤ pos n) (pos 3),
            b,
            h.0,
            h.1,
          ))
  ]
]

-- The text of a line of art.
abbrev pub line_of : Figure → List ℕ
line_of (art_line bs) = bs
line_of _ = []

-- A line of the art above the panel, which begins seven rows before the end of the screen, with a row
-- between them, and within the columns or from the first of them.
unfoldable pub IsInside : ℕ → ℕ → Drawn → Type 0
IsInside rows cols drawn =
    (drawn.row +ℤ pos 1 <ℤ pos rows -ℤ pos 7)
    × ((drawn.col ≡ pos 0) ⊎ (drawn.col +ℤ pos (length (line_of drawn.figure)) ≤ℤ pos cols))

line-IsInside :
    (rows cols y : ℕ) (bs : List ℕ)
    → leb rows (y + 8) ≡ false
    → IsInside rows cols
        (record { row = pos y; col = pos ((cols - length bs) / 2); figure = art_line bs })
unfolding IsInside
line-IsInside rows cols y bs h = (
  ground (arith, +ℤ_parts (pos y) (pos 1), -ℤ_parts (pos rows) (pos 7), h),
  elim (Bool-cases (leb (length bs) cols)) [
    | inl l ↦ inr (
        omega (
          arith,
          +ℤ_parts (pos ((cols - length bs) / 2)) (pos (length bs)),
          leb→le (length bs) cols l,
        ))
    | inr l ↦ inl (ap pos (ground (arith, l)))
  ],
)

art_lines-IsInside :
    (rows cols y : ℕ) (lines : List (List ℕ))
    → All (IsInside rows cols) (art_lines rows cols y lines)
unfolding art_lines
art_lines-IsInside rows cols y [] = tt
art_lines-IsInside rows cols y (line ∷ lines) = elim (Bool-cases (leb rows (y + 8))) [
  | inl e ↦ simp e tt
  | inr e ↦ simp e (
    line-IsInside rows cols y (text (cut_newline line)) e,
    art_lines-IsInside rows cols (suc y) lines,
  )
]

-- Each line of a file that draw_boss_art draws lies above the panel of draw_ui with a row between them,
-- and within the columns, or it begins in the first column.
pub draw_boss_art-IsInside :
    (rows cols : ℕ) (lines : List (List ℕ))
    → All (IsInside rows cols) (draw_boss_art rows cols (some lines))
unfolding draw_boss_art
draw_boss_art-IsInside rows cols lines = art_lines-IsInside rows cols 0 lines
