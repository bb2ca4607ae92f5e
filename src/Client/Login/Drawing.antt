-- ===== src/Client/Login/Drawing.antt =====
-- src/client/ui/login.c: what the login draws, without colours and pauses. The characters of the box
-- are those of the terminal.
pub mod Places
pub mod Window
use world_boss_raid.Base.{
  ℕ, zero, suc, ◌+◌, ◌*◌, ◌/◌, ◌%◌, Bool, true, false, List, [], ◌∷◌, ◌++◌, ℤ, pos, ◌+ℤ◌, ◌-ℤ◌,
  ltb_ℤ, leb_ℤ, ltb, ◌==◌, if◌then◌else◌, length, replicate,
}
use world_boss_raid.Base.CString.{text}
use world_boss_raid.Client.Screens.{
  Item, text_at, char_at, hline_at, codes, Terminal, half, centred_size_t,
}
use world_boss_raid.Client.Login.{box_width, welcome_msg}

abbrev pub title_art : List (List ℕ)
title_art =
    codes "__          __  ____    _____    _       _____  "
    ∷ codes "\\ \\        / /  / __ \\  |  __ \\  | |     |  __ \\ "
    ∷ codes " \\ \\  /\\  / /  | |  | | | |__) | | |     | |  | |"
    ∷ codes "  \\ \\/  \\/ /   | |  | | |  _  /  | |     | |  | |"
    ∷ codes "   \\  /\\  /    | |__| | | | \\ \\  | |____ | |__| |"
    ∷ codes "    \\/  \\/     \\____/   |_|  \\_\\ |______||_____/ "
    ∷ codes "                                                 "
    ∷ codes " ____     ____     ____    ____                  "
    ∷ codes " |  _ \\   / __ \\   / ___|  / ___|                "
    ∷ codes " | |_) | | |  | |  \\___ \\  \\___ \\                "
    ∷ codes " |  _ <  | |  | |   ___) |  ___) |               "
    ∷ codes " | |_) | | |__| |  |____/  |____/                "
    ∷ codes " |____/   \\____/                                 "
    ∷ codes "                                                 "
    ∷ codes " _____           _   _____                       "
    ∷ codes " |  __ \\   /\\    | | |  __ \\                     "
    ∷ codes " | |__) | /  \\   | | | |  | |                    "
    ∷ codes " |  _  / / /\\ \\  | | | |  | |                    "
    ∷ codes " | | \\ \\/ ____ \\ |_| | |__| |                    "
    ∷ codes " |_|  \\/_/    \\_\\(_) |_____/                     "
    ∷ []

abbrev pub big_sword_art : List (List ℕ)
big_sword_art =
    codes "      ^      "
    ∷ codes "     / \\     "
    ∷ codes "    /   \\    "
    ∷ codes "   /     \\   "
    ∷ codes "  |       |  "
    ∷ codes "  |   |   |  "
    ∷ codes "  |   |   |  "
    ∷ codes "  |   |   |  "
    ∷ codes "  |   |   |  "
    ∷ codes "  |   |   |  "
    ∷ codes "  |   |   |  "
    ∷ codes "   \\     /   "
    ∷ codes "    \\   /    "
    ∷ codes "     \\ /     "
    ∷ codes "  .--' '--.  "
    ∷ codes " /         \\ "
    ∷ codes "     | |     "
    ∷ codes "     | |     "
    ∷ codes "     | |     "
    ∷ codes "     | |     "
    ∷ codes "     | |     "
    ∷ codes "    /___\\    "
    ∷ []

-- The characters ACS_HLINE, ACS_VLINE and so on: a code with attributes above the low byte.
pub record LineChars : Type 0 where
  pub hline : ℕ
  pub vline : ℕ
  pub ulcorner : ℕ
  pub urcorner : ℕ
  pub llcorner : ℕ
  pub lrcorner : ℕ

abbrev pub get_logo_height : ℕ
get_logo_height = length title_art

-- The widest of the lines, and of `w`.
abbrev pub widest : ℕ → List (List ℕ) → ℕ
widest w [] = w
widest w (line ∷ lines) = widest (if ltb w (length line) then length line else w) lines

abbrev pub get_logo_width : ℕ
get_logo_width = widest 0 title_art

-- A column that `draw_logo` takes as 0 where it is negative; so for the first row of the login.
abbrev pub not_negative : ℤ → ℤ
not_negative z = if ltb_ℤ z (pos 0) then pos 0 else z

-- Lines below one another, in one column.
unfoldable pub draw_lines : ℤ → ℤ → List (List ℕ) → List Item
draw_lines y x [] = []
draw_lines y x (line ∷ lines) = text_at y x line ∷ draw_lines (y +ℤ pos 1) x lines

-- `logo_left_edge`
abbrev pub logo_left : ℕ → ℤ
logo_left cols = pos (cols / 2) -ℤ pos (get_logo_width / 2)

unfoldable pub draw_logo : ℕ → ℤ → List Item
draw_logo cols start_y = draw_lines start_y (not_negative (logo_left cols)) title_art

abbrev pub sword_width : ℕ
sword_width = 13

abbrev pub sword_padding : ℕ
sword_padding = 8

abbrev pub draw_if : Bool → Item → List Item
draw_if true item = item ∷ []
draw_if false item = []

-- The lines of the swords that are left, from row `y` on, until the screen ends.
unfoldable pub draw_swords : ℕ → ℕ → ℤ → ℤ → ℤ → List (List ℕ) → List Item
draw_swords rows cols left_sword_x right_sword_x y [] = []
draw_swords rows cols left_sword_x right_sword_x y (line ∷ lines) =
    let rest = draw_swords rows cols left_sword_x right_sword_x (y +ℤ pos 1) lines in
    if leb_ℤ (pos rows) y
    then []
    else draw_if (ltb_ℤ (pos 0) left_sword_x) (text_at y left_sword_x line)
      ++ (draw_if (ltb_ℤ right_sword_x (pos cols -ℤ pos sword_width)) (text_at y right_sword_x line)
          ++ rest)

unfoldable pub draw_decorations : ℕ → ℕ → ℤ → List Item
draw_decorations rows cols start_y =
    draw_swords rows cols (logo_left cols -ℤ pos sword_padding -ℤ pos sword_width)
      (logo_left cols +ℤ pos get_logo_width +ℤ pos sword_padding) start_y big_sword_art

-- Characters one after the other: `addch` puts one where the cursor stands, behind the last one.
unfoldable pub draw_chars : ℤ → ℤ → List ℕ → List Item
draw_chars y x [] = []
draw_chars y x (c ∷ cs) = char_at y x c ∷ draw_chars y (x +ℤ pos 1) cs

abbrev pub prompt : List ℕ
prompt = codes "ENTER YOUR NAME:"

-- The prompt, one character after the other where the buffer is empty.
unfoldable pub draw_prompt : ℤ → ℤ → List ℕ → List Item
draw_prompt y x buffer =
    if length (text buffer) == 0 then draw_chars y x prompt else (text_at y x prompt ∷ [])

-- What draw_input_box draws before it reads the line. The conversion of `%c` keeps the low byte.
unfoldable pub draw_input_box : LineChars → ℕ → ℤ → ℕ → List ℕ → List Item
draw_input_box acs cols y width buffer =
    let x = pos (cols / 2) -ℤ pos (width / 2) in
    (hline_at (y -ℤ pos 1) x acs.hline width
      ∷ char_at (y -ℤ pos 1) (x -ℤ pos 1) acs.ulcorner
      ∷ char_at (y -ℤ pos 1) (x +ℤ pos width) acs.urcorner
      ∷ char_at y (x -ℤ pos 1) (acs.vline % 256)
      ∷ [])
    ++ (draw_chars y x (replicate width b' ' ++ (acs.vline ∷ []))
        ++ ((hline_at (y +ℤ pos 1) x acs.hline width
              ∷ char_at (y +ℤ pos 1) (x -ℤ pos 1) acs.llcorner
              ∷ char_at (y +ℤ pos 1) (x +ℤ pos width) acs.lrcorner
              ∷ [])
            ++ draw_prompt (y -ℤ pos 2) (pos (cols / 2) -ℤ pos (length prompt / 2)) buffer))

-- `move(y, x + 1)`: the column of the cursor when the line is read.
abbrev pub input_x : ℕ → ℕ → ℤ
input_x cols width = pos (cols / 2) -ℤ pos (width / 2) +ℤ pos 1

-- The first row of the logo, and the row of the box.
abbrev pub login_row : ℕ → ℤ
login_row rows = not_negative (half (pos rows -ℤ pos (get_logo_height + 4 + 3)))

abbrev pub box_row : ℕ → ℤ
box_row rows = login_row rows +ℤ pos get_logo_height +ℤ pos 4

-- The greeting.
unfoldable pub draw_welcome : ℕ → ℕ → List ℕ → Item
draw_welcome rows cols player_name =
    let msg = welcome_msg player_name in
    text_at (box_row rows +ℤ pos 3) (centred_size_t cols (length msg)) msg

module _ (terminal : Terminal) where
  open terminal use {Env, rand, getmaxyx}

  -- A character of the animation, from its four calls of `rand`.
  unfoldable pub intro_char : ℕ → ℕ → Env → Item × Env
  intro_char rows cols e =
      let (a, e1) = rand e in
      let (b, e2) = rand e1 in
      let (c, e3) = rand e2 in
      let (d, e4) = rand e3 in
      let ch = if c % 2 == 0 then b'0' else b'1' in
      (char_at (pos (a % rows)) (pos (b % cols)) (if d % 15 == 0 then b'|' else ch), e4)

  unfoldable pub intro_chars : ℕ → ℕ → ℕ → Env → List Item × Env
  intro_chars zero rows cols e = ([], e)
  intro_chars (suc n) rows cols e =
      let (item, e1) = intro_char rows cols e in
      let (items, e2) = intro_chars n rows cols e1 in (item ∷ items, e2)

  -- 20 frames of 40 characters, none of which is erased before the end.
  unfoldable pub play_intro_animation : Env → List Item × Env
  play_intro_animation e = let (rows, cols) = getmaxyx e in intro_chars (20 * 40) rows cols e

  -- The animation, and what the login draws before it reads the line into an empty buffer.
  unfoldable pub draw_login : LineChars → List ℕ → Env → List Item × List Item × Env
  draw_login acs buffer e =
      let (intro, e1) = play_intro_animation e in
      let (rows, cols) = getmaxyx e1 in
      (
        intro,
        draw_logo cols (login_row rows)
            ++ (draw_decorations rows cols (login_row rows)
                ++ draw_input_box acs cols (box_row rows) box_width buffer),
        e1,
      )
