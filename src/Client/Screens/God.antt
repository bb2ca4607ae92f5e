-- ===== src/Client/Screens/God.antt =====
-- src/client/ui/god.c: the crown and the falling stars of a lucky kill. The positions of the stars are
-- of the type float, which is a parameter.
pub mod Sky
use world_boss_raid.Base.{
  ℕ, zero, suc, ◌+◌, ◌-◌, ◌/◌, ◌%◌, Bool, Option, List, [], ◌∷◌, ◌++◌, ℤ, pos, ◌+ℤ◌, ◌-ℤ◌, ◌==◌,
  if◌then◌else◌, length, get_or,
}
use world_boss_raid.Client.Screens.{
  Item, text_at, char_at, hline_at, codes, Terminal, centred_size_t, draw_art, animate,
}

abbrev pub god_art : List (List ℕ)
god_art =
    codes "               .+.                   .+.                   .+.               "
    ∷ codes "             '.   .'               '.   .'               '.   .'             "
    ∷ codes "            (  `.'  )             (  `.'  )             (  `.'  )            "
    ∷ codes "             \\  |  /               \\  |  /               \\  |  /             "
    ∷ codes "              \\ | /                 \\ | /                 \\ | /              "
    ∷ codes "               \\|/                   \\|/                   \\|/               "
    ∷ codes "               / \\                   / \\                   / \\               "
    ∷ codes "              /   \\                 /   \\                 /   \\              "
    ∷ codes "             /     \\               /     \\               /     \\             "
    ∷ codes "        ____/       \\_____________/       \\_____________/       \\____        "
    ∷ codes "       /                                                                 \\       "
    ∷ codes "      |      [+]           [+]           [+]           [+]      |      "
    ∷ codes "      |                                                                 |      "
    ∷ codes "       \\_______________________________________________________________/       "
    ∷ codes "        \\_____________________________________________________________/        "
    ∷ codes "         \\___________________________________________________________/         "
    ∷ []

-- The type float, as far as it is used: the conversion from an int, `(float)n / 10.0` stored in a
-- float, the sum, the comparison with an int, and the conversion to int.
pub record Floats : Type 1 where
  pub Float : Type 0
  pub of_int : ℕ → Float
  pub tenths : ℕ → Float
  pub plus : Float → Float → Float
  pub at_least : Float → ℕ → Bool
  pub to_int : Float → ℤ

abbrev pub max_stars : ℕ
max_stars = 120

abbrev pub shapes : List ℕ
shapes = codes "*+..'"

abbrev pub chosen_msg : List ℕ
chosen_msg = codes "Congratulations, you are God's chosen one!!!"

abbrev pub god_hint : List ℕ
god_hint = codes " [ DIVINE INTERVENTION ACTIVE ] - PRESS SPACE "

-- A star without its colour.
pub record Star (floats : Floats) : Type 0 where
  pub y : floats.Float
  pub x : floats.Float
  pub speed : floats.Float
  pub ch : ℕ

-- The crown, and the texts below it.
unfoldable pub draw_crown : ℕ → ℕ → List Item
draw_crown rows cols =
    let start_art_y = pos (rows / 2) -ℤ pos (length god_art / 2) -ℤ pos 3 in
    let msg_x = centred_size_t cols (length chosen_msg) in
    let msg_y = start_art_y +ℤ pos (length god_art) +ℤ pos 2 in
    draw_art start_art_y cols god_art
    ++ (hline_at (msg_y -ℤ pos 1) (msg_x -ℤ pos 4) b'-' (length chosen_msg + 8)
        ∷ hline_at (msg_y +ℤ pos 1) (msg_x -ℤ pos 4) b'-' (length chosen_msg + 8)
        ∷ text_at msg_y msg_x chosen_msg
        ∷ text_at (pos rows -ℤ pos 2) (centred_size_t cols (length god_hint)) god_hint
        ∷ [])

module _ (floats : Floats) (terminal : Terminal) where
  open floats use {of_int, tenths, plus, at_least, to_int}
  open terminal use {Env, rand, getmaxyx}

  -- A new star, from five calls of `rand`, the last one for its colour.
  unfoldable pub new_star : ℕ → ℕ → Env → Star floats × Env
  new_star rows cols e =
      let (a, e1) = rand e in
      let (b, e2) = rand e1 in
      let (c, e3) = rand e2 in
      let (d, e4) = rand e3 in
      let (_, e5) = rand e4 in
      (
        record {
          y = of_int (a % rows);
          x = of_int (b % cols);
          speed = tenths (c % 5 + 2);
          ch = get_or shapes (d % 5) 0;
        },
        e5,
      )

  -- The loop that sets up `n` more stars.
  unfoldable pub new_stars : ℕ → ℕ → ℕ → Env → List (Star floats) × Env
  new_stars zero rows cols e = ([], e)
  new_stars (suc n) rows cols e =
      let (star, e1) = new_star rows cols e in
      let (stars, e2) = new_stars n rows cols e1 in (star ∷ stars, e2)

  -- A star that has been drawn: it falls, and starts again at the top where it leaves the rows.
  unfoldable pub fall : ℕ → ℕ → Star floats → Env → Star floats × Env
  fall rows cols star e =
      let y = plus star.y star.speed in
      let (a, e1) = rand e in
      let (b, e2) = rand e1 in
      if at_least y rows
      then (record star { y = of_int 0; x = of_int (a % cols); speed = tenths (b % 5 + 2) }, e2)
      else (record star { y = y }, e)

  -- The loop that draws the stars and moves them.
  unfoldable pub draw_stars :
      ℕ → ℕ → List (Star floats) → Env → List Item × List (Star floats) × Env
  draw_stars rows cols [] e = ([], [], e)
  draw_stars rows cols (star ∷ stars) e =
      let (moved, e1) = fall rows cols star e in
      let (items, stars1, e2) = draw_stars rows cols stars e1 in
      (char_at (to_int star.y) (to_int star.x) star.ch ∷ items, moved ∷ stars1, e2)

  -- One round of the loop.
  unfoldable pub god_frame : List (Star floats) → Env → List Item × List (Star floats) × Env
  god_frame stars e =
      let (rows, cols) = getmaxyx e in
      let (items, stars1, e1) = draw_stars rows cols stars e in
      (items ++ draw_crown rows cols, stars1, e1)

  unfoldable pub ui_show_god_screen : ℕ → Env → Option (List (List Item) × List (Star floats) × Env)
  ui_show_god_screen fuel e =
      let (rows, cols) = getmaxyx e in
      let (stars, e1) = new_stars max_stars rows cols e in
      animate terminal god_frame fuel (pos b' ') stars e1
