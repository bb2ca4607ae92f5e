-- ===== src/Client/Screens.antt =====
-- The full-screen animations of src/client/ui (bonus.c, god.c and end.c) share their shape: a loop
-- around `getch`, a picture in ASCII that is centred, and lines of text. This is what they share.
-- Colours and attributes are left out.
pub mod Bonus
pub mod Ending
pub mod God
pub mod Place
pub mod Victory
use Prim.Native.Char.{code}
use Prim.Native.String.{String}
use world_boss_raid.Base.{
  ℕ, zero, suc, ◌+◌, ◌-◌, ◌/◌, ◌%◌, ◌^◌, Option, none, some, List, [], ◌∷◌, ℤ, pos, negsuc, ◌+ℤ◌,
  ◌-ℤ◌, eqb_ℤ, if◌then◌else◌, length,
}
use world_boss_raid.Protocol.Wire.{of_u32}

-- What is drawn: mvprintw, mvaddch and mvhline, with the row and the column.
pub data Item : Type 0 where
  text_at : ℤ → ℤ → List ℕ → Item
  char_at : ℤ → ℤ → ℕ → Item
  hline_at : ℤ → ℤ → ℕ → ℕ → Item

-- The bytes of a literal.
abbrev pub codes : String → List ℕ
codes String.[] = []
codes (String.◌∷◌ c s) = code c ∷ codes s

-- ncurses and `rand` on a state of the environment: `getmaxyx` gives the rows and the columns, `getch`
-- a key or -1 when its timeout is over.
pub record Terminal : Type 1 where
  pub Env : Type 0
  pub rand : Env → ℕ × Env
  pub getch : Env → ℤ × Env
  pub getmaxyx : Env → ℕ × ℕ

-- `n / 2` of an int, which rounds towards zero.
unfoldable pub half : ℤ → ℤ
half (pos n) = pos (n / 2)
half (negsuc n) = pos 0 -ℤ pos (suc n / 2)

-- `(cols - len) / 2` with an int `len`.
abbrev pub centred : ℕ → ℕ → ℤ
centred cols len = half (pos cols -ℤ pos len)

-- `(cols - strlen(s)) / 2` as an int argument: the subtraction and the division are those of the
-- 64-bit size_t, and the low 32 bits are the argument.
unfoldable pub centred_size_t : ℕ → ℕ → ℤ
centred_size_t cols len = of_u32 ((cols + 2 ^ 64 - len) % 2 ^ 64 / 2 % 2 ^ 32)

-- The lines of a picture from a row on, each centred.
unfoldable pub draw_art : ℤ → ℕ → List (List ℕ) → List Item
draw_art y cols [] = []
draw_art y cols (line ∷ lines) =
    text_at y (centred cols (length line)) line ∷ draw_art (y +ℤ pos 1) cols lines

-- A frame before those that follow it, if they end.
abbrev pub add_frame :
    {S E : Type 0}
    → List Item
    → Option (List (List Item) × S × E)
    → Option (List (List Item) × S × E)
add_frame drawn none = none
add_frame drawn (some (frames, s, e)) = some (drawn ∷ frames, s, e)

module _ (terminal : Terminal) {S : Type 0}
    (frame : S → terminal.Env → List Item × S × terminal.Env) where
  open terminal use {Env, getch}

  -- `while ((ch = getch()) != stop)`: the frames that are drawn, or none if the fuel is used up.
  unfoldable pub animate : ℕ → ℤ → S → Env → Option (List (List Item) × S × Env)
  animate zero stop s e = none
  animate (suc fuel) stop s e =
      let (ch, e1) = getch e in
      let (drawn, s1, e2) = frame s e1 in
      let rest = animate fuel stop s1 e2 in
      if eqb_ℤ ch stop then some ([], s, e1) else add_frame drawn rest
