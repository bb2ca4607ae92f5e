-- ===== src/Client/Screens/God/Sky.antt =====
-- The stars of the lucky kill stay on the screen, and the crown with its texts fits.
use world_boss_raid.Base.{
  ℕ, zero, suc, ◌+◌, ◌-◌, ◌/◌, ◌^◌, ◌≤◌, ◌<◌, ◌≡◌, refl, inl, inr, Bool, true, false, List, [], ◌∷◌,
  arith, ℤ, pos, ◌+ℤ◌, All, Bool-cases,
}
use world_boss_raid.Client.Screens.{Terminal, draw_art}
use world_boss_raid.Client.Screens.Ending.{IsPressed, Ends, animate-Ends}
use world_boss_raid.Client.Screens.Place.{
  IsOnScreen, minus_pos, plus_pos, centred_size_t_lem, All-append, draw_art-IsOnScreen,
}
use world_boss_raid.Client.Screens.God.{
  god_art, Floats, Star, new_star, new_stars, fall, draw_stars, draw_crown, god_frame,
  ui_show_god_screen,
}

-- What the type float does to numbers that are not negative: the integers below 2^24 are exact, sums
-- stay without a sign, and the conversion to int cuts off.
pub record IsFloat (floats : Floats) : Type 0 where
  pub is_unsigned : floats.Float → Bool
  pub of_int_unsigned : (n : ℕ) → is_unsigned (floats.of_int n) ≡ true
  pub tenths_unsigned : (n : ℕ) → is_unsigned (floats.tenths n) ≡ true
  pub plus_unsigned :
      (f g : floats.Float)
      → is_unsigned f ≡ true
      → is_unsigned g ≡ true
      → is_unsigned (floats.plus f g) ≡ true
  pub of_int_below : (n m : ℕ) → n < m → m < 2 ^ 24 → floats.at_least (floats.of_int n) m ≡ false
  pub to_int_below :
      (f : floats.Float) (m : ℕ)
      → is_unsigned f ≡ true
      → floats.at_least f m ≡ false
      → (j : ℕ) × (floats.to_int f ≡ pos j) × (j < m)

crown_row : (n d : ℕ) → 24 ≤ n → pos (n / 2 - 8 - 3) +ℤ pos 16 +ℤ pos d ≡ pos (n / 2 + 5 + d)
unfolding ◌+ℤ◌
crown_row n d h = ground arith

-- The crown with its texts, on any screen of 24 rows and 81 columns or more.
draw_crown-IsOnScreen :
    (rows cols : ℕ)
    → 24 ≤ rows
    → 81 ≤ cols
    → cols < 2 ^ 31
    → All (IsOnScreen rows cols) (draw_crown rows cols)
unfolding draw_crown
draw_crown-IsOnScreen rows cols h k l =
    rw
      (
        minus_pos (rows / 2) 8 (omega arith),
        minus_pos (rows / 2 - 8) 3 (omega arith),
        minus_pos rows 2 (omega arith),
        centred_size_t_lem cols 44 (omega arith) l,
        centred_size_t_lem cols 46 (omega arith) l,
        crown_row rows 2 h,
        plus_pos (rows / 2 + 5 + 2) 1,
        minus_pos (rows / 2 + 5 + 2) 1 (omega arith),
        minus_pos ((cols - 44) / 2) 4 (omega arith),
      )
      (All-append (IsOnScreen rows cols) (draw_art (pos (rows / 2 - 8 - 3)) cols god_art) _
        (draw_art-IsOnScreen rows cols (rows / 2 - 8 - 3) _ god_art refl (omega arith)
          (omega arith))
        (
          ((_, refl, omega arith), (_, refl, omega arith)),
          (
            ((_, refl, omega arith), (_, refl, omega arith)),
            (
              ((_, refl, omega arith), (_, refl, omega arith)),
              (((_, refl, omega arith), (_, refl, omega arith)), tt),
            ),
          ),
        ))

module _ (floats : Floats) (law : IsFloat floats) (terminal : Terminal) (rows cols : ℕ) where
  open terminal use {Env, rand}

  -- A star on the screen.
  pub record IsInSky (star : Star floats) : Type 0 where
    pub y_unsigned : law.is_unsigned star.y ≡ true
    pub y_below : floats.at_least star.y rows ≡ false
    pub x_unsigned : law.is_unsigned star.x ≡ true
    pub x_below : floats.at_least star.x cols ≡ false
    pub speed_unsigned : law.is_unsigned star.speed ≡ true

  module _ (high : 24 ≤ rows) (wide : 81 ≤ cols) (low : rows < 2 ^ 24)
      (narrow : cols < 2 ^ 24) where
    new_star-IsInSky : (e : Env) → IsInSky (new_star floats terminal rows cols e).0
    unfolding new_star
    new_star-IsInSky e = record {
      y_unsigned = law.of_int_unsigned _;
      y_below = law.of_int_below _ rows (omega arith) low;
      x_unsigned = law.of_int_unsigned _;
      x_below = law.of_int_below _ cols (omega arith) narrow;
      speed_unsigned = law.tenths_unsigned _;
    }

    new_stars-IsInSky : (n : ℕ) (e : Env) → All IsInSky (new_stars floats terminal n rows cols e).0
    unfolding new_stars
    new_stars-IsInSky zero e = tt
    new_stars-IsInSky (suc n) e =
        (new_star-IsInSky e, new_stars-IsInSky n (new_star floats terminal rows cols e).1)

    fall-IsInSky :
        (star : Star floats) (e : Env)
        → IsInSky star
        → IsInSky (fall floats terminal rows cols star e).0
    unfolding fall
    fall-IsInSky star e v =
        elim (Bool-cases (floats.at_least (floats.plus star.y star.speed) rows)) [
          | inl k ↦ rw k (record {
            y_unsigned = law.of_int_unsigned 0;
            y_below = law.of_int_below 0 rows (omega arith) low;
            x_unsigned = law.of_int_unsigned _;
            x_below = law.of_int_below _ cols (omega arith) narrow;
            speed_unsigned = law.tenths_unsigned _;
          })
          | inr k ↦ rw k (record {
            y_unsigned = law.plus_unsigned star.y star.speed v.y_unsigned v.speed_unsigned;
            y_below = k;
            x_unsigned = v.x_unsigned;
            x_below = v.x_below;
            speed_unsigned = v.speed_unsigned;
          })
        ]

    draw_stars-IsOnScreen :
        (stars : List (Star floats)) (e : Env)
        → All IsInSky stars
        → All (IsOnScreen rows cols) (draw_stars floats terminal rows cols stars e).0
          × All IsInSky (draw_stars floats terminal rows cols stars e).1
    unfolding draw_stars
    draw_stars-IsOnScreen [] e v = (tt, tt)
    draw_stars-IsOnScreen (star ∷ stars) e v =
        let (j, y, a) = law.to_int_below star.y rows v.0.y_unsigned v.0.y_below in
        let (k, x, b) = law.to_int_below star.x cols v.0.x_unsigned v.0.x_below in
        let (items, kept) =
          draw_stars-IsOnScreen stars (fall floats terminal rows cols star e).1 v.1 in
        ((((j, y, a), (k, x, omega arith)), items), (fall-IsInSky star e v.0, kept))

  module _ (key : ℤ) (pressed : IsPressed terminal key) where
    new_star-left :
        (e : Env) → pressed.left (new_star floats terminal rows cols e).1 ≤ pressed.left e
    unfolding new_star
    new_star-left e = omega (
      arith,
      pressed.kept e,
      pressed.kept (rand e).1,
      pressed.kept (rand (rand e).1).1,
      pressed.kept (rand (rand (rand e).1).1).1,
      pressed.kept (rand (rand (rand (rand e).1).1).1).1,
    )

    new_stars-left :
        (n : ℕ) (e : Env)
        → pressed.left (new_stars floats terminal n rows cols e).1 ≤ pressed.left e
    unfolding new_stars
    new_stars-left zero e = omega arith
    new_stars-left (suc n) e =
        omega (arith, new_star-left e, new_stars-left n (new_star floats terminal rows cols e).1)

    fall-left :
        (star : Star floats) (e : Env)
        → pressed.left (fall floats terminal rows cols star e).1 ≤ pressed.left e
    unfolding fall
    fall-left star e = ground (arith, pressed.kept e, pressed.kept (rand e).1)

    draw_stars-left :
        (stars : List (Star floats)) (e : Env)
        → pressed.left (draw_stars floats terminal rows cols stars e).2 ≤ pressed.left e
    unfolding draw_stars
    draw_stars-left [] e = omega arith
    draw_stars-left (star ∷ stars) e =
        omega
          (arith, fall-left star e, draw_stars-left stars (fall floats terminal rows cols star e).1)

  module _ (high : 24 ≤ rows) (wide : 81 ≤ cols) (low : rows < 2 ^ 24) (narrow : cols < 2 ^ 24)
      (size : (e : Env) → terminal.getmaxyx e ≡ (rows, cols)) where
    god_frame-IsOnScreen :
        (stars : List (Star floats)) (e : Env)
        → All IsInSky stars
        → All (IsOnScreen rows cols) (god_frame floats terminal stars e).0
          × All IsInSky (god_frame floats terminal stars e).1
    unfolding god_frame
    god_frame-IsOnScreen stars e v =
        let (items, kept) = draw_stars-IsOnScreen high wide low narrow stars e v in
        rw (size e) (
          All-append (IsOnScreen rows cols) _ _ items
              (draw_crown-IsOnScreen rows cols high wide (omega arith)),
          kept,
        )

    god_frame-left :
        (key : ℤ) (pressed : IsPressed terminal key) (stars : List (Star floats)) (e : Env)
        → pressed.left (god_frame floats terminal stars e).2 ≤ pressed.left e
    unfolding god_frame
    god_frame-left key pressed stars e = rw (size e) (draw_stars-left key pressed stars e)

    -- The screen of a lucky kill, in a window whose size stays the same and has at least 24 rows
    -- and 81 columns and fewer than 2^24 of each, for a type float that keeps numbers of that
    -- size, if the player presses the space at some time and the fuel covers the calls of getch
    -- before it: the animation ends, all that it has drawn, the stars, the crown and the texts,
    -- lies on the screen, and so do the stars that are left.
    pub ui_show_god_screen-IsOnScreen :
        (pressed : IsPressed terminal (pos b' ')) (fuel : ℕ) (e : Env)
        → pressed.left e < fuel
        → Ends
            (All (IsOnScreen rows cols))
            (All IsInSky)
            (ui_show_god_screen floats terminal fuel e)
    unfolding ui_show_god_screen
    ui_show_god_screen-IsOnScreen pressed fuel e h = rw (size e) (
        animate-Ends terminal (god_frame floats terminal) (pos b' ') pressed
          (All (IsOnScreen rows cols)) (All IsInSky) god_frame-IsOnScreen
          (god_frame-left (pos b' ') pressed) fuel _ _
          (omega (arith, new_stars-left (pos b' ') pressed 120 e))
          (new_stars-IsInSky high wide low narrow 120 e))
