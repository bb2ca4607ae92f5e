-- ===== src/Tests/Animations.antt =====
-- The full-screen animations in a window of 30 rows and 90 columns.
use world_boss_raid.Base.{
  ℕ, zero, suc, ◌+◌, ◌*◌, ◌/◌, ◌<◌, ◌≡◌, refl, true, false, List, [], ◌∷◌, arith, ℤ, pos, negsuc,
  leb, eqb_ℤ, All,
}
use world_boss_raid.Client.Screens.{Terminal}
use world_boss_raid.Client.Screens.Ending.{IsPressed, Ends}
use world_boss_raid.Client.Screens.Place.{IsOnScreen}
use world_boss_raid.Client.Screens.God.{Floats, ui_show_god_screen}
use world_boss_raid.Client.Screens.God.Sky.{IsFloat, IsInSky, ui_show_god_screen-IsOnScreen}
use world_boss_raid.Client.Login.Drawing.{LineChars, draw_login, draw_welcome}
use world_boss_raid.Client.Login.Drawing.Window.{draw_login-IsOnScreen}

-- The timeouts before the key comes, and the numbers of `rand`.
abbrev wait_for : ℤ → ℕ × ℕ → ℤ × (ℕ × ℕ)
wait_for key (zero, r) = (key, (zero, r))
wait_for key (suc n, r) = (negsuc 0, (n, r))

abbrev window : ℤ → Terminal
window key = record {
  Env = ℕ × ℕ;
  rand = λ e. (e.1 * 7919, (e.0, e.1 + 1));
  getch = wait_for key;
  getmaxyx = λ e. (30, 90);
}

space_closer :
    (e : ℕ × ℕ)
    → eqb_ℤ (wait_for (pos b' ') e).0 (pos b' ') ≡ false
    → (wait_for (pos b' ') e).1.0 < e.0
space_closer (zero, r) h = absurd (ground arith)
space_closer (suc n, r) h = omega arith

abbrev space_pressed : IsPressed (window (pos b' ')) (pos b' ')
space_pressed = record { left = λ e. e.0; closer = space_closer; kept = λ e. omega arith }

-- Numbers of tenths in place of floats.
abbrev decimals : Floats
decimals = record {
  Float = ℕ;
  of_int = λ n. n * 10;
  tenths = λ n. n;
  plus = λ f g. f + g;
  at_least = λ f n. leb (n * 10) f;
  to_int = λ f. pos (f / 10);
}

decimals-IsFloat : IsFloat decimals
decimals-IsFloat = record {
  is_unsigned = λ f. true;
  of_int_unsigned = λ n. refl;
  tenths_unsigned = λ n. refl;
  plus_unsigned = λ f g h k. refl;
  of_int_below = λ n m h k. ground arith;
  to_int_below = λ f m h k. (f / 10, refl, ground arith);
}

ui_show_god_screen-IsOnScreen_example :
    Ends
      (All (IsOnScreen 30 90))
      (All (IsInSky decimals decimals-IsFloat (window (pos b' ')) 30 90))
      (ui_show_god_screen decimals (window (pos b' ')) 4 (3, 1))
ui_show_god_screen-IsOnScreen_example =
    ui_show_god_screen-IsOnScreen decimals decimals-IsFloat (window (pos b' ')) 30 90 (omega arith)
      (omega arith) (omega arith) (omega arith) (λ e. refl) space_pressed 4 (3, 1) (omega arith)

abbrev bob : List ℕ
bob = 98 ∷ 111 ∷ 98 ∷ 0 ∷ []

abbrev lines : LineChars
lines = record {
  hline = 113;
  vline = 4194424;
  ulcorner = 108;
  urcorner = 107;
  llcorner = 109;
  lrcorner = 106;
}

draw_login-IsOnScreen_example :
    let (intro, drawn, e) = draw_login (window (pos b' ')) lines [] (0, 1) in
    All (IsOnScreen 30 90) intro
    × All (IsOnScreen 30 90) drawn
    × IsOnScreen 30 90 (draw_welcome 30 90 bob)
draw_login-IsOnScreen_example =
    draw_login-IsOnScreen (window (pos b' ')) 30 90 (omega arith) (omega arith) (omega arith)
      (λ e. refl) lines [] bob (0, 1) (omega arith)
