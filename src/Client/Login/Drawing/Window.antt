-- ===== src/Client/Login/Drawing/Window.antt =====
-- The window that the login needs.
use world_boss_raid.Base.{
  ℕ, zero, suc, ◌+◌, ◌-◌, ◌/◌, ◌^◌, ◌≤◌, ◌<◌, ◌≡◌, refl, ap, ◌∙◌, inl, inr, List, [], ◌∷◌, ◌++◌,
  arith, ℤ, pos, ◌+ℤ◌, ◌-ℤ◌, ◌==◌, length, replicate, length-append, All, Bool-cases,
}
use world_boss_raid.Base.CString.{text}
use world_boss_raid.Client.Screens.{Terminal}
use world_boss_raid.Client.Screens.Place.{
  IsOnScreen, minus_pos, plus_pos, centred_size_t_lem, All-append,
}
use world_boss_raid.Client.Login.{box_width, welcome_msg}
use world_boss_raid.Client.Login.Drawing.{
  title_art, LineChars, draw_logo, draw_chars, prompt, draw_prompt, draw_input_box, login_row,
  draw_welcome, intro_char, intro_chars, play_intro_animation, draw_login,
}
use world_boss_raid.Client.Login.Drawing.Places.{
  logo_x, login_row_lem, box_row_lem, draw_lines-IsOnScreen, draw_chars-IsOnScreen,
  draw_decorations-IsBesideLogo, on_screen,
}

length-welcome_msg : (name : List ℕ) → length (welcome_msg name) ≡ length (text name) + 22
length-welcome_msg name = omega (arith, length-append {0} (text name) (b' ' ∷ b'<' ∷ b'<' ∷ []))

module _ (rows cols : ℕ) (high : 28 ≤ rows) (wide : 50 ≤ cols) where
  logo-IsOnScreen : All (IsOnScreen rows cols) (draw_logo cols (login_row rows))
  unfolding draw_logo
  logo-IsOnScreen =
      draw_lines-IsOnScreen rows cols ((rows - 27) / 2) (cols / 2 - 24) _ _ title_art
        (login_row_lem rows high) (logo_x cols) (omega arith) (omega arith)

  prompt-IsOnScreen :
      (j : ℕ) (y : ℤ) (buffer : List ℕ)
      → y ≡ pos j
      → j < rows
      → All
          (IsOnScreen rows cols)
          (draw_prompt y (pos (cols / 2) -ℤ pos (length prompt / 2)) buffer)
  unfolding draw_prompt
  prompt-IsOnScreen j y buffer e h =
      let x = minus_pos (cols / 2) 8 (omega arith) in
      elim (Bool-cases (length (text buffer) == 0)) [
        | inl k ↦
            rw k (draw_chars-IsOnScreen rows cols j (cols / 2 - 8) y _ prompt e x h (omega arith))
        | inr k ↦ rw k (((j, e, h), (cols / 2 - 8, x, omega arith)), tt)
      ]

  box-IsOnScreen :
      (acs : LineChars) (j : ℕ) (y : ℤ) (buffer : List ℕ)
      → y ≡ pos j
      → 2 ≤ j
      → j + 1 < rows
      → All (IsOnScreen rows cols) (draw_input_box acs cols y box_width buffer)
  unfolding draw_input_box
  box-IsOnScreen acs j y buffer e l h =
      rw
        (
          e,
          minus_pos j 1 (omega arith),
          minus_pos j 2 (omega arith),
          plus_pos j 1,
          minus_pos (cols / 2) 15 (omega arith),
          minus_pos (cols / 2 - 15) 1 (omega arith),
          plus_pos (cols / 2 - 15) 30,
        )
        (
          ((_, refl, omega arith), (_, refl, omega arith)),
          (
            ((_, refl, omega arith), (_, refl, omega arith)),
            (
              ((_, refl, omega arith), (_, refl, omega arith)),
              (
                ((_, refl, omega arith), (_, refl, omega arith)),
                All-append (IsOnScreen rows cols)
                    (draw_chars (pos j) (pos (cols / 2 - 15))
                      (replicate box_width b' ' ++ (acs.vline ∷ [])))
                    _
                    (draw_chars-IsOnScreen rows cols j (cols / 2 - 15) _ _ _ refl refl (omega arith)
                      (omega arith))
                    (
                      ((_, refl, omega arith), (_, refl, omega arith)),
                      (
                        ((_, refl, omega arith), (_, refl, omega arith)),
                        (
                          ((_, refl, omega arith), (_, refl, omega arith)),
                          prompt-IsOnScreen (j - 2) _ buffer refl (omega arith),
                        ),
                      ),
                    ),
              ),
            ),
          ),
        )

module _ (terminal : Terminal) (rows cols : ℕ) (high : 28 ≤ rows) (wide : 50 ≤ cols) where
  open terminal use {Env}

  intro_chars-IsOnScreen :
      (n : ℕ) (e : Env) → All (IsOnScreen rows cols) (intro_chars terminal n rows cols e).0
  unfolding intro_chars intro_char
  intro_chars-IsOnScreen zero e = tt
  intro_chars-IsOnScreen (suc n) e =
      (((_, refl, omega arith), (_, refl, omega arith)), intro_chars-IsOnScreen n _)

  module _ (narrow : cols < 2 ^ 31) (size : (e : Env) → terminal.getmaxyx e ≡ (rows, cols)) where
    -- The login in a window whose size stays the same and has at least 28 rows and 50 columns, and
    -- fewer than 2^31 columns: all that it draws lies on the screen, the animation, the logo, the
    -- swords, the box and the prompt, and the greeting of a name of at most 28 characters.
    pub draw_login-IsOnScreen :
        (acs : LineChars) (buffer name : List ℕ) (e : Env)
        → length (text name) ≤ 28
        → let (intro, drawn, e') = draw_login terminal acs buffer e in
          All (IsOnScreen rows cols) intro
          × All (IsOnScreen rows cols) drawn
          × IsOnScreen rows cols (draw_welcome rows cols name)
    unfolding draw_login play_intro_animation draw_welcome
    draw_login-IsOnScreen acs buffer name e short =
        rw (size e, size (intro_chars terminal 800 rows cols e).1)
          (
            intro_chars-IsOnScreen 800 e,
            All-append (IsOnScreen rows cols) _ _ (logo-IsOnScreen rows cols high wide) (
                All-append (IsOnScreen rows cols) _ _
                  (rw (login_row_lem rows high) (
                    on_screen rows cols _
                      (draw_decorations-IsBesideLogo rows cols ((rows - 27) / 2))))
                  (box-IsOnScreen rows cols high wide acs ((rows - 27) / 2 + 20 + 4) _ buffer
                    (box_row_lem rows high) (omega arith) (omega arith))),
            (
              (
                (rows - 27) / 2 + 20 + 4 + 3,
                ap (λ z. z +ℤ pos 3) (box_row_lem rows high)
                    ∙ plus_pos ((rows - 27) / 2 + 20 + 4) 3,
                omega arith,
              ),
              (
                (cols - length (welcome_msg name)) / 2,
                centred_size_t_lem cols (length (welcome_msg name))
                    (omega (arith, length-welcome_msg name)) narrow,
                omega (arith, length-welcome_msg name),
              ),
            ),
          )
