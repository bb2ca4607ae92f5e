-- ===== src/Client/Screens/Victory/Message.antt =====
-- The message of the victory fits its buffer, and the screen of the victory fits the window.
use world_boss_raid.Base.{
  ℕ, zero, suc, ◌+◌, ◌-◌, ◌/◌, ◌%◌, ◌^◌, ◌≤◌, ◌<◌, ◌≡◌, refl, ap, inl, inr, some, List, [], ◌∷◌,
  ◌++◌, arith, pos, ◌==◌, length, take, length-append, All, Bool-cases,
}
use world_boss_raid.Base.CString.{text}
use world_boss_raid.Client.Screens.{Terminal, codes, draw_art}
use world_boss_raid.Client.Screens.Ending.{IsPressed, Ends, animate-Ends}
use world_boss_raid.Client.Screens.Place.{
  IsRoom, IsOnScreen, minus_pos, plus_pos, centred_size_t_lem, All-append, draw_art-IsOnScreen,
}
use world_boss_raid.Client.Screens.Victory.{
  victory_art, hero, victory_msg, victory_frame, ui_show_victory_screen,
}

take_all : (n : ℕ) (xs : List ℕ) → length xs ≤ n → take n xs ≡ xs
take_all zero [] h = refl
take_all zero (x ∷ xs) h = elim h [ ]
take_all (suc n) [] h = refl
take_all (suc n) (x ∷ xs) h = ap (λ ys. x ∷ ys) (take_all n xs (omega arith))

-- The whole message.
abbrev pub congratulations : List ℕ → List ℕ
congratulations name = codes "CONGRATULATIONS! The player " ++ (name ++ codes " killed the BOSS!")

length-congratulations : (name : List ℕ) → length (congratulations name) ≡ length name + 45
length-congratulations name = omega (arith, length-append {0} name (codes " killed the BOSS!"))

length-hero : (name : List ℕ) → length (text name) ≤ 31 → length (hero (some name)) ≤ 31
unfolding hero
length-hero name h = ground arith

victory_msg_lem :
    (name : List ℕ)
    → length (text name) ≤ 31
    → victory_msg (some name) ≡ congratulations (hero (some name))
unfolding victory_msg
victory_msg_lem name h =
    take_all 255 (congratulations (hero (some name)))
      (omega (arith, length-congratulations (hero (some name)), length-hero name h))

module _ (terminal : Terminal) (rows cols : ℕ) (name : List ℕ) (high : 24 ≤ rows) (wide : 76 ≤ cols)
    (narrow : cols < 2 ^ 31) (size : (e : terminal.Env) → terminal.getmaxyx e ≡ (rows, cols))
    (short : length (text name) ≤ 31) where
  length-msg : length (victory_msg (some name)) ≤ 76
  length-msg =
      rw (victory_msg_lem name short)
        (omega (arith, length-congratulations (hero (some name)), length-hero name short))

  victory_frame-IsOnScreen :
      (timer : ℕ) (e : terminal.Env)
      → All (IsOnScreen rows cols) (victory_frame terminal (some name) timer e).0
  unfolding victory_frame
  victory_frame-IsOnScreen timer e =
      rw
        (
          size e,
          minus_pos (rows / 2) 3 (omega arith),
          minus_pos (rows / 2 - 3) 2 (omega arith),
          minus_pos rows 2 (omega arith),
          plus_pos (rows / 2 - 3 - 2) 7,
          plus_pos (rows / 2 - 3 - 2 + 7) 2,
          centred_size_t_lem cols 18 (omega arith) narrow,
          centred_size_t_lem cols (length (victory_msg (some name))) (omega (arith, length-msg))
              narrow,
        )
        (All-append (IsOnScreen rows cols) (draw_art (pos (rows / 2 - 3 - 2)) cols victory_art) _
          (draw_art-IsOnScreen rows cols (rows / 2 - 3 - 2) _ victory_art refl (omega arith)
            (omega arith))
          (elim (Bool-cases (timer / 5 % 2 == 0)) [
            | inl k ↦ rw k (message, (hint, tt))
            | inr k ↦ rw k (hint, tt)
          ]))
    where
      hint : IsRoom rows cols (pos (rows - 2)) (pos ((cols - 18) / 2)) 18
      hint = ((rows - 2, refl, omega arith), ((cols - 18) / 2, refl, omega arith))

      message :
          IsRoom rows cols
            (pos (rows / 2 - 3 - 2 + 7 + 2))
            (pos ((cols - length (victory_msg (some name))) / 2))
            (length (victory_msg (some name)))
      message = (
        (rows / 2 - 3 - 2 + 7 + 2, refl, omega arith),
        ((cols - length (victory_msg (some name))) / 2, refl, omega (arith, length-msg)),
      )

  frame-left :
      (pressed : IsPressed terminal (pos b'q')) (timer : ℕ) (e : terminal.Env)
      → pressed.left (victory_frame terminal (some name) timer e).2 ≤ pressed.left e
  unfolding victory_frame
  frame-left pressed timer e = omega arith

  -- The screen of the victory, in a window whose size stays the same and has at least 24 rows and 76
  -- columns, for a name of at most 31 characters, if the player presses q at some time and the fuel
  -- covers the calls of getch before it: the message is not cut off, the animation ends, and all that
  -- it has drawn lies on the screen.
  pub ui_show_victory_screen-IsOnScreen :
      (pressed : IsPressed terminal (pos b'q')) (fuel : ℕ) (e : terminal.Env)
      → pressed.left e < fuel
      → (victory_msg (some name) ≡ congratulations (hero (some name)))
        × Ends
            (All (IsOnScreen rows cols))
            (λ _. Unit {0})
            (ui_show_victory_screen terminal (some name) fuel e)
  unfolding ui_show_victory_screen
  ui_show_victory_screen-IsOnScreen pressed fuel e h = (
    victory_msg_lem name short,
    animate-Ends terminal (victory_frame terminal (some name)) (pos b'q') pressed
        (All (IsOnScreen rows cols)) (λ _. Unit {0})
        (λ timer f _. (victory_frame-IsOnScreen timer f, tt))
        (λ timer f. frame-left pressed timer f) fuel 0 e h tt,
  )
