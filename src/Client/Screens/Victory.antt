-- ===== src/Client/Screens/Victory.antt =====
-- src/client/ui/end.c: the screen of the victory, which names the player who killed the last boss.

pub mod Message
use world_boss_raid.Base.{
  ℕ, suc, ◌+◌, ◌/◌, ◌%◌, Option, none, some, List, [], ◌∷◌, ◌++◌, ℤ, pos, ◌+ℤ◌, ◌-ℤ◌, ◌==◌,
  if◌then◌else◌, length, get_or, take,
}
use world_boss_raid.Base.CString.{text}
use world_boss_raid.Client.Screens.{
  Item, text_at, codes, Terminal, centred_size_t, draw_art, animate,
}

abbrev pub victory_art : List (List ℕ)
victory_art =
    codes " __      __  _____   _____   _______   ____    _____   __     __"
    ∷ codes " \\ \\    / / |_   _| / ____| |__   __| / __ \\  |  __ \\  \\ \\   / /"
    ∷ codes "  \\ \\  / /    | |  | |        | |    | |  | | | |__) |  \\ \\_/ / "
    ∷ codes "   \\ \\/ /     | |  | |        | |    | |  | | |  _  /    \\   /  "
    ∷ codes "    \\  /     _| |_ | |____    | |    | |__| | | | \\ \\     | |   "
    ∷ codes "     \\/     |_____| \\_____|   |_|     \\____/  |_|  \\_\\    |_|   "
    ∷ codes "                                                                  "
    ∷ []

-- The name of the hero, where `winner_name` may be NULL.
unfoldable pub hero : Option (List ℕ) → List ℕ
hero none = codes "UNKNOWN HERO"
hero (some winner_name) =
    if get_or winner_name 0 0 == 0 then codes "UNKNOWN HERO" else text winner_name

-- `snprintf` into the 256 bytes of `msg`.
unfoldable pub victory_msg : Option (List ℕ) → List ℕ
victory_msg winner_name =
    take 255
      (codes "CONGRATULATIONS! The player " ++ (hero winner_name ++ codes " killed the BOSS!"))

abbrev pub close_hint : List ℕ
close_hint = codes "Press [Q] to Close"

module _ (terminal : Terminal) (winner_name : Option (List ℕ)) where
  open terminal use {Env, getmaxyx}

  -- One round of the loop, whose state is `timer`.
  unfoldable pub victory_frame : ℕ → Env → List Item × ℕ × Env
  victory_frame timer e =
      let (rows, cols) = getmaxyx e in
      let start_y = pos (rows / 2) -ℤ pos (length victory_art / 2) -ℤ pos 2 in
      let msg = victory_msg winner_name in
      let shown =
        if timer / 5 % 2 == 0
        then (text_at (start_y +ℤ pos (length victory_art) +ℤ pos 2)
              (centred_size_t cols (length msg)) msg
            ∷ [])
        else [] in
      (
        draw_art start_y cols victory_art
            ++ (shown
                ++ (text_at (pos rows -ℤ pos 2) (centred_size_t cols (length close_hint)) close_hint
                    ∷ [])),
        suc timer,
        e,
      )

  unfoldable pub ui_show_victory_screen : ℕ → Env → Option (List (List Item) × ℕ × Env)
  ui_show_victory_screen fuel e = animate terminal victory_frame fuel (pos b'q') 0 e
