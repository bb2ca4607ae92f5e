-- ===== src/Client/Draw.antt =====
-- draw_boss_art and draw_ui of src/client/ui/client_ui.c: what is drawn and where, without the colours.
-- The screen has `rows` and `cols`. The texts that sprintf makes and the filled part of the bar, which
-- is computed in floating point, are parameters.
pub mod Layout
use world_boss_raid.Base.{
  ℕ, zero, suc, ◌+◌, ◌-◌, ◌/◌, Bool, true, false, Option, none, some, List, [], ◌∷◌, ◌++◌, ℤ, pos,
  ◌+ℤ◌, ◌-ℤ◌, ltb_ℤ, leb, ◌==◌, if◌then◌else◌, length, take,
}
use world_boss_raid.Base.CString.{text}
use world_boss_raid.Client.Ui.{LocalGameState, LogMsg, DiceVisual}

pub data Figure : Type 0 where
  normal_boss enraged_boss hp_label separator keys_help open_error : Figure
  hp_bar : ℤ → ℤ → Figure
  art_line message : List ℕ → Figure

pub record Drawn : Type 0 where
  pub row : ℤ
  pub col : ℤ
  pub figure : Figure

abbrev pub default_boss_max_hp : ℤ
default_boss_max_hp = pos 2000

-- `line[strcspn(line, "\n")] = 0`
abbrev pub cut_newline : List ℕ → List ℕ
cut_newline [] = []
cut_newline (c ∷ cs) = if c == b'\n' then [] else c ∷ cut_newline cs

-- The lines that are left, from row `y` on. The division by 2 and the test for a negative column give
-- the same as the subtraction that stops at 0.
unfoldable pub art_lines : ℕ → ℕ → ℕ → List (List ℕ) → List Drawn
art_lines rows cols y [] = []
art_lines rows cols y (line ∷ lines) =
    let cut = cut_newline line in
    let rest = art_lines rows cols (suc y) lines in
    if leb rows (y + 8)
    then []
    else record {
      row = pos y;
      col = pos ((cols - length (text cut)) / 2);
      figure = art_line (text cut);
    }
      ∷ rest

-- The file's lines, or none where fopen fails.
unfoldable pub draw_boss_art : ℕ → ℕ → Option (List (List ℕ)) → List Drawn
draw_boss_art rows cols none = record { row = pos 5; col = pos 5; figure = open_error } ∷ []
draw_boss_art rows cols (some lines) = art_lines rows cols 0 lines

-- The column of the player's name between the dice and the log, if there is room.
unfoldable pub player_name_x : ℤ → ℤ → ℕ → Option ℤ
player_name_x dice_end log_start len =
    let near = dice_end +ℤ pos 5 in
    let far = log_start -ℤ pos len -ℤ pos 3 in
    if ltb_ℤ (near +ℤ pos len +ℤ pos 3) log_start
    then some near
    else if ltb_ℤ (dice_end +ℤ pos 3) far
    then some far
    else none

-- `"Player: %s"` in 64 bytes.
abbrev pub player_display : List ℕ → List ℕ
player_display name = take 63 (b'P' ∷ b'l' ∷ b'a' ∷ b'y' ∷ b'e' ∷ b'r' ∷ b':' ∷ b' ' ∷ text name)

-- A name that is empty is not drawn.
unfoldable pub draw_player : ℤ → ℤ → ℤ → List ℕ → List Drawn
draw_player row dice_end log_start name =
    let shown = player_display name in
    let place = player_name_x dice_end log_start (length shown) in
    if length (text name) == 0 then [] else elim place [
      | none ↦ []
      | some x ↦ record { row = row; col = x; figure = message shown } ∷ []
    ]

module _ (dice_text : DiceVisual → List ℕ) (log_text : LogMsg → List ℕ) (fill_of : ℤ → ℤ → ℤ) where
  unfoldable pub draw_ui : ℕ → ℕ → LocalGameState → List Drawn
  draw_ui rows cols state =
      let center_x = pos (cols / 2) -ℤ pos 25 in
      let ui_y = pos rows -ℤ pos 7 in
      let max_hp = if ltb_ℤ (pos 0) state.max_hp then state.max_hp else default_boss_max_hp in
      let bottom_y = ui_y +ℤ pos 4 in
      let dice_x = pos (cols / 2) -ℤ pos 15 in
      let dice = dice_text state.dice_visual in
      let log = log_text state.log_msg in
      let log_start = pos cols -ℤ pos (length log) -ℤ pos 2 in
      (record {
        row = ui_y;
        col = center_x;
        figure = if state.stage == 1 then normal_boss else enraged_boss;
      }
        ∷ record { row = ui_y +ℤ pos 1; col = center_x -ℤ pos 4; figure = hp_label }
        ∷ record {
          row = ui_y +ℤ pos 1;
          col = center_x;
          figure = hp_bar (fill_of state.boss_hp max_hp) state.boss_hp;
        }
        ∷ record { row = ui_y +ℤ pos 3; col = pos 0; figure = separator }
        ∷ record { row = bottom_y; col = pos 2; figure = keys_help }
        ∷ record { row = bottom_y; col = dice_x; figure = message dice }
        ∷ [])
      ++ (draw_player bottom_y (dice_x +ℤ pos (length dice)) log_start state.player_name
          ++ (record { row = bottom_y; col = log_start; figure = message log } ∷ []))
