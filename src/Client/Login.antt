-- ===== src/Client/Login.antt =====
-- src/client/ui/login.c: the name that the player types. `getnstr` of ncurses is a parameter; what is
-- drawn is in Drawing.
pub mod Accepted
pub mod Drawing
use world_boss_raid.Base.{
  ℕ, zero, suc, ◌+◌, ◌-◌, ◌≤◌, ◌≢◌, List, [], ◌∷◌, ◌++◌, ◌==◌, if◌then◌else◌, length, drop, set,
  replicate, All,
}
use world_boss_raid.Base.CString.{text, strncpy}

abbrev pub box_width : ℕ
box_width = 30

-- `"Unknown"`
abbrev pub unknown_name : List ℕ
unknown_name = b'U' ∷ b'n' ∷ b'k' ∷ b'n' ∷ b'o' ∷ b'w' ∷ b'n' ∷ []

-- A string with its zero byte, written at the start of a buffer.
abbrev pub write_text : List ℕ → List ℕ → List ℕ
write_text bs buffer = (bs ++ (0 ∷ [])) ++ drop (suc (length bs)) buffer

-- `char player_name[50] = {0}`
abbrev pub name_buffer : List ℕ
name_buffer = replicate 50 0

-- `">> WELCOME, Player %s <<"`
abbrev pub welcome_msg : List ℕ → List ℕ
welcome_msg player_name =
    (b'>' ∷ b'>' ∷ b' ' ∷ b'W' ∷ b'E' ∷ b'L' ∷ b'C' ∷ b'O' ∷ b'M' ∷ b'E' ∷ b',' ∷ b' ' ∷ b'P' ∷ b'l'
      ∷ b'a' ∷ b'y' ∷ b'e' ∷ b'r' ∷ b' ' ∷ [])
    ++ (text player_name ++ (b' ' ∷ b'<' ∷ b'<' ∷ []))

module _ {S : Type 0} (getnstr : ℕ → S → List ℕ × S) where
  -- The buffer after draw_input_box.
  unfoldable pub read_name : ℕ → List ℕ → S → List ℕ × S
  read_name width buffer s =
      let (typed, s1) = getnstr (width - 2) s in (write_text typed buffer, s1)

  -- The name on the screen, and the name that is passed on.
  unfoldable pub ui_login_get_player_name : List ℕ → ℕ → S → (List ℕ × List ℕ) × S
  ui_login_get_player_name out_name max_len s =
      let (typed, s1) = read_name box_width name_buffer s in
      let player_name = if length (text typed) == 0 then write_text unknown_name typed else typed in
      ((player_name, set (strncpy out_name player_name (max_len - 1)) (max_len - 1) 0), s1)

  -- `getnstr(str, n)` stores at most `n` characters, none of them a zero byte.
  pub record ReadsLine : Type 0 where
    pub short : (n : ℕ) (s : S) → length (getnstr n s).0 ≤ n
    pub nonzero : (n : ℕ) (s : S) → All (λ b. b ≢ 0) (getnstr n s).0
