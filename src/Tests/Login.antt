-- ===== src/Tests/Login.antt =====
-- A name that is typed at the login, and the logging system with a file.
use world_boss_raid.Base.{
  ℕ, zero, suc, ◌≤◌, ◌<◌, ◌≡◌, ◌≢◌, true, Option, some, List, [], ◌∷◌, ◌++◌, arith, length, All,
}
use world_boss_raid.Base.CString.{text}
use world_boss_raid.GameState.{no_name}
use world_boss_raid.Client.Login.{welcome_msg, ui_login_get_player_name, ReadsLine}
use world_boss_raid.Client.Login.Accepted.{ui_login_get_player_name-chosen_name}
use world_boss_raid.Log.{Message, log_info, log_debug, log_error, log_start, log_init}
use world_boss_raid.Log.Session.{log_writes, lines_from, chosen, log_init-log_writes}

abbrev typed_b : List ℕ
typed_b = b'B' ∷ []

-- A player who types one letter, if there is room.
abbrev one_letter : ℕ → ℕ → List ℕ × ℕ
one_letter zero s = ([], s)
one_letter (suc n) s = (typed_b, suc s)

one_letter-ReadsLine : ReadsLine one_letter
one_letter-ReadsLine = record { short = short; nonzero = nonzero }
  where
    short : (n s : ℕ) → length (one_letter n s).0 ≤ n
    short zero s = omega arith
    short (suc n) s = omega arith

    nonzero : (n s : ℕ) → All (λ b. b ≢ 0) (one_letter n s).0
    nonzero zero s = tt
    nonzero (suc n) s = (λ e. omega arith, tt)

ui_login_get_player_name-chosen_name_example :
    let (player_name, out_name) = (ui_login_get_player_name one_letter no_name 32 0).0 in
    (text out_name ≡ typed_b)
    × (text player_name ≡ typed_b)
    × (length (welcome_msg player_name) < 100)
ui_login_get_player_name-chosen_name_example =
    ui_login_get_player_name-chosen_name one_letter one_letter-ReadsLine 0

abbrev hello : Message
hello = record {
  file = b's' ∷ b'/' ∷ b'a' ∷ b'.' ∷ b'c' ∷ [];
  line = 12;
  func = b'f' ∷ [];
  text = b'h' ∷ b'i' ∷ [];
}

abbrev file_name : Option (List ℕ)
file_name = some (b'l' ∷ b'o' ∷ b'g' ∷ [])

log_init-log_writes_example :
    (log_writes
      ((log_debug, hello) ∷ (log_error, hello) ∷ [])
      (log_init log_info file_name true hello log_start)).lines
    ≡ []
      ++ lines_from log_info
          (some (chosen file_name true 0))
          ((log_info, hello) ∷ (log_debug, hello) ∷ (log_error, hello) ∷ [])
log_init-log_writes_example =
    log_init-log_writes log_info file_name true hello ((log_debug, hello) ∷ (log_error, hello) ∷ [])
      log_start
