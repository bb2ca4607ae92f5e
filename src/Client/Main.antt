-- ===== src/Client/Main.antt =====
-- The choice of the mode in `main` of src/client/client.c.
use world_boss_raid.Base.{ℕ, List, [], ◌∷◌, if◌then◌else◌}
use world_boss_raid.Base.CString.{same_text}

-- `"--stress"` and `"--single-thread"`
abbrev pub stress_option : List ℕ
stress_option = b'-' ∷ b'-' ∷ b's' ∷ b't' ∷ b'r' ∷ b'e' ∷ b's' ∷ b's' ∷ []

abbrev pub single_thread_option : List ℕ
single_thread_option =
    b'-' ∷ b'-' ∷ b's' ∷ b'i' ∷ b'n' ∷ b'g' ∷ b'l' ∷ b'e' ∷ b'-' ∷ b't' ∷ b'h' ∷ b'r' ∷ b'e' ∷ b'a'
    ∷ b'd' ∷ []

pub data Mode : Type 0 where
  stress single_thread threaded : Mode

-- The mode by the arguments behind the name of the program.
unfoldable pub mode_of : List (List ℕ) → Mode
mode_of [] = threaded
mode_of (arg ∷ _) =
    if same_text arg stress_option
    then stress
    else if same_text arg single_thread_option
    then single_thread
    else threaded
