-- ===== src/Client/Login/Accepted.antt =====
-- The names of the login, and the server's check of them.
use world_boss_raid.Base.{
  ℕ, suc, ◌≤◌, ◌<◌, ◌≡◌, ◌≢◌, refl, ap, ◌∙◌, List, [], ◌∷◌, arith, ◌==◌, if◌then◌else◌, length,
  length-append, drop, All,
}
use mathlib.Core.List.{append_assoc}
use world_boss_raid.Base.CString.{text, text-set-strncpy, text_of_nonzero}
use world_boss_raid.GameState.{no_name}
use world_boss_raid.Client.Login.{
  unknown_name, write_text, name_buffer, welcome_msg, read_name, ui_login_get_player_name,
  ReadsLine,
}

-- The line, or "Unknown" for an empty one.
abbrev pub chosen_name : List ℕ → List ℕ
chosen_name [] = unknown_name
chosen_name (c ∷ cs) = c ∷ cs

text-write_text : (bs buffer : List ℕ) → All (λ b. b ≢ 0) bs → text (write_text bs buffer) ≡ bs
text-write_text bs buffer h =
    ap text (append_assoc bs (0 ∷ []) (drop (suc (length bs)) buffer))
    ∙ text_of_nonzero bs (drop (suc (length bs)) buffer) h

unknown-nonzero : All (λ b. b ≢ 0) unknown_name
unknown-nonzero = (
  λ e. omega arith,
  (
    λ e. omega arith,
    (
      λ e. omega arith,
      (λ e. omega arith, (λ e. omega arith, (λ e. omega arith, (λ e. omega arith, tt)))),
    ),
  ),
)

welcome_msg-lt : (name : List ℕ) → length (text name) ≤ 28 → length (welcome_msg name) < 100
welcome_msg-lt name h = omega (arith, length-append {0} (text name) (b' ' ∷ b'<' ∷ b'<' ∷ []))

abbrev shown_name : List ℕ → List ℕ
shown_name typed = if length (text typed) == 0 then write_text unknown_name typed else typed

shown_name-chosen_name :
    (line buffer : List ℕ)
    → All (λ b. b ≢ 0) line
    → text (shown_name (write_text line buffer)) ≡ chosen_name line
shown_name-chosen_name [] buffer h = refl
shown_name-chosen_name (c ∷ cs) buffer h =
    let e = text-write_text (c ∷ cs) buffer h in ground (arith, e)

chosen_name-le : (line : List ℕ) → length line ≤ 28 → length (chosen_name line) ≤ 28
chosen_name-le [] h = omega arith
chosen_name-le (c ∷ cs) h = h

module _ {S : Type 0} (getnstr : ℕ → S → List ℕ × S) (reads : ReadsLine getnstr) (s : S) where
  -- The name that the login shows and the one that it passes on in 32 bytes are the line that was
  -- typed, or "Unknown" for an empty line, and the greeting fits its 100 bytes with its zero byte.
  pub ui_login_get_player_name-chosen_name :
      let (player_name, out_name) = (ui_login_get_player_name getnstr no_name 32 s).0 in
      (text out_name ≡ chosen_name (getnstr 28 s).0)
      × (text player_name ≡ chosen_name (getnstr 28 s).0)
      × (length (welcome_msg player_name) < 100)
  unfolding ui_login_get_player_name read_name
  ui_login_get_player_name-chosen_name =
      let line = (getnstr 28 s).0 in
      let shown = shown_name (write_text line name_buffer) in
      let e = shown_name-chosen_name line name_buffer (reads.nonzero 28 s) in
      let short : length (text shown) ≤ 28 = rw e (chosen_name-le line (reads.short 28 s)) in
      (
        text-set-strncpy no_name shown 31 (omega arith) (omega arith) ∙ e,
        e,
        welcome_msg-lt shown short,
      )
