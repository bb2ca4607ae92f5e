-- ===== src/Log/Session.antt =====
-- The lines of an initialised logging system.
use world_boss_raid.Base.{
  ℕ, ◌≡◌, refl, ap, sym, ◌∙◌, Bool, true, false, Bool-cases, inl, inr, Option, none, some, List, [],
  ◌∷◌, ◌++◌, ltb, if◌then◌else◌,
}
use mathlib.Core.List.{append-nil, append_assoc}
use world_boss_raid.Log.{
  LogLevel, level_code, log_info, Stream, std_err, opened, Message, LogOutput, not_opened, line_of,
  Log, with_defaults, log_write, log_init,
}

unfoldable pub log_writes : List (LogLevel × Message) → Log → Log
log_writes [] log = log
log_writes ((level, m) ∷ ms) log = log_writes ms (log_write level m log)

-- The lines at or above a level, all on one stream.
abbrev pub lines_from : LogLevel → Option Stream → List (LogLevel × Message) → List LogOutput
lines_from least stream [] = []
lines_from least stream ((level, m) ∷ ms) =
    if ltb (level_code level) (level_code least)
    then lines_from least stream ms
    else line_of stream level m ∷ lines_from least stream ms

with_defaults_ready : (log : Log) → log.g_log_initialized ≡ true → with_defaults log ≡ log
unfolding with_defaults
with_defaults_ready log h =
    ap (λ b. if b then log else record log { g_log_file = some std_err; g_log_level = log_info }) h

log_write_skipped :
    (level : LogLevel) (m : Message) (log : Log)
    → ltb (level_code level) (level_code log.g_log_level) ≡ true
    → log_write level m log ≡ log
unfolding log_write
log_write_skipped level m log e = simp e refl

log_write_passed :
    (level : LogLevel) (m : Message) (log : Log)
    → log.g_log_initialized ≡ true
    → ltb (level_code level) (level_code log.g_log_level) ≡ false
    → log_write level m log
      ≡ record log { lines = log.lines ++ (line_of log.g_log_file level m ∷ []) }
unfolding log_write
log_write_passed level m log h e =
    ap
      (λ b.
        if b
        then log
        else (let ready = with_defaults log in
            record ready { lines = ready.lines ++ (line_of ready.g_log_file level m ∷ []) }))
      e
    ∙ ap
        (λ (ready : Log). record ready {
          lines = ready.lines ++ (line_of ready.g_log_file level m ∷ []);
        })
        (with_defaults_ready log h)

log_writes-lines_from :
    (ms : List (LogLevel × Message)) (log : Log)
    → log.g_log_initialized ≡ true
    → (log_writes ms log).lines ≡ log.lines ++ lines_from log.g_log_level log.g_log_file ms
unfolding log_writes
log_writes-lines_from [] log h = sym (append-nil log.lines)
log_writes-lines_from ((level, m) ∷ ms) log h =
    elim (Bool-cases (ltb (level_code level) (level_code log.g_log_level))) [
      | inl e ↦
          ap (λ (l : Log). (log_writes ms l).lines) (log_write_skipped level m log e)
          ∙ simp e (log_writes-lines_from ms log h)
      | inr e ↦
          let line = line_of log.g_log_file level m in
          let next : Log = record log { lines = log.lines ++ (line ∷ []) } in
          let rest = log_writes-lines_from ms next h in
          ap (λ (l : Log). (log_writes ms l).lines) (log_write_passed level m log h e)
          ∙ simp e (
              rest
              ∙ append_assoc log.lines (line ∷ []) (lines_from log.g_log_level log.g_log_file ms))
    ]

-- The stream that log_init chooses.
abbrev pub chosen : Option (List ℕ) → Bool → ℕ → Stream
chosen none is_opened files = std_err
chosen (some name) is_opened files = if is_opened then opened files else std_err

-- The notice of a file that fopen has not opened.
abbrev pub notice : Option (List ℕ) → Bool → List LogOutput
notice none is_opened = []
notice (some name) is_opened = if is_opened then [] else not_opened name ∷ []

-- After log_init, what is written is what there was, then the notice on stderr if a file was named
-- and fopen did not open it, then the line of log_init and those of any calls of log_write, as far
-- as their level reaches the one that was set, in their order and on one stream: the file if it
-- was named and fopen opened it, else stderr.
pub log_init-log_writes :
    (least : LogLevel) (file : Option (List ℕ)) (is_opened : Bool) (m : Message)
    (ms : List (LogLevel × Message)) (log : Log)
    → (log_writes ms (log_init least file is_opened m log)).lines
      ≡ (log.lines ++ notice file is_opened)
        ++ lines_from least (some (chosen file is_opened log.files)) ((log_info, m) ∷ ms)
unfolding log_init log_writes
log_init-log_writes least none is_opened m ms log =
    log_writes-lines_from ((log_info, m) ∷ ms) _ refl
    ∙ ap (λ l. l ++ lines_from least (some std_err) ((log_info, m) ∷ ms))
        (sym (append-nil log.lines))
log_init-log_writes least (some name) true m ms log =
    log_writes-lines_from ((log_info, m) ∷ ms) _ refl
    ∙ ap (λ l. l ++ lines_from least (some (opened log.files)) ((log_info, m) ∷ ms))
        (sym (append-nil log.lines))
log_init-log_writes least (some name) false m ms log =
    log_writes-lines_from ((log_info, m) ∷ ms) _ refl
