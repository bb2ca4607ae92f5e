-- ===== src/Log.antt =====
-- src/common/log.h and log.c. A stream is stderr or a file that fopen has handed out; what is written
-- is kept as the parts of a line. Colours and the time are left out of a line.
pub mod Streams
pub mod Session
pub mod Filename
use world_boss_raid.Base.{
  ℕ, suc, ◌+◌, Bool, true, false, Option, none, some, List, [], ◌∷◌, ◌++◌, ltb, ◌==◌, if◌then◌else◌,
}

pub data LogLevel : Type 0 where
  log_debug log_info log_warn log_error log_fatal : LogLevel

-- The value of the enumerator.
abbrev pub level_code : LogLevel → ℕ
level_code log_debug = 0
level_code log_info = 1
level_code log_warn = 2
level_code log_error = 3
level_code log_fatal = 4

-- The file with a number is the one that the fopen with this number has returned.
pub data Stream : Type 0 where
  std_err : Stream
  opened : ℕ → Stream

-- `strrchr(filepath, '/')`: what follows the last slash, if there is one.
unfoldable pub after_last_slash : List ℕ → Option (List ℕ)
after_last_slash [] = none
after_last_slash (c ∷ cs) = elim (after_last_slash cs) [
  | some rest ↦ some rest
  | none ↦ if c == b'/' then some cs else none
]

unfoldable pub get_filename : List ℕ → List ℕ
get_filename filepath = elim (after_last_slash filepath) [ some rest ↦ rest | none ↦ filepath ]

-- The arguments of log_write behind the level.
pub record Message : Type 0 where
  pub file : List ℕ
  pub line : ℕ
  pub func : List ℕ
  pub text : List ℕ

pub record LogLine : Type 0 where
  pub stream : Option Stream
  pub level : LogLevel
  pub filename : List ℕ
  pub line : ℕ
  pub func : List ℕ
  pub text : List ℕ

-- What is written: a line of log_write, or the notice of log_init on stderr that the file with this
-- name could not be opened.
pub data LogOutput : Type 0 where
  logged : LogLine → LogOutput
  not_opened : List ℕ → LogOutput

-- The three static variables; the files opened so far and those closed; the lines, the newest last.
pub record Log : Type 0 where
  pub g_log_level : LogLevel
  pub g_log_file : Option Stream
  pub g_log_initialized : Bool
  pub files : ℕ
  pub closed : List ℕ
  pub lines : List LogOutput

abbrev pub log_start : Log
log_start = record {
  g_log_level = log_info;
  g_log_file = none;
  g_log_initialized = false;
  files = 0;
  closed = [];
  lines = [];
}

abbrev pub line_of : Option Stream → LogLevel → Message → LogOutput
line_of stream level m = logged (record {
  stream = stream;
  level = level;
  filename = get_filename m.file;
  line = m.line;
  func = m.func;
  text = m.text;
})

-- The defaults of a system that is not initialised.
unfoldable pub with_defaults : Log → Log
with_defaults log =
    if log.g_log_initialized
    then log
    else record log { g_log_file = some std_err; g_log_level = log_info }

unfoldable pub log_write : LogLevel → Message → Log → Log
log_write level m log =
    if ltb (level_code level) (level_code log.g_log_level)
    then log
    else (let ready = with_defaults log in
        record ready { lines = ready.lines ++ (line_of ready.g_log_file level m ∷ []) })

-- `is_opened` is whether fopen succeeds; `m` is the message of LOG_INFO at the end.
unfoldable pub log_init : LogLevel → Option (List ℕ) → Bool → Message → Log → Log
log_init level output_file is_opened m log =
    let levelled : Log = record log { g_log_level = level } in
    let targeted : Log = elim output_file [
      | none ↦ record levelled { g_log_file = some std_err }
      | some name ↦
          if is_opened
          then record levelled { g_log_file = some (opened log.files); files = suc log.files }
          else record levelled {
            g_log_file = some std_err;
            lines = levelled.lines ++ (not_opened name ∷ []);
          }
    ] in
    log_write log_info m (record targeted { g_log_initialized = true })

unfoldable pub log_set_level : LogLevel → Log → Log
log_set_level level log = record log { g_log_level = level }

unfoldable pub log_cleanup : Log → Log
log_cleanup log =
    let shut : Log = elim log.g_log_file [
      | some (opened n) ↦ record log { g_log_file = none; closed = n ∷ log.closed }
      | some std_err ↦ log
      | none ↦ log
    ] in
    record shut { g_log_initialized = false }
