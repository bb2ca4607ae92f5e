-- ===== src/Log/Streams.antt =====
-- The stream that is written to.
use world_boss_raid.Base.{
  ℕ, suc, ◌<◌, ◌≡◌, ◌≢◌, refl, Bool, true, false, Option, none, some, Bool-cases, inl, inr, List,
  [], ◌∷◌, arith, ltb, All,
}
use world_boss_raid.Log.{
  LogLevel, level_code, log_info, Stream, std_err, opened, Message, Log, log_start, with_defaults,
  log_write, log_init, log_set_level, log_cleanup,
}

-- The calls of the logging system, with the answer of fopen.
pub data LogCall : Type 0 where
  init : LogLevel → Option (List ℕ) → Bool → Message → LogCall
  set_level : LogLevel → LogCall
  write : LogLevel → Message → LogCall
  cleanup : LogCall

unfoldable pub log_call : LogCall → Log → Log
log_call (init level file is_opened m) log = log_init level file is_opened m log
log_call (set_level level) log = log_set_level level log
log_call (write level m) log = log_write level m log
log_call cleanup log = log_cleanup log

unfoldable pub log_calls : List LogCall → Log → Log
log_calls [] log = log
log_calls (c ∷ cs) log = log_calls cs (log_call c log)

-- A stream that can be written to: stderr, or a file that has been opened and not closed.
abbrev pub IsOpen : ℕ → List ℕ → Option Stream → Type 0
IsOpen files closed none = ⊥
IsOpen files closed (some std_err) = Unit
IsOpen files closed (some (opened n)) = (n < files) × All (λ k. k ≢ n) closed

-- The file that the variable names is open; there is none only without initialisation.
abbrev IsSound : Bool → ℕ → List ℕ → Option Stream → Type 0
IsSound initialized files closed none = initialized ≡ false
IsSound initialized files closed (some s) = IsOpen files closed (some s)

pub record Inv (log : Log) : Type 0 where
  pub target : IsSound log.g_log_initialized log.files log.closed log.g_log_file
  pub closed_before : All (λ k. k < log.files) log.closed

All-ne : (ks : List ℕ) (n : ℕ) → All (λ k. k < n) ks → All (λ k. k ≢ n) ks
All-ne [] n h = tt
All-ne (k ∷ ks) n h = (λ e. omega (arith, h.0), All-ne ks n h.1)

All-lt_suc : (ks : List ℕ) (n : ℕ) → All (λ k. k < n) ks → All (λ k. k < suc n) ks
All-lt_suc [] n h = tt
All-lt_suc (k ∷ ks) n h = (omega (arith, h.0), All-lt_suc ks n h.1)

with_defaults-Inv : (log : Log) → Inv log → Inv (with_defaults log)
unfolding with_defaults
with_defaults-Inv log i = elim (Bool-cases log.g_log_initialized) [
  | inl e ↦ simp e i
  | inr e ↦ simp e (record { target = tt; closed_before = i.closed_before })
]

log_write-Inv : (level : LogLevel) (m : Message) (log : Log) → Inv log → Inv (log_write level m log)
unfolding log_write
log_write-Inv level m log i =
    elim (Bool-cases (ltb (level_code level) (level_code log.g_log_level))) [
      | inl e ↦ rw e i
      | inr e ↦
          let d = with_defaults-Inv log i in
          rw e (record { target = d.target; closed_before = d.closed_before })
    ]

log_init-Inv :
    (level : LogLevel) (file : Option (List ℕ)) (is_opened : Bool) (m : Message) (log : Log)
    → Inv log
    → Inv (log_init level file is_opened m log)
unfolding log_init
log_init-Inv level none is_opened m log i =
    log_write-Inv log_info m _ (record { target = tt; closed_before = i.closed_before })
log_init-Inv level (some name) true m log i = log_write-Inv log_info m _ (record {
  target = (omega arith, All-ne log.closed log.files i.closed_before);
  closed_before = All-lt_suc log.closed log.files i.closed_before;
})
log_init-Inv level (some name) false m log i =
    log_write-Inv log_info m _ (record { target = tt; closed_before = i.closed_before })

log_cleanup-Inv : (log : Log) → Inv log → Inv (log_cleanup log)
unfolding log_cleanup
log_cleanup-Inv log i = go log.g_log_file refl i.target
  where
    go :
        (file : Option Stream)
        → log.g_log_file ≡ file
        → IsSound log.g_log_initialized log.files log.closed file
        → Inv
            (record (elim file as (λ _. Log) [
              | some (opened n) ↦ record log { g_log_file = none; closed = n ∷ log.closed }
              | some std_err ↦ log
              | none ↦ log
            ]) { g_log_initialized = false })
    go none q h = record { target = rw q refl; closed_before = i.closed_before }
    go (some std_err) q h = record { target = rw q tt; closed_before = i.closed_before }
    go (some (opened n)) q h = record { target = refl; closed_before = (h.0, i.closed_before) }

log_call-Inv : (c : LogCall) (log : Log) → Inv log → Inv (log_call c log)
unfolding log_call log_set_level
log_call-Inv (init level file is_opened m) log i = log_init-Inv level file is_opened m log i
log_call-Inv (set_level level) log i = record { target = i.target; closed_before = i.closed_before }
log_call-Inv (write level m) log i = log_write-Inv level m log i
log_call-Inv cleanup log i = log_cleanup-Inv log i

log_calls-Inv : (cs : List LogCall) (log : Log) → Inv log → Inv (log_calls cs log)
unfolding log_calls
log_calls-Inv [] log i = i
log_calls-Inv (c ∷ cs) log i = log_calls-Inv cs (log_call c log) (log_call-Inv c log i)

IsSound-IsOpen :
    (files : ℕ) (closed : List ℕ) (file : Option Stream)
    → IsSound true files closed file
    → IsOpen files closed file
IsSound-IsOpen files closed none h = absurd (ground arith)
IsSound-IsOpen files closed (some s) h = h

-- After any calls of the logging system, whatever fopen answers, the stream that the next line would
-- be written to is stderr or a file that has been opened and not closed.
pub log_calls-IsOpen :
    (cs : List LogCall)
    → let log = with_defaults (log_calls cs log_start) in IsOpen log.files log.closed log.g_log_file
unfolding with_defaults
log_calls-IsOpen cs =
    let log = log_calls cs log_start in
    let i = log_calls-Inv cs log_start (record { target = refl; closed_before = tt }) in
    elim (Bool-cases log.g_log_initialized) [
      | inl e ↦ simp e (IsSound-IsOpen log.files log.closed log.g_log_file (rw e at i.target))
      | inr e ↦ simp e tt
    ]
