-- ===== src/Client/Threads/Ending.antt =====
-- The end of the network thread, for which run_interactive_mode_threaded waits in pthread_join.
use world_boss_raid.Base.{ℕ, suc, ◌+◌, ◌≤◌, ◌<◌, ◌≡◌, refl, ◌⊎◌, inl, inr, true, Bool-cases, arith}
use world_boss_raid.Net.{done, broken, starved}
use world_boss_raid.Client.Network.{
  network_started, attack_answered, heartbeat_answered, attack_request, attack_finish, heartbeat_cb,
}
use world_boss_raid.Client.Threads.{
  NetPc, starting, testing, choosing, attacking, beating, ended, take_request, ask_exit, Threads,
  UiStep, request, wake, time_out, look, quit, NetStep, greet, go_on, stop, attack, beat, attacked,
  beaten,
}

-- The steps that the network thread can still make once it is to exit.
abbrev pub to_end : NetPc → ℕ
to_end choosing = 3
to_end attacking = 2
to_end beating = 2
to_end starting = 2
to_end testing = 1
to_end ended = 0

-- Steps of both threads, of which `n` are the network thread's.
pub data Run (s : Threads) : ℕ → Threads → Type 0 where
  here : Run s 0 s
  ui_next : {n : ℕ} {t u : Threads} → Run s n t → UiStep t u → Run s n u
  net_next : {n : ℕ} {t u : Threads} → Run s n t → NetStep t u → Run s (suc n) u

abbrev IsLeaving : Threads → Type 0
IsLeaving s = s.shared.should_exit ≡ true

UiStep-IsLeaving : {s t : Threads} → UiStep s t → IsLeaving s → IsLeaving t × (t.net ≡ s.net)
unfolding attack_request attack_finish heartbeat_cb ask_exit
UiStep-IsLeaving {s} (request u) h = ground arith
UiStep-IsLeaving {s} (wake u w) h = ground arith
UiStep-IsLeaving {s} (time_out u w) h = ground arith
UiStep-IsLeaving {s} (look u) h = ground arith
UiStep-IsLeaving {s} (quit u) h = ground arith

NetStep-IsLeaving :
    {s t : Threads} → NetStep s t → IsLeaving s → IsLeaving t × (to_end t.net < to_end s.net)
unfolding network_started attack_answered heartbeat_answered take_request
NetStep-IsLeaving {s} (greet (done _) n) h = ground arith
NetStep-IsLeaving {s} (greet broken n) h = ground arith
NetStep-IsLeaving {s} (greet starved n) h = ground arith
NetStep-IsLeaving {s} (go_on n x) h = ground arith
NetStep-IsLeaving {s} (stop n x) h = ground arith
NetStep-IsLeaving {s} (attack n x) h = ground arith
NetStep-IsLeaving {s} (beat n x) h = ground arith
NetStep-IsLeaving {s} (attacked (done _) n) h = ground arith
NetStep-IsLeaving {s} (attacked broken n) h = ground arith
NetStep-IsLeaving {s} (attacked starved n) h = ground arith
NetStep-IsLeaving {s} (beaten (done _) n) h = ground arith
NetStep-IsLeaving {s} (beaten broken n) h = ground arith
NetStep-IsLeaving {s} (beaten starved n) h = ground arith

Run-IsLeaving :
    {s t : Threads} {n : ℕ}
    → Run s n t
    → IsLeaving s
    → IsLeaving t × (n + to_end t.net ≤ to_end s.net)
Run-IsLeaving here h = (h, omega arith)
Run-IsLeaving (ui_next run st) h =
    let (l, b) = Run-IsLeaving run h in let (l1, e) = UiStep-IsLeaving st l in (l1, rw e b)
Run-IsLeaving (net_next run st) h =
    let (l, b) = Run-IsLeaving run h in let (l1, d) = NetStep-IsLeaving st l in (l1, omega arith)

next_step : (s : Threads) (pc : NetPc) → s.net ≡ pc → (pc ≡ ended) ⊎ ((t : Threads) × NetStep s t)
next_step s starting e = inr (_, greet broken e)
next_step s testing e = elim (Bool-cases s.shared.should_exit) [
  | inl x ↦ inr (_, stop e x)
  | inr x ↦ inr (_, go_on e x)
]
next_step s choosing e = elim (Bool-cases (take_request s.shared).0) [
  | inl x ↦ inr (_, attack e x)
  | inr x ↦ inr (_, beat e x)
]
next_step s attacking e = inr (_, attacked broken e)
next_step s beating e = inr (_, beaten broken e)
next_step s ended e = inl refl

-- Once the UI asks the network thread to exit, or a heartbeat has failed: whatever the UI does and
-- whatever the server answers, the network thread makes at most three more steps, and it is at its
-- end or can make one.
pub network_thread_ends :
    {s t : Threads} {n : ℕ}
    → s.shared.should_exit ≡ true
    → Run s n t
    → (n + to_end t.net ≤ 3) × ((t.net ≡ ended) ⊎ ((u : Threads) × NetStep t u))
network_thread_ends {s} {t} h run =
    let (l, b) = Run-IsLeaving run h in (omega (arith, to_end-le s.net), next_step t t.net refl)
  where
    to_end-le : (pc : NetPc) → to_end pc ≤ 3
    to_end-le starting = omega arith
    to_end-le testing = omega arith
    to_end-le choosing = omega arith
    to_end-le attacking = omega arith
    to_end-le beating = omega arith
    to_end-le ended = omega arith
