-- ===== src/Client/Threads/Waiting.antt =====
-- The wait of attack_cb_impl.
use world_boss_raid.Base.{◌+◌, ◌≤◌, ◌≡◌, ◌≢◌, ◌⊎◌, true, arith, if◌then◌else◌}
use world_boss_raid.Net.{done, broken, starved}
use world_boss_raid.Client.Network.{
  network_started, attack_answered, heartbeat_answered, attack_request, still_waiting,
  attack_finish, heartbeat_cb,
}
use world_boss_raid.Client.Threads.{
  waiting, joining, attacking, ended, take_request, ask_exit, Threads, threads_init, UiStep,
  request, wake, time_out, look, quit, NetStep, greet, go_on, stop, attack, beat, attacked, beaten,
  Reach, start, ui_moves, net_moves,
}

-- An attack is on its way to an answer.
abbrev pub IsPending : Threads → Type 0
IsPending s = (s.shared.attack_requested ≡ true) ⊎ (s.net ≡ attacking)

pub record Inv (s : Threads) : Type 0 where
  pub waited : s.ui ≡ waiting → still_waiting s.shared ≡ true → IsPending s
  pub alive : s.net ≡ ended → s.shared.should_exit ≡ true
  pub left : s.ui ≡ joining → s.shared.should_exit ≡ true
  pub counted : s.sent + (if s.shared.attack_requested then 1 else 0) ≤ s.asked

UiStep-Inv : {s t : Threads} → UiStep s t → Inv s → Inv t
unfolding attack_request attack_finish heartbeat_cb ask_exit
UiStep-Inv {s} (request u) i = record {
  waited = λ a b. ground (arith, i.waited);
  alive = λ a. ground (arith, i.alive);
  left = λ a. ground (arith, i.left);
  counted = ground (arith, i.counted);
}
UiStep-Inv {s} (wake u w) i = record {
  waited = λ a b. ground (arith, i.waited);
  alive = λ a. ground (arith, i.alive);
  left = λ a. ground (arith, i.left);
  counted = ground (arith, i.counted);
}
UiStep-Inv {s} (time_out u w) i = record {
  waited = λ a b. ground (arith, i.waited);
  alive = λ a. ground (arith, i.alive);
  left = λ a. ground (arith, i.left);
  counted = ground (arith, i.counted);
}
UiStep-Inv {s} (look u) i = record {
  waited = λ a b. ground (arith, i.waited);
  alive = λ a. ground (arith, i.alive);
  left = λ a. ground (arith, i.left);
  counted = ground (arith, i.counted);
}
UiStep-Inv {s} (quit u) i = record {
  waited = λ a b. ground (arith, i.waited);
  alive = λ a. ground (arith, i.alive);
  left = λ a. ground (arith, i.left);
  counted = ground (arith, i.counted);
}

NetStep-Inv : {s t : Threads} → NetStep s t → Inv s → Inv t
unfolding network_started attack_answered heartbeat_answered take_request
NetStep-Inv {s} (greet (done _) n) i = record {
  waited = λ a b. ground (arith, i.waited);
  alive = λ a. ground (arith, i.alive);
  left = λ a. ground (arith, i.left);
  counted = ground (arith, i.counted);
}
NetStep-Inv {s} (greet broken n) i = record {
  waited = λ a b. ground (arith, i.waited);
  alive = λ a. ground (arith, i.alive);
  left = λ a. ground (arith, i.left);
  counted = ground (arith, i.counted);
}
NetStep-Inv {s} (greet starved n) i = record {
  waited = λ a b. ground (arith, i.waited);
  alive = λ a. ground (arith, i.alive);
  left = λ a. ground (arith, i.left);
  counted = ground (arith, i.counted);
}
NetStep-Inv {s} (go_on n x) i = record {
  waited = λ a b. ground (arith, i.waited);
  alive = λ a. ground (arith, i.alive);
  left = λ a. ground (arith, i.left);
  counted = ground (arith, i.counted);
}
NetStep-Inv {s} (stop n x) i = record {
  waited = λ a b. ground (arith, i.waited);
  alive = λ a. ground (arith, i.alive);
  left = λ a. ground (arith, i.left);
  counted = ground (arith, i.counted);
}
NetStep-Inv {s} (attack n x) i = record {
  waited = λ a b. ground (arith, i.waited);
  alive = λ a. ground (arith, i.alive);
  left = λ a. ground (arith, i.left);
  counted = ground (arith, i.counted);
}
NetStep-Inv {s} (beat n x) i = record {
  waited = λ a b. ground (arith, i.waited);
  alive = λ a. ground (arith, i.alive);
  left = λ a. ground (arith, i.left);
  counted = ground (arith, i.counted);
}
NetStep-Inv {s} (attacked (done _) n) i = record {
  waited = λ a b. ground (arith, i.waited);
  alive = λ a. ground (arith, i.alive);
  left = λ a. ground (arith, i.left);
  counted = ground (arith, i.counted);
}
NetStep-Inv {s} (attacked broken n) i = record {
  waited = λ a b. ground (arith, i.waited);
  alive = λ a. ground (arith, i.alive);
  left = λ a. ground (arith, i.left);
  counted = ground (arith, i.counted);
}
NetStep-Inv {s} (attacked starved n) i = record {
  waited = λ a b. ground (arith, i.waited);
  alive = λ a. ground (arith, i.alive);
  left = λ a. ground (arith, i.left);
  counted = ground (arith, i.counted);
}
NetStep-Inv {s} (beaten (done _) n) i = record {
  waited = λ a b. ground (arith, i.waited);
  alive = λ a. ground (arith, i.alive);
  left = λ a. ground (arith, i.left);
  counted = ground (arith, i.counted);
}
NetStep-Inv {s} (beaten broken n) i = record {
  waited = λ a b. ground (arith, i.waited);
  alive = λ a. ground (arith, i.alive);
  left = λ a. ground (arith, i.left);
  counted = ground (arith, i.counted);
}
NetStep-Inv {s} (beaten starved n) i = record {
  waited = λ a b. ground (arith, i.waited);
  alive = λ a. ground (arith, i.alive);
  left = λ a. ground (arith, i.left);
  counted = ground (arith, i.counted);
}

threads_init-Inv : Inv threads_init
threads_init-Inv = record {
  waited = λ a b. ground arith;
  alive = λ a. ground arith;
  left = λ a. ground arith;
  counted = omega arith;
}

pub Reach-Inv : {s : Threads} → Reach s → Inv s
Reach-Inv start = threads_init-Inv
Reach-Inv (ui_moves r st) = UiStep-Inv st (Reach-Inv r)
Reach-Inv (net_moves r st) = NetStep-Inv st (Reach-Inv r)

-- In every reachable state in which the UI thread waits for an attack, neither completed nor with a
-- request to exit, the attack is still requested or the network thread is sending it, and the network
-- thread has not ended.
pub waiting-IsPending :
    {s : Threads}
    → Reach s
    → s.ui ≡ waiting
    → still_waiting s.shared ≡ true
    → IsPending s × (s.net ≢ ended)
waiting-IsPending {s} r u w =
    let i = Reach-Inv r in (i.waited u w, λ e. absurd (ground (arith, i.alive e)))

-- In every reachable state the network thread has sent no more attacks than the UI has asked for, and
-- one less if a request is still open.
pub attacks_sent-le :
    {s : Threads} → Reach s → s.sent + (if s.shared.attack_requested then 1 else 0) ≤ s.asked
attacks_sent-le r = (Reach-Inv r).counted
