-- ===== src/Client/Network.antt =====
-- The network thread of client.c, and the callbacks by which the UI thread uses it. Each function is
-- one critical section on `SharedGameState`, or one round of the thread. The waiting of `attack_cb` is
-- left to the schedule: `attack_request`, then rounds of the thread, then `attack_finish`.
-- The end of the wait by its timeout of five seconds, which returns -1, is in Client.Threads.
pub mod Errors
use world_boss_raid.Base.{
  ℕ, Bool, true, false, not, ◌||◌, Option, none, some, List, ℤ, pos, negsuc, eqb_ℤ, ◌==◌,
  if◌then◌else◌, set,
}
use world_boss_raid.Base.CString.{strncpy}
use world_boss_raid.Protocol.{PayloadGameState}
use world_boss_raid.Net.{Os, Outcome, done}
use world_boss_raid.Client.Packets.{Link, net_attack_and_get_state, net_heartbeat_get_state}

-- src/client/ui/client_ui.h
pub record UiGameState : Type 0 where
  pub boss_hp : ℤ
  pub max_hp : ℤ
  pub online_count : ℤ
  pub stage : ℕ
  pub is_respawning : ℕ
  pub is_crit : ℕ
  pub is_lucky : ℕ
  pub last_player_damage : ℤ
  pub last_boss_dice : ℤ
  pub last_player_streak : ℤ
  pub dmg_taken : ℤ
  pub last_killer : List ℕ  -- char[32]

pub record SharedGameState : Type 0 where
  pub latest_state : UiGameState
  pub state_updated : Bool
  pub attack_requested : Bool
  pub attack_completed : Bool
  pub should_exit : Bool
  pub network_error : ℤ

-- `strncpy(dst, src, UI_MAX_NAME - 1); dst[UI_MAX_NAME - 1] = '\0';`
abbrev pub copy_name : List ℕ → List ℕ → List ℕ
copy_name dst src = set (strncpy dst src 31) 31 0

-- The fields that every answer of the server updates.
unfoldable pub copy_common : PayloadGameState → UiGameState → UiGameState
copy_common s ui = record ui {
  boss_hp = s.boss_hp;
  max_hp = s.max_hp;
  online_count = s.online_count;
  stage = s.stage;
  is_respawning = s.is_respawning;
  is_lucky = s.is_lucky;
  last_killer = copy_name ui.last_killer s.last_killer;
}

unfoldable pub clear_attack : UiGameState → UiGameState
clear_attack ui = record ui {
  is_crit = 0;
  last_player_damage = pos 0;
  last_boss_dice = pos 0;
  last_player_streak = pos 0;
  dmg_taken = pos 0;
}

unfoldable pub copy_attack : PayloadGameState → UiGameState → UiGameState
copy_attack s ui = record (copy_common s ui) {
  is_crit = s.is_crit;
  last_player_damage = s.last_player_damage;
  last_boss_dice = s.last_boss_dice;
  last_player_streak = s.last_player_streak;
  dmg_taken = s.dmg_taken;
}

-- A heartbeat clears the fields of the last attack, but not while a lucky kill is announced.
unfoldable pub copy_heartbeat : PayloadGameState → UiGameState → UiGameState
copy_heartbeat s ui =
    let next = copy_common s ui in if s.is_lucky == 0 then clear_attack next else next

-- What the answer to the first heartbeat, sent before the loop, does.
unfoldable pub network_started : Outcome PayloadGameState → SharedGameState → SharedGameState
network_started (done s) shared = record shared {
  network_error = pos 0;
  latest_state = clear_attack (copy_common s shared.latest_state);
  state_updated = true;
}
network_started _ shared = record shared { network_error = pos 0 }

-- What the outcome of an attack does.
unfoldable pub attack_answered : Outcome PayloadGameState → SharedGameState → SharedGameState
attack_answered (done s) shared = record shared {
  latest_state = copy_attack s shared.latest_state;
  state_updated = true;
  attack_completed = true;
}
attack_answered _ shared = record shared { network_error = negsuc 0; attack_completed = true }

-- What the outcome of a heartbeat in the loop does.
unfoldable pub heartbeat_answered : Outcome PayloadGameState → SharedGameState → SharedGameState
heartbeat_answered (done s) shared = record shared {
  latest_state = copy_heartbeat s shared.latest_state;
  state_updated = true;
}
heartbeat_answered _ shared = record shared { network_error = negsuc 0; should_exit = true }

module _ (os : Os) where
  open os use {Env}

  -- One round of `while (!shared->should_exit)`.
  unfoldable pub network_round : ℕ → SharedGameState × Link Env → SharedGameState × Link Env
  network_round fuel (shared, c) =
      if shared.attack_requested
      then (let (r, c1) = net_attack_and_get_state os fuel c in
          (attack_answered r (record shared { attack_requested = false }), c1))
      else (let (r, c1) = net_heartbeat_get_state os fuel c in (heartbeat_answered r shared, c1))

unfoldable pub attack_request : SharedGameState → SharedGameState
attack_request shared = record shared { attack_requested = true; attack_completed = false }

-- The condition of the waiting loop of `attack_cb_impl`.
abbrev pub still_waiting : SharedGameState → Bool
still_waiting shared = not (shared.attack_completed || shared.should_exit)

-- After the wait: `none` stands for -1.
unfoldable pub attack_finish : SharedGameState → Option UiGameState × SharedGameState
attack_finish shared =
    if not (eqb_ℤ shared.network_error (pos 0)) || shared.should_exit
    then (none, shared)
    else (some shared.latest_state, record shared { state_updated = false })

-- `heartbeat_cb_impl` returns the latest state in both branches.
unfoldable pub heartbeat_cb : SharedGameState → UiGameState × SharedGameState
heartbeat_cb shared =
    if shared.state_updated
    then (shared.latest_state, record shared { state_updated = false })
    else (shared.latest_state, shared)
