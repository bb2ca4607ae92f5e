-- ===== src/Client/Threads.antt =====
-- The UI thread and the network thread of src/client/client.c together. A step is one critical
-- section of one of them on the shared state, or the test at the head of the network thread's loop,
-- which takes no lock. What the requests on the connection return is left open.
pub mod Waiting
pub mod Ending
use world_boss_raid.Base.{ℕ, zero, suc, ◌+◌, ◌≡◌, Bool, true, false, ℤ, pos, if◌then◌else◌}
use world_boss_raid.GameState.{no_name}
use world_boss_raid.Protocol.{PayloadGameState}
use world_boss_raid.Net.{Outcome, done, broken, starved}
use world_boss_raid.Client.Network.{
  UiGameState, SharedGameState, network_started, attack_answered, heartbeat_answered,
  attack_request, still_waiting, attack_finish, heartbeat_cb,
}

-- `memset(&shared.latest_state, 0, …)` and the flags.
abbrev pub blank_state : UiGameState
blank_state = record {
  boss_hp = pos 0;
  max_hp = pos 0;
  online_count = pos 0;
  stage = 0;
  is_respawning = 0;
  is_crit = 0;
  is_lucky = 0;
  last_player_damage = pos 0;
  last_boss_dice = pos 0;
  last_player_streak = pos 0;
  dmg_taken = pos 0;
  last_killer = no_name;
}

abbrev pub shared_init : SharedGameState
shared_init = record {
  latest_state = blank_state;
  state_updated = false;
  attack_requested = false;
  attack_completed = false;
  should_exit = false;
  network_error = pos 0;
}

-- Where the UI thread stands: in ui_game_loop, in the wait of attack_cb_impl, or in pthread_join.
pub data UiPc : Type 0 where
  drawing waiting joining : UiPc

-- Where the network thread stands: in its first heartbeat, before the test of the loop, behind it,
-- in the request of an attack, in that of a heartbeat, or at its end.
pub data NetPc : Type 0 where
  starting testing choosing attacking beating ended : NetPc

-- The critical section at the head of a round: whether there is an attack to send.
unfoldable pub take_request : SharedGameState → Bool × SharedGameState
take_request shared =
    if shared.attack_requested
    then (true, record shared { attack_requested = false })
    else (false, shared)

-- After a heartbeat the loop goes on, or breaks.
abbrev pub after_beat : Outcome PayloadGameState → NetPc
after_beat (done _) = testing
after_beat _ = ended

-- Step 9 of run_interactive_mode_threaded.
unfoldable pub ask_exit : SharedGameState → SharedGameState
ask_exit shared = record shared { should_exit = true }

-- The counters are not in the program: the calls of attack_cb_impl, and the attacks sent.
pub record Threads : Type 0 where
  pub shared : SharedGameState
  pub ui : UiPc
  pub net : NetPc
  pub asked : ℕ
  pub sent : ℕ

abbrev pub threads_init : Threads
threads_init = record { shared = shared_init; ui = drawing; net = starting; asked = 0; sent = 0 }

pub data UiStep (s : Threads) : Threads → Type 0 where
  request :
      s.ui ≡ drawing
      → UiStep s (record s { shared = attack_request s.shared; ui = waiting; asked = suc s.asked })
  wake :
      s.ui ≡ waiting
      → still_waiting s.shared ≡ false
      → UiStep s (record s { shared = (attack_finish s.shared).1; ui = drawing })
  time_out : s.ui ≡ waiting → still_waiting s.shared ≡ true → UiStep s (record s { ui = drawing })
  look : s.ui ≡ drawing → UiStep s (record s { shared = (heartbeat_cb s.shared).1 })
  quit : s.ui ≡ drawing → UiStep s (record s { shared = ask_exit s.shared; ui = joining })

pub data NetStep (s : Threads) : Threads → Type 0 where
  greet :
      (r : Outcome PayloadGameState)
      → s.net ≡ starting
      → NetStep s (record s { shared = network_started r s.shared; net = testing })
  go_on : s.net ≡ testing → s.shared.should_exit ≡ false → NetStep s (record s { net = choosing })
  stop : s.net ≡ testing → s.shared.should_exit ≡ true → NetStep s (record s { net = ended })
  attack :
      s.net ≡ choosing
      → (take_request s.shared).0 ≡ true
      → NetStep s
          (record s { shared = (take_request s.shared).1; net = attacking; sent = suc s.sent })
  beat :
      s.net ≡ choosing
      → (take_request s.shared).0 ≡ false
      → NetStep s (record s { shared = (take_request s.shared).1; net = beating })
  attacked :
      (r : Outcome PayloadGameState)
      → s.net ≡ attacking
      → NetStep s (record s { shared = attack_answered r s.shared; net = testing })
  beaten :
      (r : Outcome PayloadGameState)
      → s.net ≡ beating
      → NetStep s (record s { shared = heartbeat_answered r s.shared; net = after_beat r })

pub data Reach : Threads → Type 0 where
  start : Reach threads_init
  ui_moves : {s t : Threads} → Reach s → UiStep s t → Reach t
  net_moves : {s t : Threads} → Reach s → NetStep s t → Reach t
