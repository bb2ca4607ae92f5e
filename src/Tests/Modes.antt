-- ===== src/Tests/Modes.antt =====
-- The modes and the server where every call of the libraries returns 3, or 0 and 1 where these mean that
-- all is well.
use world_boss_raid.Base.{ℕ, ◌≡◌, refl, true, List, [], ◌∷◌, ℤ, pos}
use world_boss_raid.Protocol.{GamePacket}
use world_boss_raid.GameState.{gamestate_init}
use world_boss_raid.Resources.{Call, held_nothing, is_negative}
use world_boss_raid.Client.Packets.{Link}
use world_boss_raid.Client.Ui.{quit}
use world_boss_raid.Client.Modes.Threaded.{run_interactive_mode_threaded}
use world_boss_raid.Client.Modes.Balance.Threaded.{
  EndsClean, run_interactive_mode_threaded-EndsClean,
}
use world_boss_raid.Client.Modes.Single.{run_interactive_mode}
use world_boss_raid.Client.Modes.Balance.{holding_context}
use world_boss_raid.Client.Modes.Balance.Single.{EndsTidied, run_interactive_mode-EndsTidied}
use world_boss_raid.Client.Stress.{stress_worker_thread}
use world_boss_raid.Client.Stress.Balance.{EndsWith, stress_worker_thread-EndsWith}
use world_boss_raid.Server.{Opened, server_start, master_loop, worker_process, sigquit_handler}
use world_boss_raid.Server.Startup.{StartsWell, server_start-StartsWell, in_service}
use world_boss_raid.Server.Serving.{
  AllHave, Has, HoldsItsShare, master_loop-held, worker_process-HoldsItsShare,
}
use world_boss_raid.Tests.Connection.{Pipe, pipe_os}

abbrev answer : Call → ℤ
answer Call.ssl_set_fd = pos 1
answer Call.ssl_get_verify_result = pos 0
answer Call.pthread_create = pos 0
answer Call.pthread_mutex_init = pos 0
answer (Call.setsockopt fd) = fd
answer _ = pos 3

abbrev all_is_well : {Env : Type 0} → Call → Env → ℤ × Env
all_is_well c e = (answer c, e)

abbrev silent : Link Pipe
silent = record { env = ([], []); g_seq_num = 1 }

abbrev typed : {S : Type 0} → ℕ → S → List ℕ × S
typed n s = (b'B' ∷ [], s)

abbrev roll : {S : Type 0} → S → ℕ × S
roll s = (4, s)

run_interactive_mode_threaded-EndsClean_example : EndsClean (
    run_interactive_mode_threaded pipe_os 40 all_is_well typed roll
      (quit ∷ [])
      (1 ∷ [])
      (record { env = silent; held = held_nothing }))
run_interactive_mode_threaded-EndsClean_example =
    run_interactive_mode_threaded-EndsClean pipe_os 40 all_is_well typed roll (quit ∷ []) (1 ∷ [])
      silent

run_interactive_mode-EndsTidied_example : EndsTidied (
    run_interactive_mode pipe_os 40 all_is_well typed roll
      (quit ∷ [])
      (record { env = silent; held = held_nothing }))
run_interactive_mode-EndsTidied_example =
    run_interactive_mode-EndsTidied pipe_os 40 all_is_well typed roll (quit ∷ []) silent

stress_worker_thread-EndsWith_example : EndsWith holding_context (
    stress_worker_thread pipe_os all_is_well 40 7 (record { env = silent; held = holding_context }))
stress_worker_thread-EndsWith_example =
    stress_worker_thread-EndsWith pipe_os all_is_well 40 7 silent

answer-setsockopt :
    (fd : ℤ) (e : Pipe)
    → is_negative fd ≡ true
    → is_negative (all_is_well (Call.setsockopt fd) e).0 ≡ true
answer-setsockopt fd e h = h

server_start-StartsWell_example :
    StartsWell (server_start all_is_well (record { env = silent.env; held = held_nothing }))
server_start-StartsWell_example = server_start-StartsWell all_is_well answer-setsockopt silent.env

abbrev master : Opened Pipe
master = record { world = record { env = silent.env; held = in_service }; descriptors = pos 9 ∷ [] }

master_loop-held_example :
    AllHave in_service (master_loop all_is_well 2 (pos 9) master).0
    × Has (pos 9) in_service (master_loop all_is_well 2 (pos 9) master).1
    × ((sigquit_handler (master_loop all_is_well 2 (pos 9) master).1.world).held
        ≡ record in_service { mappings = 0 })
master_loop-held_example = master_loop-held all_is_well (pos 9) (λ e. refl) 2 master refl

abbrev no_packet : GamePacket
no_packet = record {
  header = record { length = 0; opcode = 0; checksum = 0; seq_num = 0 };
  raw = [];
}

worker_process-HoldsItsShare_example :
    HoldsItsShare (worker_process pipe_os all_is_well 2 40 no_packet gamestate_init master.world)
worker_process-HoldsItsShare_example =
    worker_process-HoldsItsShare pipe_os all_is_well 2 40 no_packet gamestate_init master.world refl
