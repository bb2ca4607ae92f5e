-- ===== src/Tests/Answers.antt =====
-- A worker that gets a heartbeat, and one that gets an attack.
use world_boss_raid.Base.{◌≡◌, refl, Bool, true, [], ◌++◌, arith, pos}
use world_boss_raid.Protocol.{op_game_state, size_game_state}
use world_boss_raid.Protocol.Wire.{game_state_bytes}
use world_boss_raid.GameState.{gamestate_init}
use world_boss_raid.Dice.{die, game_process_attack}
use world_boss_raid.Net.{wire}
use world_boss_raid.Security.RateLimiter.{rate_limiter_init}
use world_boss_raid.Security.ReplayProtection.{replay_protection_validate}
use world_boss_raid.Handler.Packets.{wait_readable, recv_packet_with_timeout}
use world_boss_raid.Handler.Session.{
  Worker, next, response, attach_result, fresh_worker, is_timed_out, turn,
}
use world_boss_raid.Handler.Session.Answering.{
  request_packet, request_size, IsArriving, turn-attack,
}
use world_boss_raid.Tests.Connection.{
  Pipe, pipe_os, pipe_io, pipe_os-Delivers, pipe_os-Accepts, request, after_join,
}

abbrev pub serving : Bool → Worker Pipe
serving is_attack =
    record (fresh_worker pipe_os request gamestate_init
      (wire (request_packet is_attack 9) (request_size is_attack) ++ [], [])) {
        player_id = pos 1;
        rp = after_join;
      }

pub serving-IsArriving :
    (is_attack : Bool)
    → IsArriving pipe_os pipe_io pipe_os-Delivers
        (λ e. e.1)
        pipe_os-Accepts
        1036
        (serving is_attack)
        9
        []
        is_attack
unfolding is_timed_out wait_readable replay_protection_validate fresh_worker rate_limiter_init
serving-IsArriving is_attack = record {
  fits = omega arith;
  alive = refl;
  opened = refl;
  ready = refl;
  fresh = refl;
  arrives = refl;
  fuelled = omega arith;
  allowed = omega arith;
}

turn-attack_example :
    let (_, _, e0) =
      recv_packet_with_timeout pipe_os 1036 5
        (serving true).packet
        (serving true).rp
        (serving true).env in
    let (x, e) = pipe_os.rand e0 in
    let (result, state, e1, game1) =
      game_process_attack pipe_os.rand pipe_os.time
        (die x)
        (serving true).username
        e
        (serving true).game in
    (w' : Worker Pipe) × (turn pipe_os 1036 (serving true) ≡ next w')
    × (w'.game ≡ game1)
    × (w'.env.1
        ≡ e1.1
          ++ wire
              (response op_game_state (game_state_bytes (attach_result result state)))
              size_game_state)
    × (w'.rp ≡ (replay_protection_validate 9 after_join).1)
    × (w'.username ≡ (serving true).username)
turn-attack_example =
    turn-attack pipe_os pipe_io pipe_os-Delivers (λ e. e.1) pipe_os-Accepts 1036 (serving true) 9 []
      (serving-IsArriving true)
