-- ===== src/Tests/Sessions.antt =====
-- Ann's session as far as her join: the worker that serves her, and what she can read.
mod Requests
use world_boss_raid.Base.{ℕ, ◌≡◌, refl, List, [], ◌∷◌, ◌++◌, true, false, arith, ◌+ℤ◌}
use world_boss_raid.GameState.{gamestate_init}
use world_boss_raid.Net.{wire}
use world_boss_raid.Handler.Session.{Worker, Turn, next, stopped, hung, fresh_worker, greet}
use world_boss_raid.Handler.Session.Answering.{request_packet, request_size}
use world_boss_raid.Client.Packets.{Link, join_packet, send_join_and_wait_resp}
use world_boss_raid.Client.Packets.JoinTrip.{IsGreeted}
use world_boss_raid.Client.Packets.Conversation.{Exchange, IsCarried, served_by}
use world_boss_raid.Client.Packets.RoundTrip.{last_bytes}
use world_boss_raid.Tests.Connection.{
  Pipe, pipe_os, pipe_io, pipe_os-Delivers, pipe_os-Accepts, request, ann,
}
use world_boss_raid.Tests.RoundTrip.{Answering, client_os, client_io, client_os-Delivers}
use world_boss_raid.Security.RateLimiter.{rate_limiter_init, rate_limiter_check}
use world_boss_raid.Security.ReplayProtection.{replay_protection_init, replay_protection_validate}
use world_boss_raid.Security.InputValidator.{
  allowed_char, all_allowed, input_validate_username, input_validate_opcode,
  input_validate_packet_size,
}
use world_boss_raid.Protocol.Checksum.{calc_checksum}
use world_boss_raid.Protocol.Wire.{
  header_bytes, header_of, join_resp_bytes, join_resp_of, game_state_bytes, game_state_of,
}
use world_boss_raid.Net.{read_exactly, write_all, seal}
use world_boss_raid.Handler.Packets.{
  wait_readable, recv_body, recv_checked, recv_packet_with_timeout, send_packet,
}
use world_boss_raid.Handler.Session.{reply, handle_join, or_stop}
use world_boss_raid.GameState.{gamestate_player_join}
use world_boss_raid.Client.Packets.{
  pkt_init_local, pkt_send_local, recv_local_body, pkt_recv_local, exchange,
}

ann_coming : Pipe
ann_coming = (
  wire (join_packet (ann ++ (0 ∷ [])) 9) 32
      ++ wire (request_packet false 10) (request_size false)
      ++ wire (request_packet true 11) (request_size true),
  [],
)

after_greeting : Turn (Worker Pipe) → Worker Pipe
after_greeting (next w) = w
after_greeting (stopped w) = w
after_greeting hung = fresh_worker pipe_os request gamestate_init ann_coming

ann_serving : Worker Pipe
ann_serving =
    after_greeting (greet pipe_os 1036 (fresh_worker pipe_os request gamestate_init ann_coming))

abbrev AnnExchange : Type 0
AnnExchange =
    Exchange pipe_os pipe_io pipe_os-Delivers (λ e. e.1) pipe_os-Accepts 1036 client_os client_io
      client_os-Delivers 1036

abbrev served_by_ann : AnnExchange → Worker Pipe → Worker Pipe
served_by_ann =
    served_by pipe_os pipe_io pipe_os-Delivers (λ e. e.1) pipe_os-Accepts 1036 client_os client_io
      client_os-Delivers 1036

abbrev IsCarriedToAnn : AnnExchange → Worker Pipe → Link Answering → Type 0
IsCarriedToAnn =
    IsCarried pipe_os pipe_io pipe_os-Delivers (λ e. e.1) pipe_os-Accepts 1036 client_os client_io
      client_os-Delivers 1036

abbrev with_heartbeat : AnnExchange
with_heartbeat = record {
  is_attack = false;
  game = (gamestate_player_join gamestate_init).1;
  rest = wire (request_packet true 11) (request_size true);
  crest = [];
}

-- By then another worker has let a second player in.
abbrev attack_exchange : AnnExchange
attack_exchange = record {
  is_attack = true;
  game = (gamestate_player_join (gamestate_player_join gamestate_init).1).1;
  rest = [];
  crest = [];
}

-- The worker after her heartbeat, and after her attack.
ann_beaten : Worker Pipe
ann_beaten = served_by_ann with_heartbeat ann_serving

ann_attacked : Worker Pipe
ann_attacked = served_by_ann attack_exchange ann_beaten

abbrev heartbeat_exchange : AnnExchange
heartbeat_exchange = record with_heartbeat { crest = last_bytes 76 ann_attacked.env.1 ++ [] }

-- The answers that Ann reads after that to her join.
answers : List ℕ
answers = last_bytes 76 ann_beaten.env.1 ++ (last_bytes 76 ann_attacked.env.1 ++ [])

ann_joining : Link Answering
ann_joining = record { env = ann_serving.env.1 ++ answers; g_seq_num = 9 }

ann_greeted :
    IsGreeted pipe_os pipe_io pipe_os-Delivers
      (λ e. e.1)
      pipe_os-Accepts
      1036
      request
      gamestate_init
      ann_coming
      (ann ++ (0 ∷ []))
      (wire (request_packet false 10) (request_size false)
        ++ wire (request_packet true 11) (request_size true))
      ann_serving
      client_os
      client_io
      client_os-Delivers
      1036
      ann_joining
      answers
unfolding ann_joining ann_serving ann_coming after_greeting greet gamestate_init fresh_worker
    rate_limiter_init rate_limiter_check replay_protection_init replay_protection_validate
    allowed_char all_allowed input_validate_username input_validate_opcode
    input_validate_packet_size calc_checksum header_bytes header_of join_resp_bytes join_resp_of
    game_state_bytes game_state_of read_exactly write_all seal wire wait_readable recv_body
    recv_checked recv_packet_with_timeout send_packet handle_join reply or_stop
    gamestate_player_join pkt_init_local
ann_greeted = record {
  fits = omega arith;
  opened = refl;
  arrives = refl;
  covered = omega arith;
  greeted = refl;
  taken = refl;
  returned = refl;
  fuelled = omega arith;
}

ann_joined : Link Answering
ann_joined = (send_join_and_wait_resp client_os 1036 (ann ++ (0 ∷ [])) ann_joining).1

joined : ann_joined ≡ record { env = answers; g_seq_num = 10 }
unfolding ann_joined ann_joining ann_beaten ann_serving ann_coming after_greeting greet
    gamestate_init fresh_worker rate_limiter_init rate_limiter_check replay_protection_init
    replay_protection_validate allowed_char all_allowed input_validate_username
    input_validate_opcode input_validate_packet_size calc_checksum header_bytes header_of
    join_resp_bytes read_exactly write_all seal wire wait_readable recv_body recv_checked
    recv_packet_with_timeout send_packet handle_join reply or_stop gamestate_player_join
    pkt_init_local ◌+ℤ◌ pkt_send_local recv_local_body pkt_recv_local exchange join_resp_of
    send_join_and_wait_resp
joined = refl
