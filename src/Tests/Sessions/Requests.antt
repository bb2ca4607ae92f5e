-- ===== src/Tests/Sessions/Requests.antt =====
-- Ann's heartbeat and her attack, carried to the worker and back.
use world_boss_raid.Base.{◌≡◌, refl, [], ◌∷◌, ◌++◌, true, false, arith, ◌+ℤ◌, ◌-ℤ◌, All-replicate}
use world_boss_raid.Base.CString.{text}
use world_boss_raid.GameState.{gamestate_init, empty_history}
use world_boss_raid.GameState.Invariant.{gamestate_init-IsValid, gamestate_player_join-IsValid}
use world_boss_raid.GameState.Streak.{CanGrow}
use world_boss_raid.Net.{wire, done}
use world_boss_raid.Handler.Session.{fresh_worker, greet}
use world_boss_raid.Handler.Session.Answering.{request_packet, request_size}
use world_boss_raid.Client.Packets.{send_join_and_wait_resp}
use world_boss_raid.Client.Packets.Conversation.{AreCarried, AreAnswered, finding}
use world_boss_raid.Client.Packets.RoundTrip.{last_bytes}
use world_boss_raid.Client.Packets.Received.{get_state}
use world_boss_raid.Client.Packets.Conversation.Session.{session-AreAnswered}
use world_boss_raid.Tests.Connection.{
  pipe_os, pipe_io, pipe_os-Delivers, pipe_os-Accepts, request, ann,
}
use world_boss_raid.Tests.RoundTrip.{client_os, client_io, client_os-Delivers}
use world_boss_raid.Security.RateLimiter.{rate_limiter_init, rate_limiter_check}
use world_boss_raid.Security.ReplayProtection.{replay_protection_init, replay_protection_validate}
use world_boss_raid.Security.InputValidator.{
  allowed_char, all_allowed, input_validate_username, input_validate_opcode,
  input_validate_packet_size,
}
use world_boss_raid.Protocol.Checksum.{calc_checksum}
use world_boss_raid.Protocol.Wire.{
  header_bytes, header_of, join_resp_bytes, game_state_bytes, game_state_of,
}
use world_boss_raid.Net.{read_exactly, write_all, seal}
use world_boss_raid.Handler.Packets.{
  wait_readable, recv_body, recv_checked, recv_packet_with_timeout, send_packet,
}
use world_boss_raid.Handler.Session.{
  heartbeat_state, after_snapshot, reply, handle_join, handle_heartbeat, or_stop, dispatch, admit,
  is_timed_out, turn,
}
use world_boss_raid.Dice.{report}
use world_boss_raid.GameState.{gamestate_player_join}
use world_boss_raid.Client.Packets.{
  pkt_init_local, pkt_send_local, recv_local_body, pkt_recv_local, exchange, state_of_answer,
  net_heartbeat_get_state,
}
use world_boss_raid.Tests.Sessions.{
  ann_coming, after_greeting, ann_serving, served_by_ann, IsCarriedToAnn, attack_exchange,
  ann_beaten, ann_attacked, heartbeat_exchange, answers, ann_joining, ann_greeted, ann_joined,
  joined,
}

returned_to_heartbeat :
    answers
    ≡ last_bytes 76 (served_by_ann heartbeat_exchange ann_serving).env.1 ++ heartbeat_exchange.crest
unfolding answers ann_beaten
returned_to_heartbeat = refl

heartbeat-IsCarried : IsCarriedToAnn heartbeat_exchange ann_serving ann_joined
unfolding ann_serving ann_coming after_greeting greet gamestate_init fresh_worker rate_limiter_init
    rate_limiter_check replay_protection_init replay_protection_validate allowed_char all_allowed
    input_validate_username input_validate_opcode input_validate_packet_size calc_checksum
    header_bytes header_of join_resp_bytes read_exactly write_all seal wire wait_readable recv_body
    recv_checked recv_packet_with_timeout send_packet handle_join reply or_stop
    gamestate_player_join pkt_init_local ◌+ℤ◌ ◌-ℤ◌ is_timed_out
heartbeat-IsCarried = rw joined (record {
  alive = refl;
  opened = refl;
  ready = refl;
  arrives = refl;
  covered = omega arith;
  allowed = omega arith;
  taken = refl;
  returned = returned_to_heartbeat;
  fuelled = omega arith;
})

-- What the attack finds.
after_heartbeat :
    (is_timed_out pipe_os (
        finding pipe_os pipe_io pipe_os-Delivers
          (λ e. e.1)
          pipe_os-Accepts
          1036
          client_os
          client_io
          client_os-Delivers
          1036
          attack_exchange
          ann_beaten)
      ≡ false)
    × (ann_beaten.env.0 ≡ wire (request_packet true 11) (request_size true) ++ [])
    × (ann_beaten.rl.request_count ≡ 1)
    × (ann_beaten.rl.max_requests ≡ 5)
unfolding ann_beaten ann_serving ann_coming after_greeting greet gamestate_init fresh_worker
    rate_limiter_init rate_limiter_check replay_protection_init replay_protection_validate
    allowed_char all_allowed input_validate_username input_validate_opcode
    input_validate_packet_size calc_checksum header_bytes header_of join_resp_bytes read_exactly
    write_all seal wire wait_readable recv_body recv_checked recv_packet_with_timeout send_packet
    handle_join reply or_stop gamestate_player_join pkt_init_local ◌+ℤ◌ ◌-ℤ◌ is_timed_out
    heartbeat_state after_snapshot handle_heartbeat dispatch admit turn report game_state_bytes
after_heartbeat = (refl, refl, refl, refl)

-- What Ann then can read is the answer to her attack, and her next number is 11.
read_heartbeat :
    let c = (get_state client_os false 1036 ann_joined).1 in
    (c.env ≡ heartbeat_exchange.crest) × (c.g_seq_num ≡ 11)
unfolding answers ann_beaten ann_serving ann_coming after_greeting greet gamestate_init fresh_worker
    rate_limiter_init rate_limiter_check replay_protection_init replay_protection_validate
    allowed_char all_allowed input_validate_username input_validate_opcode
    input_validate_packet_size calc_checksum header_bytes header_of join_resp_bytes read_exactly
    write_all seal wire wait_readable recv_body recv_checked recv_packet_with_timeout send_packet
    handle_join reply or_stop gamestate_player_join pkt_init_local ◌+ℤ◌ ◌-ℤ◌ is_timed_out
    heartbeat_state after_snapshot handle_heartbeat dispatch admit turn report game_state_bytes
    pkt_send_local recv_local_body pkt_recv_local exchange net_heartbeat_get_state state_of_answer
    game_state_of
read_heartbeat = rw joined (refl, refl)

attack-IsCarried :
    IsCarriedToAnn attack_exchange ann_beaten (get_state client_os false 1036 ann_joined).1
unfolding ann_attacked wait_readable
attack-IsCarried =
    let (alive, coming, count, most) = after_heartbeat in
    let (left, seq) = read_heartbeat in
    record {
      alive = alive;
      opened = refl;
      ready = refl;
      arrives = rw seq coming;
      covered = omega arith;
      allowed = omega (arith, count, most);
      taken = refl;
      returned = left;
      fuelled = omega arith;
    }

requests-AreCarried :
    AreCarried pipe_os pipe_io pipe_os-Delivers
      (λ e. e.1)
      pipe_os-Accepts
      1036
      client_os
      client_io
      client_os-Delivers
      1036
      (heartbeat_exchange ∷ attack_exchange ∷ [])
      ann_serving
      (send_join_and_wait_resp client_os 1036 (ann ++ (0 ∷ [])) ann_joining).1
unfolding ann_beaten ann_joined
requests-AreCarried = (heartbeat-IsCarried, (attack-IsCarried, tt))

session-AreAnswered_example :
    let (r, c') = send_join_and_wait_resp client_os 1036 (ann ++ (0 ∷ [])) ann_joining in
    (text ann_serving.username ≡ text (ann ++ (0 ∷ [])))
    × (r ≡ done ann_serving.player_id)
    × AreAnswered pipe_os pipe_io pipe_os-Delivers
        (λ e. e.1)
        pipe_os-Accepts
        1036
        client_os
        client_io
        client_os-Delivers
        1036
        (heartbeat_exchange ∷ attack_exchange ∷ [])
        ann_serving
        c'
unfolding input_validate_username all_allowed allowed_char gamestate_init gamestate_player_join ◌+ℤ◌
session-AreAnswered_example =
    let room = All-replicate CanGrow 100 empty_history (omega arith, omega arith) in
    let one = gamestate_player_join-IsValid gamestate_init gamestate_init-IsValid in
    let two = gamestate_player_join-IsValid (gamestate_player_join gamestate_init).1 one in
    session-AreAnswered pipe_os pipe_io pipe_os-Delivers (λ e. e.1) pipe_os-Accepts 1036 request
      gamestate_init ann_coming (ann ++ (0 ∷ []))
      (wire (request_packet false 10) (request_size false)
        ++ wire (request_packet true 11) (request_size true))
      ann_serving client_os client_io client_os-Delivers 1036 ann_joining answers refl
      (omega arith, omega arith) ann_greeted (heartbeat_exchange ∷ attack_exchange ∷ [])
      ((one, (omega arith, omega arith), room), ((two, (omega arith, omega arith), room), tt))
      requests-AreCarried
