-- ===== src/Handler/Session/Answering.antt =====
-- A heartbeat and an attack of a client (`net_heartbeat_get_state` and `net_attack_and_get_state` of
-- client.c) at the worker that serves it.
use world_boss_raid.Base.{
  ℕ, ◌+◌, ◌≤◌, ◌<◌, ◌^◌, ◌≡◌, refl, ◌∙◌, Bool, true, false, List, [], ◌++◌, arith, ℤ, pos, ltb_ℤ,
}
use world_boss_raid.Protocol.{
  GamePacket, op_attack, op_heartbeat, op_game_state, size_attack, size_game_state, size_packet,
}
use world_boss_raid.Protocol.Wire.{game_state_bytes, le_bytes}
use world_boss_raid.Dice.{die, game_process_attack}
use world_boss_raid.Net.{Os, done, wire, seal}
use world_boss_raid.Net.Laws.{Incoming, Delivers, Accepts}
use world_boss_raid.Security.RateLimiter.{RateLimiter, rate_limiter_check}
use world_boss_raid.Security.ReplayProtection.{replay_protection_validate}
use world_boss_raid.Security.InputValidator.{input_validate_opcode, input_validate_packet_size}
use world_boss_raid.Handler.Packets.{recv_packet_with_timeout, wait_readable}
use world_boss_raid.Handler.Packets.Transfer.{IsPacket, arrived, recv_packet_lem, send_packet_lem}
use world_boss_raid.Handler.Session.{
  Worker, next, response, reply, attach_result, choose_dice, heartbeat_state, after_snapshot,
  handle_heartbeat, handle_attack, dispatch, admit, is_timed_out, turn,
}
use world_boss_raid.Handler.Session.Joining.{or_stop-next}
use world_boss_raid.Client.Packets.{pkt_init_local, put_payload}

-- The two requests of a player, as `exchange` sends them.
abbrev pub request_packet : Bool → ℕ → GamePacket
request_packet true seq_num = put_payload (le_bytes 4 0) (pkt_init_local op_attack seq_num)
request_packet false seq_num = put_payload [] (pkt_init_local op_heartbeat seq_num)

abbrev pub request_size : Bool → ℕ
request_size true = size_attack
request_size false = 0

request_packet-IsPacket :
    (is_attack : Bool) (seq_num : ℕ)
    → seq_num < 2 ^ 32
    → IsPacket (request_packet is_attack seq_num) (request_size is_attack)
unfolding pkt_init_local
request_packet-IsPacket true seq_num h = record {
  opcode_fits = omega arith;
  seq_num_fits = h;
  raw_fits = refl;
  payload_fits = omega arith;
}
request_packet-IsPacket false seq_num h = record {
  opcode_fits = omega arith;
  seq_num_fits = h;
  raw_fits = refl;
  payload_fits = omega arith;
}

module _ (os : Os) where
  open os use {Env, time, ssl_get_fd}

  turn_received :
      (fuel : ℕ) (w : Worker Env) (pkt : GamePacket)
      → is_timed_out os w ≡ false
      → (recv_packet_with_timeout os fuel 5 w.packet w.rp w.env).0 ≡ done pkt
      → (rate_limiter_check
          (time (recv_packet_with_timeout os fuel 5 w.packet w.rp w.env).2)
          w.rl).0
        ≡ true
      → input_validate_opcode pkt.header.opcode ≡ true
      → input_validate_packet_size pkt.header.opcode pkt.header.length ≡ true
      → let (_, rp1, e1) = recv_packet_with_timeout os fuel 5 w.packet w.rp w.env in
        turn os fuel w
        ≡ dispatch os (record w {
          rp = rp1;
          env = e1;
          packet = pkt;
          rl = (rate_limiter_check (time e1) w.rl).1;
        })
  unfolding turn admit
  turn_received fuel w pkt t r l o s = rw (t, turn) (rw (r, turn) (simp (l, o, s)))

  -- A reply goes out if SSL_write works.
  reply_lem :
      (outgoing : Env → List ℕ)
      → Accepts os outgoing
      → (opcode : ℕ) (payload : List ℕ) (payload_size : ℕ) (w : Worker Env)
      → let (ok, w') = reply os opcode payload payload_size w in
        (ok ≡ true)
        × (outgoing w'.env ≡ outgoing w.env ++ wire (response opcode payload) payload_size)
  unfolding reply
  reply_lem outgoing accepts opcode payload payload_size w =
      let (sent, bytes) =
        send_packet_lem os outgoing accepts (response opcode payload) payload_size w.env in
      (rw (sent, reply) refl, bytes)

  -- Every request passes a limiter that has counted fewer than its maximum.
  rate_limiter_check-passes :
      (now : ℤ) (rl : RateLimiter)
      → rl.request_count < rl.max_requests
      → (rate_limiter_check now rl).0 ≡ true
  unfolding rate_limiter_check
  rate_limiter_check-passes now rl h = ground (arith, h)

  module _ (io : Incoming os) (delivers : Delivers os io) (outgoing : Env → List ℕ)
      (accepts : Accepts os outgoing) (fuel : ℕ) (w : Worker Env) (seq_num : ℕ)
      (rest : List ℕ) where
    -- A request that the worker can take: the socket is open and readable and delivers what is pending
    -- with enough fuel, the last heartbeat is not too old, the number is new, and the limit of the rate
    -- is not reached.
    pub record IsArriving (is_attack : Bool) : Type 0 where
      pub fits : seq_num < 2 ^ 32
      pub alive : is_timed_out os w ≡ false
      pub opened : ltb_ℤ (ssl_get_fd w.env) (pos 0) ≡ false
      pub ready : (wait_readable os 5 w.env).0 ≡ true
      pub fresh : (replay_protection_validate seq_num w.rp).0 ≡ true
      pub arrives :
          io.pending (wait_readable os 5 w.env).1
          ≡ wire (request_packet is_attack seq_num) (request_size is_attack) ++ rest
      pub fuelled : size_packet + io.retries (wait_readable os 5 w.env).1 ≤ fuel
      pub allowed : w.rl.request_count < w.rl.max_requests

    -- The worker that has read the request.
    with_request : (is_attack : Bool) → IsArriving is_attack → Worker Env
    with_request is_attack a =
        let (_, rp1, e1) = recv_packet_with_timeout os fuel 5 w.packet w.rp w.env in
        record w {
          rp = rp1;
          env = e1;
          packet =
              arrived os io delivers fuel (request_packet is_attack seq_num)
                (request_size is_attack) (request_packet-IsPacket is_attack seq_num a.fits) w.packet
                w.rp;
          rl = (rate_limiter_check (time e1) w.rl).1;
        }

    turn-dispatch :
        (is_attack : Bool) (a : IsArriving is_attack)
        → (turn os fuel w ≡ dispatch os (with_request is_attack a))
          × ((with_request is_attack a).rp ≡ (replay_protection_validate seq_num w.rp).1)
    unfolding with_request pkt_init_local seal input_validate_opcode input_validate_packet_size
    turn-dispatch true a =
        let (r, rp, _) =
          recv_packet_lem os io delivers fuel (request_packet true seq_num) size_attack
            (request_packet-IsPacket true seq_num a.fits) w.packet w.rp 5 rest w.env a.opened
            a.ready a.fresh a.arrives a.fuelled in
        (
          turn_received fuel w (with_request true a).packet a.alive r
              (rate_limiter_check-passes _ w.rl a.allowed) refl refl,
          rp,
        )
    turn-dispatch false a =
        let (r, rp, _) =
          recv_packet_lem os io delivers fuel (request_packet false seq_num) 0
            (request_packet-IsPacket false seq_num a.fits) w.packet w.rp 5 rest w.env a.opened
            a.ready a.fresh a.arrives a.fuelled in
        (
          turn_received fuel w (with_request false a).packet a.alive r
              (rate_limiter_check-passes _ w.rl a.allowed) refl refl,
          rp,
        )

    -- A client's heartbeat that arrives at a worker, on a connection that works: the worker stays in its
    -- loop; it notes the time; the game is changed by the end of an old event only; the last bytes that
    -- it sends are the state of its game at that time; the number is recorded; and the name stays.
    pub turn-heartbeat :
        IsArriving false
        → (w' : Worker Env) × (turn os fuel w ≡ next w')
          × (w'.game ≡ after_snapshot w'.last_heartbeat w.game)
          × ((before : List ℕ) × (outgoing w'.env
                ≡ before
                  ++ wire
                      (response op_game_state
                        (game_state_bytes (heartbeat_state w'.last_heartbeat w.game)))
                      size_game_state))
          × (w'.rp ≡ (replay_protection_validate seq_num w.rp).1)
          × (w'.username ≡ w.username)
    unfolding dispatch handle_heartbeat reply with_request pkt_init_local seal
    turn-heartbeat a =
        let (t, rp) = turn-dispatch false a in
        let w1 = with_request false a in
        let now = time w1.env in
        let (ok, sent) =
          reply_lem outgoing accepts op_game_state (game_state_bytes (heartbeat_state now w.game))
            size_game_state
            (record w1 { last_heartbeat = now; game = after_snapshot now w.game }) in
        (
          (handle_heartbeat os w1).1,
          t ∙ or_stop-next os (handle_heartbeat os w1) ok,
          refl,
          (outgoing w1.env, sent),
          rp,
          refl,
        )

    -- A client's attack that arrives at a worker, on a connection that works: the worker stays in its
    -- loop; it has rolled the player's dice itself, from 1 to 6 by its next call of `rand`, since the
    -- client sends none; the game is that after the attack of this player with this dice; the last bytes
    -- that the worker sends are the state of the attack with its result; the number is recorded; and the
    -- name stays.
    pub turn-attack :
        IsArriving true
        → let (_, _, e0) = recv_packet_with_timeout os fuel 5 w.packet w.rp w.env in
          let (x, e) = os.rand e0 in
          let (result, state, e1, game1) =
            game_process_attack (os.rand) time (die x) w.username e w.game in
          (w' : Worker Env) × (turn os fuel w ≡ next w')
          × (w'.game ≡ game1)
          × (outgoing w'.env
              ≡ outgoing e1
                ++ wire
                    (response op_game_state (game_state_bytes (attach_result result state)))
                    size_game_state)
          × (w'.rp ≡ (replay_protection_validate seq_num w.rp).1)
          × (w'.username ≡ w.username)
    unfolding dispatch handle_attack choose_dice reply with_request pkt_init_local seal
    turn-attack a =
        let (t, rp) = turn-dispatch true a in
        let w1 = with_request true a in
        let (x, e) = os.rand w1.env in
        let (result, state, e1, game1) =
          game_process_attack (os.rand) time (die x) w.username e w.game in
        let (ok, sent) =
          reply_lem outgoing accepts op_game_state (game_state_bytes (attach_result result state))
            size_game_state (record w1 { env = e1; game = game1 }) in
        (
          (handle_attack os w1).1,
          t ∙ or_stop-next os (handle_attack os w1) ok,
          refl,
          sent,
          rp,
          refl,
        )
