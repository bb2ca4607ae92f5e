-- ===== src/Handler/Session/Progress.antt =====
-- The reading loops of a worker on a connection that does not ask for retries without end.
use world_boss_raid.Base.{
  ℕ, zero, suc, ◌+◌, ◌-◌, ◌*◌, ◌≤◌, ◌≢◌, refl, Bool, true, false, not, inl, inr, List, ◌++◌, arith,
  pos, ltb_ℤ, ◌==◌, if◌then◌else◌, Bool-cases, length, drop, take,
}
use native.Mathlib.Nat.{mul-le-mul_right}
use world_boss_raid.Protocol.{
  PacketHeader, GamePacket, size_header, max_payload_size, max_player_name, op_join, op_attack,
  op_leave, op_heartbeat,
}
use world_boss_raid.Protocol.Wire.{header_of}
use world_boss_raid.Protocol.Checksum.{calc_checksum}
use world_boss_raid.GameState.{GameSharedData}
use world_boss_raid.Net.{Os, Outcome, done, broken, starved, read_exactly}
use world_boss_raid.Net.Patience.{IsPatient, read_exactly-ne-starved}
use world_boss_raid.Security.ReplayProtection.{ReplayProtection, replay_protection_validate}
use world_boss_raid.Security.RateLimiter.{rate_limiter_check}
use world_boss_raid.Security.InputValidator.{
  input_validate_username, input_validate_opcode, input_validate_packet_size,
}
use world_boss_raid.Handler.Packets.{
  bad_packet_length, wait_readable, recv_body, recv_checked, recv_packet_with_timeout,
}
use world_boss_raid.Handler.Session.{
  Worker, Turn, next, stopped, hung, cleanup_client, handle_join, handle_attack, handle_heartbeat,
  or_stop, dispatch, admit, is_timed_out, turn, main_loop, fresh_worker, greet, handle_client,
}

module _ (os : Os) (most : ℕ) (patient : IsPatient os most) (fuel : ℕ)
    (enough : max_payload_size * (most + 1) ≤ fuel) where
  open os use {Env, time, ssl_get_fd}

  read-ne-starved :
      (need : ℕ) (e : Env) → need ≤ max_payload_size → (read_exactly os fuel need e).0 ≢ starved
  read-ne-starved need e h =
      read_exactly-ne-starved os most patient fuel need e
        (omega (arith, enough, mul-le-mul_right {m = need} {n = max_payload_size} (most + 1) h))

  recv_body-ne-starved :
      (h : PacketHeader) (pkt : GamePacket) (rp : ReplayProtection) (e : Env)
      → h.length - size_header ≤ max_payload_size
      → (recv_body os fuel h pkt rp e).0 ≢ starved
  unfolding recv_body
  recv_body-ne-starved h pkt rp e short =
      go (read_exactly os fuel (h.length - size_header) e).0
        (read-ne-starved (h.length - size_header) e short)
    where
      e1 : Env
      e1 = (read_exactly os fuel (h.length - size_header) e).1

      matched-ne-starved :
          (b : Bool) (p : GamePacket)
          → (if◌then◌else◌ {A = Outcome GamePacket × ReplayProtection × Env} b
              (done p, rp, e1)
              (broken, rp, e1)).0
            ≢ starved
      matched-ne-starved true p q = cc
      matched-ne-starved false p q = cc

      go :
          (r : Outcome (List ℕ))
          → r ≢ starved
          → (elim r as (λ _. Outcome GamePacket × ReplayProtection × Env) [
            | broken ↦ (broken, rp, e1)
            | starved ↦ (starved, rp, e1)
            | done bs ↦
                if calc_checksum (bs ++ drop (length bs) pkt.raw) (h.length - size_header)
                  == h.checksum
                then (done (record { header = h; raw = bs ++ drop (length bs) pkt.raw }), rp, e1)
                else (broken, rp, e1)
          ]).0
            ≢ starved
      go (done bs) ne = matched-ne-starved _ _
      go broken ne = λ q. cc
      go starved ne = λ q. ne refl

  recv_checked-ne-starved :
      (h : PacketHeader) (pkt : GamePacket) (rp : ReplayProtection) (e : Env)
      → (recv_checked os fuel h pkt rp e).0 ≢ starved
  unfolding recv_checked
  recv_checked-ne-starved h pkt rp e = elim (Bool-cases (bad_packet_length h.length)) [
    | inl b ↦ rw b (λ q. cc)
    | inr b ↦ elim (Bool-cases (replay_protection_validate h.seq_num rp).0) [
      | inl v ↦
          rw (b, v)
            (recv_body-ne-starved h pkt (replay_protection_validate h.seq_num rp).1 e
              (ground arith))
      | inr v ↦ rw (b, v) (λ q. cc)
    ]
  ]

  recv_packet-ne-starved :
      (timeout_sec : ℕ) (pkt : GamePacket) (rp : ReplayProtection) (e : Env)
      → (recv_packet_with_timeout os fuel timeout_sec pkt rp e).0 ≢ starved
  unfolding recv_packet_with_timeout
  recv_packet-ne-starved timeout_sec pkt rp e = elim (Bool-cases (ltb_ℤ (ssl_get_fd e) (pos 0))) [
    | inl b ↦ rw b (λ q. cc)
    | inr b ↦ elim (Bool-cases (wait_readable os timeout_sec e).0) [
      | inr w ↦ rw (b, w) (λ q. cc)
      | inl w ↦
          rw (b, w)
            (go (read_exactly os fuel size_header (wait_readable os timeout_sec e).1).0
              (read-ne-starved size_header (wait_readable os timeout_sec e).1 (omega arith)))
    ]
  ]
    where
      e2 : Env
      e2 = (read_exactly os fuel size_header (wait_readable os timeout_sec e).1).1

      go :
          (r : Outcome (List ℕ))
          → r ≢ starved
          → (elim r as (λ _. Outcome GamePacket × ReplayProtection × Env) [
            | broken ↦ (broken, rp, e2)
            | starved ↦ (starved, rp, e2)
            | done bs ↦ recv_checked os fuel (header_of bs) pkt rp e2
          ]).0
            ≢ starved
      go (done bs) ne = recv_checked-ne-starved (header_of bs) pkt rp e2
      go broken ne = λ q. cc
      go starved ne = λ q. ne refl

  or_stop-ne-hung : (b : Bool) (w : Worker Env) → or_stop os (b, w) ≢ hung
  unfolding or_stop
  or_stop-ne-hung true w q = cc
  or_stop-ne-hung false w q = cc

  dispatch-ne-hung : (w : Worker Env) → dispatch os w ≢ hung
  unfolding dispatch
  dispatch-ne-hung w = elim (Bool-cases (w.packet.header.opcode == op_attack)) [
    | inl e ↦ rw e (or_stop-ne-hung (handle_attack os w).0 (handle_attack os w).1)
    | inr e ↦ elim (Bool-cases (w.packet.header.opcode == op_heartbeat)) [
      | inl f ↦ rw (e, f) (or_stop-ne-hung (handle_heartbeat os w).0 (handle_heartbeat os w).1)
      | inr f ↦ elim (Bool-cases (w.packet.header.opcode == op_leave)) [
        | inl l ↦ rw (e, f, l) (λ q. cc)
        | inr l ↦ rw (e, f, l) (λ q. cc)
      ]
    ]
  ]

  stopped-ne-hung : (w : Worker Env) → stopped w ≢ hung
  stopped-ne-hung w q = cc

  admit-ne-hung : (w : Worker Env) → admit os w ≢ hung
  unfolding admit
  admit-ne-hung w =
      let w1 = record w { rl = (rate_limiter_check (time w.env) w.rl).1 } in
      elim (Bool-cases (rate_limiter_check (time w.env) w.rl).0) [
        | inr e ↦ rw e (stopped-ne-hung (cleanup_client os w1))
        | inl e ↦ elim (Bool-cases (input_validate_opcode w.packet.header.opcode)) [
          | inr f ↦ rw (e, f) (stopped-ne-hung (cleanup_client os w1))
          | inl f ↦
              elim (Bool-cases
                (input_validate_packet_size w.packet.header.opcode w.packet.header.length)) [
                  | inr l ↦ rw (e, f, l) (stopped-ne-hung (cleanup_client os w1))
                  | inl l ↦ rw (e, f, l) (dispatch-ne-hung w1)
                ]
        ]
      ]

  turn-ne-hung : (w : Worker Env) → turn os fuel w ≢ hung
  unfolding turn
  turn-ne-hung w = elim (Bool-cases (is_timed_out os w)) [
    | inl e ↦ rw e (stopped-ne-hung (cleanup_client os w))
    | inr e ↦ rw e (
        go (recv_packet_with_timeout os fuel 5 w.packet w.rp w.env)
          (recv_packet-ne-starved 5 w.packet w.rp w.env))
  ]
    where
      go :
          (r : Outcome GamePacket × ReplayProtection × Env)
          → r.0 ≢ starved
          → (elim r.0 as (λ _. Turn (Worker Env)) [
            | broken ↦ stopped (cleanup_client os (record w { rp = r.1; env = r.2 }))
            | starved ↦ hung
            | done pkt ↦ admit os (record w { rp = r.1; env = r.2; packet = pkt })
          ])
            ≢ hung
      go (done pkt, rp, e) ne = admit-ne-hung (record w { rp = rp; env = e; packet = pkt })
      go (broken, rp, e) ne = λ q. cc
      go (starved, rp, e) ne = λ q. ne refl

  main_loop-ne-hung : (rounds : ℕ) (w : Worker Env) → main_loop os rounds fuel w ≢ hung
  unfolding main_loop
  main_loop-ne-hung zero w = λ q. cc
  main_loop-ne-hung (suc rounds) w =
      go (turn os fuel w) (turn-ne-hung w) (λ w1. main_loop-ne-hung rounds w1)
    where
      go :
          (t : Turn (Worker Env))
          → t ≢ hung
          → ((w1 : Worker Env) → main_loop os rounds fuel w1 ≢ hung)
          → (elim t as (λ _. Turn (Worker Env)) [
            | next w1 ↦ main_loop os rounds fuel w1
            | stopped w1 ↦ stopped w1
            | hung ↦ hung
          ])
            ≢ hung
      go (next w1) ne rest = rest w1
      go (stopped w1) ne rest = λ q. cc
      go hung ne rest = λ q. ne refl

  greet-ne-hung : (w : Worker Env) → greet os fuel w ≢ hung
  unfolding greet
  greet-ne-hung w =
      go (recv_packet_with_timeout os fuel 0 w.packet w.rp w.env)
        (recv_packet-ne-starved 0 w.packet w.rp w.env)
    where
      go :
          (r : Outcome GamePacket × ReplayProtection × Env)
          → r.0 ≢ starved
          → (elim r.0 as (λ _. Turn (Worker Env)) [
            | broken ↦ stopped (cleanup_client os (record w { rp = r.1; env = r.2 }))
            | starved ↦ hung
            | done pkt ↦
                let w2 = record w { rp = r.1; env = r.2; packet = pkt } in
                if not (pkt.header.opcode == op_join)
                then stopped (cleanup_client os w2)
                else if not (input_validate_username (take max_player_name pkt.raw))
                then stopped (cleanup_client os w2)
                else or_stop os (handle_join os w2)
          ])
            ≢ hung
      go (done pkt, rp, e) ne =
          let w2 = record w { rp = rp; env = e; packet = pkt } in
          elim (Bool-cases (pkt.header.opcode == op_join)) [
            | inr f ↦ rw f (stopped-ne-hung (cleanup_client os w2))
            | inl f ↦ elim (Bool-cases (input_validate_username (take max_player_name pkt.raw))) [
              | inr l ↦ rw (f, l) (stopped-ne-hung (cleanup_client os w2))
              | inl l ↦ rw (f, l) (or_stop-ne-hung (handle_join os w2).0 (handle_join os w2).1)
            ]
          ]
      go (broken, rp, e) ne = λ q. cc
      go (starved, rp, e) ne = λ q. ne refl

  -- If SSL_read asks for at most `most` retries in a row and the fuel covers the bytes of the largest
  -- payload with their retries, a worker does not run out of fuel in any of its reading loops: after
  -- any number of rounds it has stopped or is in the main loop.
  pub handle_client-ne-hung :
      (rounds : ℕ) (garbage : GamePacket) (game : GameSharedData) (e : Env)
      → handle_client os rounds fuel garbage game e ≢ hung
  unfolding handle_client
  handle_client-ne-hung rounds garbage game e =
      go (greet os fuel (fresh_worker os garbage game e))
        (greet-ne-hung (fresh_worker os garbage game e))
    where
      go :
          (t : Turn (Worker Env))
          → t ≢ hung
          → (elim t as (λ _. Turn (Worker Env)) [
            | next w ↦ main_loop os rounds fuel w
            | stopped w ↦ stopped w
            | hung ↦ hung
          ])
            ≢ hung
      go (next w) ne = main_loop-ne-hung rounds w
      go (stopped w) ne = λ q. cc
      go hung ne = λ q. ne refl
