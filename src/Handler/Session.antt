-- ===== src/Handler/Session.antt =====
-- The life of a worker: `handle_client`, `handle_join`, `handle_attack` and `cleanup_client` of
-- client_handler.c, over the state that the worker keeps.
pub mod Balance
pub mod Closing
pub mod Progress
pub mod Joining
pub mod Answering
pub mod Fits
use world_boss_raid.Base.{
  ℕ, zero, suc, ◌+◌, ◌-◌, Bool, true, false, not, ◌&&◌, ◌||◌, Option, none, some, List, [], ◌∷◌,
  ◌++◌, ℤ, pos, negsuc, ◌+ℤ◌, ◌-ℤ◌, ltb_ℤ, leb_ℤ, ◌==◌, if◌then◌else◌, length, set, replicate, take,
}
use world_boss_raid.Base.CString.{strncpy}
use world_boss_raid.Protocol.{
  GamePacket, PayloadGameState, max_player_name, max_payload_size, op_join, op_attack, op_leave,
  op_heartbeat, op_join_resp, op_game_state, size_join_resp, size_game_state,
}
use world_boss_raid.Protocol.Wire.{join_resp_bytes, game_state_bytes, attack_damage_of}
use world_boss_raid.GameState.{
  GameSharedData, stage_code, no_name, gamestate_player_join, gamestate_player_leave,
  gamestate_clear_lucky_kill,
}
use world_boss_raid.Dice.{AttackResult, flag, die, report, no_state, game_process_attack}
use world_boss_raid.Net.{Os, Outcome, done, broken, starved}
use world_boss_raid.Security.RateLimiter.{RateLimiter, rate_limiter_init, rate_limiter_check}
use world_boss_raid.Security.ReplayProtection.{ReplayProtection, replay_protection_init}
use world_boss_raid.Security.InputValidator.{
  input_validate_username, input_validate_opcode, input_validate_packet_size,
}
use world_boss_raid.Handler.Packets.{recv_packet_with_timeout, send_packet}

-- The local variables of `handle_client`, the shared memory and the environment.
pub record Worker (Env : Type 0) : Type 0 where
  pub env : Env
  pub game : GameSharedData
  pub packet : GamePacket
  pub player_id : ℤ
  pub username : List ℕ  -- char[32]
  pub last_heartbeat : ℤ  -- time_t
  pub rp : ReplayProtection
  pub rl : RateLimiter

abbrev pub heartbeat_timeout : ℤ
heartbeat_timeout = pos 30

-- How a turn of a worker ends: in the main loop, by exit(0) after the cleanup, or with its fuel used
-- up while SSL_read keeps asking for a retry.
pub data Turn (W : Type 0) : Type 0 where
  next : W → Turn W
  stopped : W → Turn W
  hung : Turn W

-- `memset(&resp, 0, …)`, the opcode, and a payload at the start of the body.
abbrev pub response : ℕ → List ℕ → GamePacket
response opcode payload = record {
  header = record { length = 0; opcode = opcode; checksum = 0; seq_num = 0 };
  raw = payload ++ replicate (max_payload_size - length payload) 0;
}

-- The fields that `handle_attack` adds to the state that it sends.
unfoldable pub attach_result : AttackResult → PayloadGameState → PayloadGameState
attach_result result state = record state {
  is_crit = flag result.is_crit;
  is_lucky = flag result.is_lucky_kill;
  last_player_damage = result.dmg_dealt;
  last_boss_dice = result.boss_dice;
  last_player_streak = result.current_streak;
  dmg_taken = result.dmg_taken;
}

-- Whether the event in a snapshot is older than five seconds.
abbrev pub is_old_event : ℤ → GameSharedData → Bool
is_old_event now snap = ltb_ℤ (pos 5) (now -ℤ snap.lucky_kill_timestamp)

-- The answer to a heartbeat, from the snapshot; the clearing of an old event is `after_snapshot`.
unfoldable pub heartbeat_state : ℤ → GameSharedData → PayloadGameState
heartbeat_state now snap = record (report snap no_state) {
  is_lucky = flag (snap.has_lucky_kill_event && not (is_old_event now snap));
}

unfoldable pub after_snapshot : ℤ → GameSharedData → GameSharedData
after_snapshot now snap =
    if snap.has_lucky_kill_event && is_old_event now snap
    then gamestate_clear_lucky_kill snap
    else snap

-- `player_dice <= 0 || player_dice > 6`
abbrev pub bad_dice : ℤ → Bool
bad_dice d = leb_ℤ d (pos 0) || ltb_ℤ (pos 6) d

module _ (os : Os) where
  open os use {Env, rand, time, ssl_close}

  unfoldable pub cleanup_client : Worker Env → Worker Env
  cleanup_client w =
      let closed = record w { env = ssl_close w.env } in
      if leb_ℤ (pos 0) w.player_id
      then record closed { game = gamestate_player_leave w.game }
      else closed

  -- `send_packet` of a response; the Boolean is whether it succeeded.
  unfoldable pub reply : ℕ → List ℕ → ℕ → Worker Env → Bool × Worker Env
  reply opcode payload payload_size w =
      let (r, e) = send_packet os (response opcode payload) payload_size w.env in
      (elim r [ done _ ↦ true | broken ↦ false | starved ↦ false ], record w { env = e })

  unfoldable pub handle_join : Worker Env → Bool × Worker Env
  handle_join w =
      let (online, game1) = gamestate_player_join w.game in
      reply op_join_resp (join_resp_bytes (record { player_id = online; status = 1 }))
        size_join_resp
        (record w {
          username = set (strncpy w.username w.packet.raw 31) 31 0;
          game = game1;
          player_id = online;
        })

  -- The player's dice: the client's, or one that the server rolls.
  unfoldable pub choose_dice : ℤ → Env → ℤ × Env
  choose_dice d e = if bad_dice d then (let (x, e1) = rand e in (die x, e1)) else (d, e)

  unfoldable pub handle_attack : Worker Env → Bool × Worker Env
  handle_attack w =
      let (player_dice, e1) = choose_dice (attack_damage_of w.packet.raw) w.env in
      let (result, state, e2, game1) =
        game_process_attack rand time player_dice w.username e1 w.game in
      reply op_game_state (game_state_bytes (attach_result result state)) size_game_state
        (record w { env = e2; game = game1 })

  -- The case OP_HEARTBEAT. The clock is read twice, with no call between that takes time.
  unfoldable pub handle_heartbeat : Worker Env → Bool × Worker Env
  handle_heartbeat w =
      let now = time w.env in
      reply op_game_state (game_state_bytes (heartbeat_state now w.game)) size_game_state
        (record w { last_heartbeat = now; game = after_snapshot now w.game })

  -- `if (… < 0) { cleanup_client(…); exit(0); }`
  unfoldable pub or_stop : Bool × Worker Env → Turn (Worker Env)
  or_stop (true, w) = next w
  or_stop (false, w) = stopped (cleanup_client w)

  -- The `switch` on the opcode.
  unfoldable pub dispatch : Worker Env → Turn (Worker Env)
  dispatch w =
      if w.packet.header.opcode == op_attack
      then or_stop (handle_attack w)
      else if w.packet.header.opcode == op_heartbeat
      then or_stop (handle_heartbeat w)
      else if w.packet.header.opcode == op_leave
      then stopped (cleanup_client w)
      else next w

  -- The checks of a packet that has arrived.
  unfoldable pub admit : Worker Env → Turn (Worker Env)
  admit w =
      let (allowed, rl1) = rate_limiter_check (time w.env) w.rl in
      let w1 = record w { rl = rl1 } in
      if not allowed
      then stopped (cleanup_client w1)
      else if not (input_validate_opcode w.packet.header.opcode)
      then stopped (cleanup_client w1)
      else if not (input_validate_packet_size w.packet.header.opcode w.packet.header.length)
      then stopped (cleanup_client w1)
      else dispatch w1

  unfoldable pub is_timed_out : Worker Env → Bool
  is_timed_out w =
      ltb_ℤ (pos 0) w.last_heartbeat && ltb_ℤ heartbeat_timeout (time w.env -ℤ w.last_heartbeat)

  -- One round of `while (1)`; `fuel` bounds the rounds of the reading loops.
  unfoldable pub turn : ℕ → Worker Env → Turn (Worker Env)
  turn fuel w =
      if is_timed_out w
      then stopped (cleanup_client w)
      else (let (r, rp1, e1) = recv_packet_with_timeout os fuel 5 w.packet w.rp w.env in
          let w1 = record w { rp = rp1; env = e1 } in
          elim r [
            | broken ↦ stopped (cleanup_client w1)
            | starved ↦ hung
            | done pkt ↦ admit (record w1 { packet = pkt })
          ])

  -- At most so many rounds; `next` is a worker that is still in the loop after them.
  unfoldable pub main_loop : ℕ → ℕ → Worker Env → Turn (Worker Env)
  main_loop zero fuel w = next w
  main_loop (suc rounds) fuel w = elim (turn fuel w) [
    | next w1 ↦ main_loop rounds fuel w1
    | stopped w1 ↦ stopped w1
    | hung ↦ hung
  ]

  -- The worker before its first packet. `garbage` is what the stack holds where `packet` lies.
  unfoldable pub fresh_worker : GamePacket → GameSharedData → Env → Worker Env
  fresh_worker garbage game e = record {
    env = e;
    game = game;
    packet = garbage;
    player_id = negsuc 0;
    username = no_name;
    last_heartbeat = pos 0;
    rp = replay_protection_init;
    rl = rate_limiter_init (time e) 5 1;
  }

  -- From the first packet to the main loop.
  unfoldable pub greet : ℕ → Worker Env → Turn (Worker Env)
  greet fuel w =
      let (r, rp1, e1) = recv_packet_with_timeout os fuel 0 w.packet w.rp w.env in
      let w1 = record w { rp = rp1; env = e1 } in
      elim r [
        | broken ↦ stopped (cleanup_client w1)
        | starved ↦ hung
        | done pkt ↦
            let w2 = record w1 { packet = pkt } in
            if not (pkt.header.opcode == op_join)
            then stopped (cleanup_client w2)
            else if not (input_validate_username (take max_player_name pkt.raw))
            then stopped (cleanup_client w2)
            else or_stop (handle_join w2)
      ]

  unfoldable pub handle_client : ℕ → ℕ → GamePacket → GameSharedData → Env → Turn (Worker Env)
  handle_client rounds fuel garbage game e = elim (greet fuel (fresh_worker garbage game e)) [
    | next w ↦ main_loop rounds fuel w
    | stopped w ↦ stopped w
    | hung ↦ hung
  ]
