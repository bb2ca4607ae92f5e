-- ===== src/Client/Packets.antt =====
-- The requests of client.c. `SSL_write` is called once for a packet, and a checksum that does not
-- match is only logged.
pub mod Received
pub mod RoundTrip
pub mod JoinTrip
pub mod Conversation
use world_boss_raid.Base.{
  ℕ, ◌+◌, ◌-◌, ◌%◌, ◌^◌, List, [], ◌++◌, ℤ, ◌==◌, if◌then◌else◌, length, drop, set, replicate,
}
use world_boss_raid.Base.CString.{strncpy}
use world_boss_raid.Protocol.{
  PacketHeader, GamePacket, PayloadGameState, op_join, op_attack, op_heartbeat, op_join_resp,
  op_game_state, size_header, size_join, size_attack, max_payload_size, max_player_name,
}
use world_boss_raid.Protocol.Wire.{header_of, le_bytes, join_resp_of, game_state_of}
use world_boss_raid.Net.{Os, Outcome, done, broken, starved, read_exactly, wire}
use world_boss_raid.Handler.Packets.{bad_packet_length}

-- The counter `g_seq_num` and the environment.
pub record Link (Env : Type 0) : Type 0 where
  pub env : Env
  pub g_seq_num : ℕ  -- uint32_t

-- `memset(pkt, 0, …)`, the opcode and the number; the payload is then written at the start.
unfoldable pub pkt_init_local : ℕ → ℕ → GamePacket
pkt_init_local opcode g_seq_num = record {
  header = record { length = 0; opcode = opcode; checksum = 0; seq_num = g_seq_num };
  raw = replicate max_payload_size 0;
}

abbrev pub put_payload : List ℕ → GamePacket → GamePacket
put_payload payload pkt = record pkt { raw = payload ++ drop (length payload) pkt.raw }

-- The name field of a join, and the packet of the join as it is sent.
abbrev pub join_name : List ℕ → List ℕ
join_name username = set (strncpy (replicate max_player_name 0) username 31) 31 0

abbrev pub join_packet : List ℕ → ℕ → GamePacket
join_packet username seq_num = put_payload (join_name username) (pkt_init_local op_join seq_num)

module _ (os : Os) where
  open os use {Env, ssl_write}

  unfoldable pub pkt_send_local : GamePacket → ℕ → Env → Outcome (Unit {0}) × Env
  pkt_send_local pkt payload_size e =
      let (sent, e1) = ssl_write (wire pkt payload_size) e in
      ((if sent == length (wire pkt payload_size) then done tt else broken), e1)

  unfoldable pub recv_local_body : ℕ → PacketHeader → GamePacket → Env → Outcome GamePacket × Env
  recv_local_body fuel header pkt e =
      let body_len = header.length - size_header in
      let e1 = (read_exactly os fuel body_len e).1 in
      elim (read_exactly os fuel body_len e).0 [
        | broken ↦ (broken, e1)
        | starved ↦ (starved, e1)
        | done bs ↦ (done (record { header = header; raw = bs ++ drop (length bs) pkt.raw }), e1)
      ]

  unfoldable pub pkt_recv_local : ℕ → GamePacket → Env → Outcome GamePacket × Env
  pkt_recv_local fuel pkt e =
      let e1 = (read_exactly os fuel size_header e).1 in
      elim (read_exactly os fuel size_header e).0 [
        | broken ↦ (broken, e1)
        | starved ↦ (starved, e1)
        | done bs ↦
            if bad_packet_length (header_of bs).length
            then (broken, e1)
            else recv_local_body fuel (header_of bs) pkt e1
      ]

  -- Send a request, wait for the answer, and check its opcode: the shape of all three requests.
  unfoldable pub exchange : ℕ → ℕ → List ℕ → ℕ → ℕ → Link Env → Outcome GamePacket × Link Env
  exchange fuel opcode payload payload_size expected c =
      let pkt = put_payload payload (pkt_init_local opcode c.g_seq_num) in
      let next_seq = (c.g_seq_num + 1) % 2 ^ 32 in
      let (sent, e1) = pkt_send_local pkt payload_size c.env in
      let (r, e2) = pkt_recv_local fuel pkt e1 in
      let c1 : Link Env = record { env = e1; g_seq_num = next_seq } in
      let c2 : Link Env = record { env = e2; g_seq_num = next_seq } in
      elim sent [
        | broken ↦ (broken, c1)
        | starved ↦ (starved, c1)
        | done _ ↦ elim r [
          | broken ↦ (broken, c2)
          | starved ↦ (starved, c2)
          | done answer ↦ ((if answer.header.opcode == expected then done answer else broken), c2)
        ]
      ]

  unfoldable pub send_join_and_wait_resp : ℕ → List ℕ → Link Env → Outcome ℤ × Link Env
  send_join_and_wait_resp fuel username c =
      let (r, c1) = exchange fuel op_join (join_name username) size_join op_join_resp c in
      (
        elim r [
          | broken ↦ broken
          | starved ↦ starved
          | done answer ↦
              let resp = join_resp_of answer.raw in
              if resp.status == 1 then done resp.player_id else broken
        ],
        c1,
      )

  -- `*out_state = pkt.body.game_state`
  unfoldable pub state_of_answer : Outcome GamePacket → Outcome PayloadGameState
  state_of_answer broken = broken
  state_of_answer starved = starved
  state_of_answer (done answer) = done (game_state_of answer.raw)

  unfoldable pub net_attack_and_get_state : ℕ → Link Env → Outcome PayloadGameState × Link Env
  net_attack_and_get_state fuel c =
      let (r, c1) = exchange fuel op_attack (le_bytes 4 0) size_attack op_game_state c in
      (state_of_answer r, c1)

  unfoldable pub net_heartbeat_get_state : ℕ → Link Env → Outcome PayloadGameState × Link Env
  net_heartbeat_get_state fuel c =
      let (r, c1) = exchange fuel op_heartbeat [] 0 op_game_state c in (state_of_answer r, c1)
