-- ===== src/Protocol.antt =====
-- src/common/protocol.h: opcodes, packets and their sizes. The structures are packed.
pub mod Wire
pub mod Checksum
use world_boss_raid.Base.{ℕ, ◌+◌, List, ℤ}

abbrev pub max_player_name : ℕ
max_player_name = 32

abbrev pub max_error_message : ℕ
max_error_message = 64

abbrev pub max_payload_size : ℕ
max_payload_size = 1024

-- The enumerators of `OpCode`. An opcode on the wire is any uint16_t.
abbrev pub op_join : ℕ
op_join = 0x10

abbrev pub op_attack : ℕ
op_attack = 0x11

abbrev pub op_leave : ℕ
op_leave = 0x12

abbrev pub op_heartbeat : ℕ
op_heartbeat = 0x13

abbrev pub op_join_resp : ℕ
op_join_resp = 0x20

abbrev pub op_game_state : ℕ
op_game_state = 0x21

abbrev pub op_error : ℕ
op_error = 0x22

pub record PacketHeader : Type 0 where
  pub length : ℕ  -- uint32_t
  pub opcode : ℕ  -- uint16_t
  pub checksum : ℕ  -- uint16_t
  pub seq_num : ℕ  -- uint32_t

pub record PayloadJoinResp : Type 0 where
  pub player_id : ℤ  -- int32_t
  pub status : ℕ  -- uint8_t

pub record PayloadGameState : Type 0 where
  pub boss_hp : ℤ  -- int32_t
  pub max_hp : ℤ  -- int32_t
  pub online_count : ℤ  -- int32_t
  pub stage : ℕ  -- uint8_t
  pub is_respawning : ℕ  -- uint8_t
  pub is_crit : ℕ  -- uint8_t
  pub is_lucky : ℕ  -- uint8_t
  pub last_player_damage : ℤ  -- int32_t
  pub last_boss_dice : ℤ  -- int32_t
  pub last_player_streak : ℤ  -- int32_t
  pub dmg_taken : ℤ  -- int32_t
  pub last_killer : List ℕ  -- char[32]

-- A packet: the header, and the bytes of the union `body`, which its members read.
pub record GamePacket : Type 0 where
  pub header : PacketHeader
  pub raw : List ℕ  -- char[1024]

-- sizeof(PacketHeader) and so on.
abbrev pub size_header : ℕ
size_header = 12

abbrev pub size_join : ℕ
size_join = max_player_name

abbrev pub size_attack : ℕ
size_attack = 4

abbrev pub size_join_resp : ℕ
size_join_resp = 5

abbrev pub size_game_state : ℕ
size_game_state = 64

abbrev pub size_packet : ℕ
size_packet = size_header + max_payload_size
