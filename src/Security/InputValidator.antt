-- ===== src/Security/InputValidator.antt =====
-- src/server/security/input_validator.h and input_validator.c. The tests for NULL pointers are left
-- out: every caller passes the address of a field of its packet.
pub mod Names
pub mod Sizes
use world_boss_raid.Base.{
  ℕ, zero, suc, ◌+◌, Bool, true, false, not, ◌&&◌, ◌||◌, List, [], ◌∷◌, ℤ, pos, ltb_ℤ, ltb, leb,
  ◌==◌, if◌then◌else◌,
}
use world_boss_raid.Base.CString.{strnlen}
use world_boss_raid.Protocol.{
  max_player_name, op_join, op_attack, op_leave, op_heartbeat, size_header, size_packet, size_join,
  size_attack,
}

-- `isalnum` in the C locale.
abbrev pub isalnum : ℕ → Bool
isalnum c = (leb b'0' c && leb c b'9') || (leb b'A' c && leb c b'Z') || (leb b'a' c && leb c b'z')

unfoldable pub allowed_char : ℕ → Bool
allowed_char c = isalnum c || c == b'_' || c == b'-'

-- The loop over the first `len` characters.
unfoldable pub all_allowed : List ℕ → ℕ → Bool
all_allowed username zero = true
all_allowed [] (suc len) = true
all_allowed (c ∷ username) (suc len) = if allowed_char c then all_allowed username len else false

unfoldable pub input_validate_username : List ℕ → Bool
input_validate_username username =
    let len = strnlen username max_player_name in
    if len == 0 || leb max_player_name len then false else all_allowed username len

unfoldable pub input_validate_opcode : ℕ → Bool
input_validate_opcode opcode =
    opcode == op_join || opcode == op_attack || opcode == op_leave || opcode == op_heartbeat

-- The comparison after the `switch`, for an opcode that has a case.
abbrev pub has_size : ℕ → ℕ → Bool
has_size expected_payload_size packet_length =
    not (ltb 0 expected_payload_size && not (packet_length == size_header + expected_payload_size))

unfoldable pub input_validate_packet_size : ℕ → ℕ → Bool
input_validate_packet_size opcode packet_length =
    if ltb packet_length size_header || ltb size_packet packet_length
    then false
    else if opcode == op_join
    then has_size size_join packet_length
    else if opcode == op_attack
    then has_size size_attack packet_length
    else if opcode == op_leave || opcode == op_heartbeat
    then has_size 0 packet_length
    else true

unfoldable pub input_validate_attack_payload : ℤ → Bool
input_validate_attack_payload damage = not (ltb_ℤ damage (pos 0) || ltb_ℤ (pos 1000) damage)
