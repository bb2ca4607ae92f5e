-- ===== src/Security/InputValidator/Sizes.antt =====
-- Which packets of the main loop pass both checks of the header.
use world_boss_raid.Base.{ℕ, ◌≤◌, ◌≡◌, ◌⊎◌, ◌↔◌, true, arith}
use world_boss_raid.Protocol.{op_join, op_attack, op_leave, op_heartbeat}
use world_boss_raid.Security.InputValidator.{input_validate_opcode, input_validate_packet_size}

-- The lengths that the protocol has for an opcode of a client.
abbrev pub IsWellSized : ℕ → ℕ → Type 0
IsWellSized opcode len =
    ((opcode ≡ op_join) × (len ≡ 44))
    ⊎ (((opcode ≡ op_attack) × (len ≡ 16))
        ⊎ (((opcode ≡ op_leave) ⊎ (opcode ≡ op_heartbeat)) × (12 ≤ len) × (len ≤ 1036)))

-- Both checks pass exactly for a join of 44 bytes, an attack of 16, and a leave or a heartbeat of any
-- size that fits a packet.
pub input_validate_header_iff :
    (opcode len : ℕ)
    → ((input_validate_opcode opcode ≡ true) × (input_validate_packet_size opcode len ≡ true))
      ↔ IsWellSized opcode len
unfolding input_validate_opcode input_validate_packet_size
input_validate_header_iff opcode len = (λ h. ground arith, λ h. ground arith)
