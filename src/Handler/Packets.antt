-- ===== src/Handler/Packets.antt =====
-- The packets of a worker: `recv_packet_with_timeout` and `send_packet` of client_handler.c.
pub mod Transfer
pub mod Keeping
use world_boss_raid.Base.{
  ℕ, zero, suc, ◌+◌, ◌-◌, Bool, true, false, not, ◌||◌, List, ◌++◌, ℤ, pos, ltb_ℤ, ltb, ◌==◌,
  if◌then◌else◌, length, drop,
}
use world_boss_raid.Protocol.{PacketHeader, GamePacket, size_header, size_packet}
use world_boss_raid.Protocol.Wire.{header_of}
use world_boss_raid.Protocol.Checksum.{calc_checksum}
use world_boss_raid.Net.{Os, Outcome, done, broken, starved, read_exactly, write_all, wire}
use world_boss_raid.Security.ReplayProtection.{ReplayProtection, replay_protection_validate}

-- `length < sizeof(PacketHeader) || length > sizeof(GamePacket)`
abbrev pub bad_packet_length : ℕ → Bool
bad_packet_length n = ltb n size_header || ltb size_packet n

module _ (os : Os) where
  open os use {Env, ssl_get_fd, select}

  -- Whether the reading may begin: at once if there is no timeout, else if select() is positive.
  unfoldable pub wait_readable : ℕ → Env → Bool × Env
  wait_readable timeout_sec e =
      if timeout_sec == 0
      then (true, e)
      else (ltb_ℤ (pos 0) (select timeout_sec e).0, (select timeout_sec e).1)

  -- The body, behind a header that has passed; it overwrites the first bytes of the old packet.
  unfoldable pub recv_body :
      ℕ
      → PacketHeader
      → GamePacket
      → ReplayProtection
      → Env
      → Outcome GamePacket × ReplayProtection × Env
  recv_body fuel header pkt rp e =
      let body_len = header.length - size_header in
      let e1 = (read_exactly os fuel body_len e).1 in
      elim (read_exactly os fuel body_len e).0 [
        | broken ↦ (broken, rp, e1)
        | starved ↦ (starved, rp, e1)
        | done bs ↦
            let raw = bs ++ drop (length bs) pkt.raw in
            if calc_checksum raw body_len == header.checksum
            then (done (record { header = header; raw = raw }), rp, e1)
            else (broken, rp, e1)
      ]

  -- The checks of the header.
  unfoldable pub recv_checked :
      ℕ
      → PacketHeader
      → GamePacket
      → ReplayProtection
      → Env
      → Outcome GamePacket × ReplayProtection × Env
  recv_checked fuel header pkt rp e =
      if bad_packet_length header.length
      then (broken, rp, e)
      else (let (valid, rp1) = replay_protection_validate header.seq_num rp in
          if valid then recv_body fuel header pkt rp1 e else (broken, rp1, e))

  unfoldable pub recv_packet_with_timeout :
      ℕ → ℕ → GamePacket → ReplayProtection → Env → Outcome GamePacket × ReplayProtection × Env
  recv_packet_with_timeout fuel timeout_sec pkt rp e =
      if ltb_ℤ (ssl_get_fd e) (pos 0)
      then (broken, rp, e)
      else (let (ready, e1) = wait_readable timeout_sec e in
          let e2 = (read_exactly os fuel size_header e1).1 in
          if ready
          then elim (read_exactly os fuel size_header e1).0 [
            | broken ↦ (broken, rp, e2)
            | starved ↦ (starved, rp, e2)
            | done bs ↦ recv_checked fuel (header_of bs) pkt rp e2
          ]
          else (broken, rp, e1))

  -- One round of the loop for each byte is enough.
  unfoldable pub send_packet : GamePacket → ℕ → Env → Outcome (Unit {0}) × Env
  send_packet pkt payload_size e =
      write_all os (length (wire pkt payload_size)) (wire pkt payload_size) e
