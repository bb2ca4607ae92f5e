-- ===== src/Net.antt =====
-- What both programs ask of the operating system and of OpenSSL, and the loops that read and write
-- whole packets over it. The environment is a parameter: a type of its states and the calls.
pub mod Laws
pub mod Reading
pub mod Patience
pub mod Writing
use world_boss_raid.Base.{
  ℕ, zero, suc, ◌+◌, ◌-◌, ◌*◌, ◌^◌, Bool, true, false, List, [], ◌∷◌, ◌++◌, ℤ, ◌==◌, if◌then◌else◌,
  length, take, drop,
}
use world_boss_raid.Protocol.{PacketHeader, GamePacket, size_header}
use world_boss_raid.Protocol.Wire.{header_bytes}
use world_boss_raid.Protocol.Checksum.{calc_checksum}

-- What SSL_read returns: bytes; or no bytes, with SSL_ERROR_WANT_READ or SSL_ERROR_WANT_WRITE; or no
-- bytes and any other error.
pub data ReadResult : Type 0 where
  got : List ℕ → ReadResult
  again : ReadResult
  failed : ReadResult

pub record Os : Type 1 where
  pub Env : Type 0
  pub rand : Env → ℕ × Env
  pub time : Env → ℤ
  pub ssl_get_fd : Env → ℤ
  pub select : ℕ → Env → ℤ × Env  -- the seconds of the timeout; what select() returns
  pub ssl_read : ℕ → Env → ReadResult × Env  -- the number of bytes asked for
  pub ssl_write : List ℕ → Env → ℕ × Env  -- the number of bytes written; 0 for any error
  pub ssl_close : Env → Env  -- SSL_shutdown and SSL_free

-- How a loop ends: with a value, with an error (-1), or because its fuel is used up.
pub data Outcome (A : Type 0) : Type 0 where
  done : A → Outcome A
  broken : Outcome A
  starved : Outcome A

module _ (os : Os) where
  open os use {Env, ssl_read, ssl_write}

  -- `while (received < size) …` with `need` bytes to go; each round takes one unit of fuel.
  unfoldable pub read_exactly : ℕ → ℕ → Env → Outcome (List ℕ) × Env
  read_exactly fuel zero e = (done [], e)
  read_exactly zero (suc k) e = (starved, e)
  read_exactly (suc fuel) (suc k) e =
      let e1 = (ssl_read (suc k) e).1 in
      elim (ssl_read (suc k) e).0 [
        | failed ↦ (broken, e1)
        | again ↦ read_exactly fuel (suc k) e1
        | got bs ↦ elim bs [
          | [] ↦ (broken, e1)
          | b ∷ more ↦
              let rest = read_exactly fuel (k - length more) e1 in
              (
                elim rest.0 [
                  | done tail ↦ done ((b ∷ more) ++ tail)
                  | broken ↦ broken
                  | starved ↦ starved
                ],
                rest.1,
              )
        ]
      ]

  -- `while (sent_total < total) …` with the bytes that are left.
  unfoldable pub write_all : ℕ → List ℕ → Env → Outcome (Unit {0}) × Env
  write_all fuel [] e = (done tt, e)
  write_all zero (b ∷ bs) e = (starved, e)
  write_all (suc fuel) (b ∷ bs) e =
      let e1 = (ssl_write (b ∷ bs) e).1 in
      elim (ssl_write (b ∷ bs) e).0 [ zero ↦ (broken, e1) | suc n ↦ write_all fuel (drop n bs) e1 ]

-- The length and the checksum that both senders fill in.
unfoldable pub seal : GamePacket → ℕ → GamePacket
seal pkt payload_size = record pkt {
  header = record (pkt.header) {
    length = size_header + payload_size;
    checksum = calc_checksum pkt.raw payload_size;
  };
}

-- The bytes of a sealed packet.
unfoldable pub wire : GamePacket → ℕ → List ℕ
wire pkt payload_size = header_bytes (seal pkt payload_size).header ++ take payload_size pkt.raw
