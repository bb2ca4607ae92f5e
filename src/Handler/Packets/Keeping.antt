-- ===== src/Handler/Packets/Keeping.antt =====
-- What the reading and the writing of packets keep of the environment.
use world_boss_raid.Base.{
  ℕ, zero, suc, ◌-◌, ◌≡◌, refl, ◌∙◌, Bool, true, false, List, [], ◌∷◌, ◌++◌, pos, ltb_ℤ, ◌==◌,
  if◌then◌else◌, length, drop, Bool-cases, inl, inr,
}
use world_boss_raid.Protocol.{PacketHeader, GamePacket, size_header}
use world_boss_raid.Protocol.Wire.{header_of}
use world_boss_raid.Protocol.Checksum.{calc_checksum}
use world_boss_raid.Net.{
  Os, ReadResult, got, again, failed, Outcome, done, broken, starved, read_exactly, write_all, wire,
}
use world_boss_raid.Security.ReplayProtection.{ReplayProtection, replay_protection_validate}
use world_boss_raid.Handler.Packets.{
  bad_packet_length, wait_readable, recv_body, recv_checked, recv_packet_with_timeout, send_packet,
}

-- Every call but the closing keeps `f`, and the closing changes it by `g`.
pub record Keeps (os : Os) {X : Type 0} (f : os.Env → X) (g : X → X) : Type 0 where
  pub rand : (e : os.Env) → f (os.rand e).1 ≡ f e
  pub select : (t : ℕ) (e : os.Env) → f (os.select t e).1 ≡ f e
  pub read : (n : ℕ) (e : os.Env) → f (os.ssl_read n e).1 ≡ f e
  pub write : (bs : List ℕ) (e : os.Env) → f (os.ssl_write bs e).1 ≡ f e
  pub close : (e : os.Env) → f (os.ssl_close e) ≡ g (f e)

module _ (os : Os) {X : Type 0} (f : os.Env → X) (g : X → X) (keeps : Keeps os f g) where
  open os use {Env}

  read_exactly-keeps : (fuel need : ℕ) (e : Env) → f (read_exactly os fuel need e).1 ≡ f e
  unfolding read_exactly
  read_exactly-keeps fuel zero e = refl
  read_exactly-keeps zero (suc k) e = refl
  read_exactly-keeps (suc fuel) (suc k) e =
      go (os.ssl_read (suc k) e).0 (λ n. read_exactly-keeps fuel n (os.ssl_read (suc k) e).1)
    where
      go :
          (r : ReadResult)
          → ((n : ℕ)
              → f (read_exactly os fuel n (os.ssl_read (suc k) e).1).1
                ≡ f (os.ssl_read (suc k) e).1)
          → f
              (elim r as (λ _. Outcome (List ℕ) × Env) [
                | failed ↦ (broken, (os.ssl_read (suc k) e).1)
                | again ↦ read_exactly os fuel (suc k) (os.ssl_read (suc k) e).1
                | got bs ↦ elim bs as (λ _. Outcome (List ℕ) × Env) [
                  | [] ↦ (broken, (os.ssl_read (suc k) e).1)
                  | b ∷ more ↦
                      let rest = read_exactly os fuel (k - length more) (os.ssl_read (suc k) e).1 in
                      (
                        elim rest.0 as (λ _. Outcome (List ℕ)) [
                          | done tail ↦ done ((b ∷ more) ++ tail)
                          | broken ↦ broken
                          | starved ↦ starved
                        ],
                        rest.1,
                      )
                ]
              ]).1
            ≡ f e
      go failed ih = keeps.read (suc k) e
      go again ih = ih (suc k) ∙ keeps.read (suc k) e
      go (got []) ih = keeps.read (suc k) e
      go (got (b ∷ more)) ih = ih (k - length more) ∙ keeps.read (suc k) e

  write_all-keeps : (fuel : ℕ) (bs : List ℕ) (e : Env) → f (write_all os fuel bs e).1 ≡ f e
  unfolding write_all
  write_all-keeps fuel [] e = refl
  write_all-keeps zero (b ∷ bs) e = refl
  write_all-keeps (suc fuel) (b ∷ bs) e =
      go (os.ssl_write (b ∷ bs) e).0
        (λ n. write_all-keeps fuel (drop n bs) (os.ssl_write (b ∷ bs) e).1)
    where
      go :
          (r : ℕ)
          → ((n : ℕ)
              → f (write_all os fuel (drop n bs) (os.ssl_write (b ∷ bs) e).1).1
                ≡ f (os.ssl_write (b ∷ bs) e).1)
          → f
              (elim r as (λ _. Outcome (Unit {0}) × Env) [
                | zero ↦ (broken, (os.ssl_write (b ∷ bs) e).1)
                | suc n ↦ write_all os fuel (drop n bs) (os.ssl_write (b ∷ bs) e).1
              ]).1
            ≡ f e
      go zero ih = keeps.write (b ∷ bs) e
      go (suc n) ih = ih n ∙ keeps.write (b ∷ bs) e

  pub send_packet-keeps : (pkt : GamePacket) (k : ℕ) (e : Env) → f (send_packet os pkt k e).1 ≡ f e
  unfolding send_packet
  send_packet-keeps pkt k e = write_all-keeps _ (wire pkt k) e

  wait_readable-keeps : (t : ℕ) (e : Env) → f (wait_readable os t e).1 ≡ f e
  unfolding wait_readable
  wait_readable-keeps t e = elim (Bool-cases (t == 0)) [
    | inl h ↦ rw h refl
    | inr h ↦ rw h (keeps.select t e)
  ]

  recv_body-keeps :
      (fuel : ℕ) (h : PacketHeader) (pkt : GamePacket) (rp : ReplayProtection) (e : Env)
      → f (recv_body os fuel h pkt rp e).2 ≡ f e
  unfolding recv_body
  recv_body-keeps fuel h pkt rp e = go (read_exactly os fuel (h.length - size_header) e).0
    where
      same : f (read_exactly os fuel (h.length - size_header) e).1 ≡ f e
      same = read_exactly-keeps fuel (h.length - size_header) e

      checked :
          (raw : List ℕ) (b : Bool)
          → f
              (if◌then◌else◌ {A = Outcome GamePacket × ReplayProtection × Env} b
                (
                  done (record { header = h; raw = raw }),
                  rp,
                  (read_exactly os fuel (h.length - size_header) e).1,
                )
                (broken, rp, (read_exactly os fuel (h.length - size_header) e).1)).2
            ≡ f e
      checked raw true = same
      checked raw false = same

      go :
          (r : Outcome (List ℕ))
          → f
              (elim r as (λ _. Outcome GamePacket × ReplayProtection × Env) [
                | broken ↦ (broken, rp, (read_exactly os fuel (h.length - size_header) e).1)
                | starved ↦ (starved, rp, (read_exactly os fuel (h.length - size_header) e).1)
                | done bs ↦
                    let raw = bs ++ drop (length bs) pkt.raw in
                    if calc_checksum raw (h.length - size_header) == h.checksum
                    then (
                      done (record { header = h; raw = raw }),
                      rp,
                      (read_exactly os fuel (h.length - size_header) e).1,
                    )
                    else (broken, rp, (read_exactly os fuel (h.length - size_header) e).1)
              ]).2
            ≡ f e
      go broken = same
      go starved = same
      go (done bs) = checked (bs ++ drop (length bs) pkt.raw) _

  recv_checked-keeps :
      (fuel : ℕ) (h : PacketHeader) (pkt : GamePacket) (rp : ReplayProtection) (e : Env)
      → f (recv_checked os fuel h pkt rp e).2 ≡ f e
  unfolding recv_checked
  recv_checked-keeps fuel h pkt rp e = elim (Bool-cases (bad_packet_length h.length)) [
    | inl b ↦ rw (b, recv_checked) refl
    | inr b ↦ elim (Bool-cases (replay_protection_validate h.seq_num rp).0) [
      | inl v ↦
          rw (b, v, recv_checked)
            (recv_body-keeps fuel h pkt (replay_protection_validate h.seq_num rp).1 e)
      | inr v ↦ rw (b, v, recv_checked) refl
    ]
  ]

  pub recv_packet_with_timeout-keeps :
      (fuel t : ℕ) (pkt : GamePacket) (rp : ReplayProtection) (e : Env)
      → f (recv_packet_with_timeout os fuel t pkt rp e).2 ≡ f e
  unfolding recv_packet_with_timeout
  recv_packet_with_timeout-keeps fuel t pkt rp e =
      elim (Bool-cases (ltb_ℤ (os.ssl_get_fd e) (pos 0))) [
        | inl b ↦ rw (b, recv_packet_with_timeout) refl
        | inr b ↦ elim (Bool-cases (wait_readable os t e).0) [
          | inr v ↦ rw (b, v, recv_packet_with_timeout) (wait_readable-keeps t e)
          | inl v ↦
              rw (b, v, recv_packet_with_timeout)
                (go (read_exactly os fuel size_header (wait_readable os t e).1).0)
        ]
      ]
    where
      same : f (read_exactly os fuel size_header (wait_readable os t e).1).1 ≡ f e
      same = read_exactly-keeps fuel size_header (wait_readable os t e).1 ∙ wait_readable-keeps t e

      go :
          (r : Outcome (List ℕ))
          → f
              (elim r as (λ _. Outcome GamePacket × ReplayProtection × Env) [
                | broken ↦
                    (broken, rp, (read_exactly os fuel size_header (wait_readable os t e).1).1)
                | starved ↦
                    (starved, rp, (read_exactly os fuel size_header (wait_readable os t e).1).1)
                | done bs ↦
                    recv_checked os fuel
                      (header_of bs)
                      pkt
                      rp
                      (read_exactly os fuel size_header (wait_readable os t e).1).1
              ]).2
            ≡ f e
      go broken = same
      go starved = same
      go (done bs) = recv_checked-keeps fuel (header_of bs) pkt rp _ ∙ same
