-- ===== src/Handler/Packets/Transfer.antt =====
-- `send_packet` against `recv_packet_with_timeout`.
use world_boss_raid.Base.{
  ℕ, zero, suc, ◌+◌, ◌-◌, ◌≤◌, ◌<◌, ◌%◌, ◌^◌, ◌≡◌, refl, sym, ap, ◌∙◌, true, false, List, [], ◌∷◌,
  ◌++◌, arith, pos, ltb_ℤ, length, take, drop, length-take, length-append, ==_iff,
}
use mathlib.Core.List.{append-nil, append_assoc}
use world_boss_raid.Protocol.{PacketHeader, GamePacket, size_header, size_packet, max_payload_size}
use world_boss_raid.Protocol.Wire.{
  header_bytes, header_of, IsHeader, header_of-header_bytes, length-header_bytes, take_append,
}
use world_boss_raid.Protocol.Checksum.{calc_checksum, sum_of, calc_checksum-sum_of}
use world_boss_raid.Net.{Os, done, read_exactly, wire, seal}
use world_boss_raid.Net.Laws.{Incoming, Delivers, Accepts}
use world_boss_raid.Net.Reading.{read_exactly_lem}
use world_boss_raid.Net.Writing.{write_all_lem}
use world_boss_raid.Security.ReplayProtection.{ReplayProtection, replay_protection_validate}
use world_boss_raid.Handler.Packets.{
  bad_packet_length, recv_packet_with_timeout, recv_checked, recv_body, send_packet, wait_readable,
}

-- A packet that can be sent: its fields fit, and so does its payload.
pub record IsPacket (p : GamePacket) (payload_size : ℕ) : Type 0 where
  pub opcode_fits : p.header.opcode < 2 ^ 16
  pub seq_num_fits : p.header.seq_num < 2 ^ 32
  pub raw_fits : length p.raw ≡ max_payload_size
  pub payload_fits : payload_size ≤ max_payload_size

seal-IsHeader : (p : GamePacket) (k : ℕ) → IsPacket p k → IsHeader (seal p k).header
unfolding seal calc_checksum
seal-IsHeader p k v = record {
  length_fits = omega (arith, v.payload_fits);
  opcode_fits = v.opcode_fits;
  checksum_fits = omega arith;
  seq_num_fits = v.seq_num_fits;
}

pub length-payload : (p : GamePacket) (k : ℕ) → IsPacket p k → length (take k p.raw) ≡ k
length-payload p k v = omega (arith, length-take {0} k p.raw, v.raw_fits, v.payload_fits)

-- The checksum reads no more than the payload.
sum_of-take : (xs ys : List ℕ) (k : ℕ) → k ≤ length xs → sum_of (take k xs ++ ys) k ≡ sum_of xs k
sum_of-take xs ys zero h = refl
sum_of-take [] ys (suc k) h = absurd (omega arith)
sum_of-take (x ∷ xs) ys (suc k) h = omega (arith, sum_of-take xs ys k (omega arith))

pub drop_append {ℓ} : {A : Type ℓ} (xs ys : List A) (n : ℕ) → length xs ≡ n → drop n (xs ++ ys) ≡ ys
drop_append [] ys zero h = refl
drop_append [] ys (suc n) h = absurd (omega arith)
drop_append (x ∷ xs) ys zero h = absurd (omega arith)
drop_append (x ∷ xs) ys (suc n) h = drop_append xs ys n (omega arith)

module _ (os : Os) (io : Incoming os) (delivers : Delivers os io) (fuel : ℕ) where
  open os use {Env, ssl_get_fd}

  -- The next bytes that are pending, and what is left behind them.
  pub read_pending :
      (bs rest : List ℕ) (need : ℕ) (e : Env)
      → length bs ≡ need
      → io.pending e ≡ bs ++ rest
      → need + io.retries e ≤ fuel
      → ((read_exactly os fuel need e).0 ≡ done bs)
        × (io.pending (read_exactly os fuel need e).1 ≡ rest)
        × (io.retries (read_exactly os fuel need e).1 ≤ io.retries e)
  read_pending bs rest need e n q f =
      let (d, l, t) =
        read_exactly_lem os io delivers fuel need e
          (rw q (omega (arith, n, length-append {0} bs rest))) f in
      (
        d ∙ ap (λ xs. done (take need xs)) q ∙ ap done (take_append bs rest need n),
        l ∙ ap (λ xs. drop need xs) q ∙ drop_append bs rest need n,
        t,
      )

  -- The header of a packet whose bytes are pending.
  pub read_header :
      (p : GamePacket) (k : ℕ) (rest : List ℕ) (e : Env)
      → IsPacket p k
      → io.pending e ≡ wire p k ++ rest
      → size_packet + io.retries e ≤ fuel
      → (bs : List ℕ) × ((read_exactly os fuel size_header e).0 ≡ done bs)
        × (header_of bs ≡ (seal p k).header)
        × (io.pending (read_exactly os fuel size_header e).1 ≡ take k p.raw ++ rest)
        × (io.retries (read_exactly os fuel size_header e).1 ≤ io.retries e)
  unfolding wire
  read_header p k rest e v q f =
      let h = header_bytes (seal p k).header in
      let (d, l, t) =
        read_pending h (take k p.raw ++ rest) size_header e (length-header_bytes (seal p k).header)
          (q ∙ append_assoc h (take k p.raw) rest) (omega arith) in
      (
        h,
        d,
        ap header_of (sym (append-nil h))
            ∙ header_of-header_bytes (seal p k).header [] (seal-IsHeader p k v),
        l,
        t,
      )

  recv_body_lem :
      (h : PacketHeader) (bs rest : List ℕ) (old : GamePacket) (rp : ReplayProtection) (e : Env)
      → h.length - size_header ≡ length bs
      → calc_checksum (bs ++ drop (length bs) old.raw) (length bs) ≡ h.checksum
      → io.pending e ≡ bs ++ rest
      → length bs + io.retries e ≤ fuel
      → let (r, rp', e') = recv_body os fuel h old rp e in
        (r ≡ done (record { header = h; raw = bs ++ drop (length bs) old.raw }))
        × (rp' ≡ rp)
        × (io.pending e' ≡ rest)
  unfolding recv_body
  recv_body_lem h bs rest old rp e len sum q f =
      let (got, left, _) = read_pending bs rest (length bs) e refl q f in
      rw (len, got, len, (==_iff _ _).1 sum, recv_body) (refl, refl, left)

  module _ (p : GamePacket) (k : ℕ) (v : IsPacket p k) (old : GamePacket)
      (rp : ReplayProtection) where
    -- The packet that arrives: the sealed header, the payload, and behind it the bytes of the packet
    -- that the buffer held before.
    abbrev pub arrived : GamePacket
    arrived = record { header = (seal p k).header; raw = take k p.raw ++ drop k old.raw }

    body-checksum : calc_checksum (take k p.raw ++ drop k old.raw) k ≡ (seal p k).header.checksum
    unfolding seal
    body-checksum =
        calc_checksum-sum_of (take k p.raw ++ drop k old.raw) k
        ∙ ap (λ s. s % 2 ^ 16)
            (sum_of-take p.raw (drop k old.raw) k (omega (arith, v.raw_fits, v.payload_fits)))
        ∙ sym (calc_checksum-sum_of p.raw k)

    recv_checked_lem :
        (rest : List ℕ) (e : Env)
        → (replay_protection_validate p.header.seq_num rp).0 ≡ true
        → io.pending e ≡ take k p.raw ++ rest
        → k + io.retries e ≤ fuel
        → let (r, rp', e') = recv_checked os fuel (seal p k).header old rp e in
          (r ≡ done arrived)
          × (rp' ≡ (replay_protection_validate p.header.seq_num rp).1)
          × (io.pending e' ≡ rest)
    unfolding recv_checked seal
    recv_checked_lem rest e fresh q f =
        let ok : bad_packet_length (size_header + k) ≡ false = ground (arith, v.payload_fits) in
        let b =
          recv_body_lem (seal p k).header (take k p.raw) rest old
            (replay_protection_validate p.header.seq_num rp).1 e
            (rw (length-payload p k v) (omega arith)) (rw (length-payload p k v) body-checksum) q
            (rw (length-payload p k v) f) in
        rw (ok, fresh, recv_checked) (rw (length-payload p k v) at b)

    -- If the socket is open and readable, SSL_read delivers what is pending, the sequence number
    -- passes the replay check, the fuel covers the bytes and the retries, and the bytes of a packet
    -- that fits are pending: the packet is received, with its length and checksum in the header and
    -- the old bytes of the buffer behind the payload, the number is recorded, and what follows the
    -- packet stays pending.
    pub recv_packet_lem :
        (timeout_sec : ℕ) (rest : List ℕ) (e : Env)
        → ltb_ℤ (ssl_get_fd e) (pos 0) ≡ false
        → (wait_readable os timeout_sec e).0 ≡ true
        → (replay_protection_validate p.header.seq_num rp).0 ≡ true
        → io.pending (wait_readable os timeout_sec e).1 ≡ wire p k ++ rest
        → size_packet + io.retries (wait_readable os timeout_sec e).1 ≤ fuel
        → let (r, rp', e') = recv_packet_with_timeout os fuel timeout_sec old rp e in
          (r ≡ done arrived)
          × (rp' ≡ (replay_protection_validate p.header.seq_num rp).1)
          × (io.pending e' ≡ rest)
    unfolding recv_packet_with_timeout
    recv_packet_lem timeout_sec rest e opened ready fresh q f =
        let e1 = (wait_readable os timeout_sec e).1 in
        let (h, got, back, left, t) = read_header p k rest e1 v q f in
        rw (opened, ready, got, back, recv_packet_with_timeout)
          (recv_checked_lem rest (read_exactly os fuel size_header e1).1 fresh left
            (omega (arith, t, v.payload_fits)))

-- If SSL_write accepts at least one byte at a time, `send_packet` succeeds and hands over exactly the
-- bytes of the packet.
pub send_packet_lem :
    (os : Os) (outgoing : os.Env → List ℕ)
    → Accepts os outgoing
    → (p : GamePacket) (k : ℕ) (e : os.Env)
    → let (r, e') = send_packet os p k e in (r ≡ done tt) × (outgoing e' ≡ outgoing e ++ wire p k)
unfolding send_packet
send_packet_lem os outgoing accepts p k e =
    write_all_lem os outgoing accepts (length (wire p k)) (wire p k) e (omega arith)
