-- ===== src/Client/Packets/Received.antt =====
-- The answers that the requests of client.c return, on a connection that takes the request and
-- delivers the answer of the worker.
use world_boss_raid.Base.{
  ℕ, ◌+◌, ◌-◌, ◌%◌, ◌^◌, ◌≤◌, ◌<◌, ◌≡◌, refl, ap, subst, ◌∙◌, Bool, true, false, List, [], ◌++◌,
  arith, ℤ, length, take, drop, replicate, length-append, length-replicate, ==_iff,
}
use world_boss_raid.Protocol.{
  PacketHeader, GamePacket, PayloadGameState, PayloadJoinResp, op_join, op_attack, op_heartbeat,
  op_join_resp, op_game_state, size_header, size_packet, size_join, size_attack, size_join_resp,
  size_game_state, max_payload_size,
}
use world_boss_raid.Protocol.Wire.{
  le_bytes, join_resp_bytes, game_state_bytes, IsInt32, IsGameState, game_state_of-game_state_bytes,
  join_resp_of-join_resp_bytes, take_append,
}
use world_boss_raid.Net.{Os, Outcome, done, read_exactly, wire, seal}
use world_boss_raid.Net.Laws.{Incoming, Delivers}
use world_boss_raid.Handler.Packets.{bad_packet_length}
use world_boss_raid.Handler.Packets.Transfer.{IsPacket, length-payload, read_pending, read_header}
use world_boss_raid.Handler.Session.{response}
use world_boss_raid.Client.Packets.{
  Link, pkt_init_local, put_payload, join_name, pkt_send_local, pkt_recv_local, recv_local_body,
  exchange, state_of_answer, send_join_and_wait_resp, net_attack_and_get_state,
  net_heartbeat_get_state,
}

pub response-IsPacket :
    (opcode : ℕ) (payload : List ℕ)
    → opcode < 2 ^ 16
    → length payload ≤ max_payload_size
    → IsPacket (response opcode payload) (length payload)
response-IsPacket opcode payload h k = record {
  opcode_fits = h;
  seq_num_fits = omega arith;
  raw_fits =
      length-append {0} payload (replicate (max_payload_size - length payload) 0)
      ∙ omega (arith, length-replicate {A = ℕ} (max_payload_size - length payload) 0);
  payload_fits = k;
}

-- The bytes of a request.
abbrev pub request_bytes : ℕ → List ℕ → ℕ → ℕ → List ℕ
request_bytes opcode payload payload_size seq_num =
    wire (put_payload payload (pkt_init_local opcode seq_num)) payload_size

-- The packet that the client has when `p` arrives over the packet `old`.
abbrev pub arrived_at_client : GamePacket → ℕ → GamePacket → GamePacket
arrived_at_client p k old = record {
  header = (seal p k).header;
  raw = take k p.raw ++ drop k old.raw;
}

sealed_length :
    (p : GamePacket) (k : ℕ) → IsPacket p k → bad_packet_length (seal p k).header.length ≡ false
unfolding seal
sealed_length p k v = ground (arith, v.payload_fits)

sealed_body : (p : GamePacket) (k : ℕ) → (seal p k).header.length - size_header ≡ k
unfolding seal
sealed_body p k = omega arith

module _ (os : Os) (io : Incoming os) (delivers : Delivers os io) (fuel : ℕ) where
  open os use {Env, ssl_write}

  recv_local_body_lem :
      (h : PacketHeader) (bs rest : List ℕ) (old : GamePacket) (e : Env)
      → h.length - size_header ≡ length bs
      → io.pending e ≡ bs ++ rest
      → length bs + io.retries e ≤ fuel
      → let (r, e') = recv_local_body os fuel h old e in
        (r ≡ done (record { header = h; raw = bs ++ drop (length bs) old.raw }))
        × (io.pending e' ≡ rest)
  unfolding recv_local_body
  recv_local_body_lem h bs rest old e len q f =
      let (got, left, _) = read_pending os io delivers fuel bs rest (length bs) e refl q f in
      rw (len, got, len, recv_local_body) (refl, left)

  module _ (p : GamePacket) (k : ℕ) (v : IsPacket p k) (old : GamePacket) (rest : List ℕ) where
    pkt_recv_local_lem :
        (e : Env)
        → io.pending e ≡ wire p k ++ rest
        → size_packet + io.retries e ≤ fuel
        → let (r, e') = pkt_recv_local os fuel old e in
          (r ≡ done (arrived_at_client p k old)) × (io.pending e' ≡ rest)
    unfolding pkt_recv_local
    pkt_recv_local_lem e q f =
        let (h, got, back, left, t) = read_header os io delivers fuel p k rest e v q f in
        let ok : bad_packet_length (seal p k).header.length ≡ false = sealed_length p k v in
        let n = length-payload p k v in
        let b =
          recv_local_body_lem (seal p k).header (take k p.raw) rest old
            (read_exactly os fuel size_header e).1 (rw n (sealed_body p k)) left
            (omega (arith, t, n, v.payload_fits)) in
        rw (got, back, ok, pkt_recv_local) (rw n at b)

  -- A request that the connection takes whole, and that is answered: after the call of SSL_write the
  -- bytes of the answer are pending, and the fuel covers a packet and the retries.
  pub record IsAnswered (c : Link Env) (opcode : ℕ) (payload : List ℕ) (payload_size : ℕ)
      (answer : GamePacket) (answer_size : ℕ) (rest : List ℕ) : Type 0 where
    pub taken :
        (ssl_write (request_bytes opcode payload payload_size c.g_seq_num) c.env).0
        ≡ length (request_bytes opcode payload payload_size c.g_seq_num)
    pub arrives :
        io.pending (ssl_write (request_bytes opcode payload payload_size c.g_seq_num) c.env).1
        ≡ wire answer answer_size ++ rest
    pub fuelled :
        size_packet
          + io.retries (ssl_write (request_bytes opcode payload payload_size c.g_seq_num) c.env).1
        ≤ fuel

  exchange_lem :
      (c : Link Env) (opcode : ℕ) (payload : List ℕ) (payload_size : ℕ) (answer : GamePacket)
      (answer_size : ℕ) (rest : List ℕ)
      → IsPacket answer answer_size
      → IsAnswered c opcode payload payload_size answer answer_size rest
      → let (r, c') = exchange os fuel opcode payload payload_size answer.header.opcode c in
        (r
          ≡ done (
              arrived_at_client answer answer_size
                (put_payload payload (pkt_init_local opcode c.g_seq_num))))
        × (c'.g_seq_num ≡ (c.g_seq_num + 1) % 2 ^ 32)
        × (io.pending c'.env ≡ rest)
  unfolding exchange pkt_send_local seal
  exchange_lem c opcode payload payload_size answer answer_size rest v a =
      let pkt = put_payload payload (pkt_init_local opcode c.g_seq_num) in
      let (got, left) =
        pkt_recv_local_lem answer answer_size v pkt rest (ssl_write (wire pkt payload_size) c.env).1
          a.arrives a.fuelled in
      rw ((==_iff _ _).1 a.taken, got, (==_iff answer.header.opcode _).1 refl, exchange)
        (refl, refl, left)

pub length-game_state_bytes :
    (s : PayloadGameState) → IsGameState s → length (game_state_bytes s) ≡ size_game_state
unfolding game_state_bytes
length-game_state_bytes s v = omega (arith, v.last_killer_fits)

pub length-join_resp_bytes : (p : PayloadJoinResp) → length (join_resp_bytes p) ≡ size_join_resp
unfolding join_resp_bytes
length-join_resp_bytes p = refl

-- The two requests of a player that ask for the state.
abbrev pub request_opcode : Bool → ℕ
request_opcode true = op_attack
request_opcode false = op_heartbeat

abbrev pub request_payload : Bool → List ℕ
request_payload true = le_bytes 4 0
request_payload false = []

abbrev pub request_payload_size : Bool → ℕ
request_payload_size true = size_attack
request_payload_size false = 0

abbrev pub state_request_bytes : Bool → ℕ → List ℕ
state_request_bytes is_attack seq_num =
    request_bytes (request_opcode is_attack) (request_payload is_attack)
      (request_payload_size is_attack) seq_num

-- `net_attack_and_get_state` for true, `net_heartbeat_get_state` for false.
abbrev pub get_state : (os : Os) → Bool → ℕ → Link os.Env → Outcome PayloadGameState × Link os.Env
get_state os true fuel c = net_attack_and_get_state os fuel c
get_state os false fuel c = net_heartbeat_get_state os fuel c

module _ (os : Os) (io : Incoming os) (delivers : Delivers os io) (fuel : ℕ) (c : Link os.Env)
    (rest : List ℕ) where
  -- The bytes of the answer are at the start of the body that the client reads.
  exchange-response :
      (opcode : ℕ) (payload : List ℕ) (payload_size answer_opcode : ℕ) (bs : List ℕ) (k : ℕ)
      → length bs ≡ k
      → k ≤ max_payload_size
      → answer_opcode < 2 ^ 16
      → IsAnswered os io delivers fuel c opcode payload payload_size
          (response answer_opcode bs)
          k
          rest
      → let (r, c') = exchange os fuel opcode payload payload_size answer_opcode c in
        ((h : PacketHeader) × (tail : List ℕ) × (r
            ≡ done (record { header = h; raw = bs ++ tail })))
        × (c'.g_seq_num ≡ (c.g_seq_num + 1) % 2 ^ 32)
        × (io.pending c'.env ≡ rest)
  exchange-response opcode payload payload_size answer_opcode bs k n small fits a =
      let p = response answer_opcode bs in
      let old = put_payload payload (pkt_init_local opcode c.g_seq_num) in
      let v : IsPacket p k =
        subst (λ m. IsPacket p m) n (response-IsPacket answer_opcode bs fits (rw n small)) in
      let (got, seq, left) =
        exchange_lem os io delivers fuel c opcode payload payload_size p k rest v a in
      let body = take_append bs (replicate (max_payload_size - length bs) 0) k n in
      (
        (
          (seal p k).header,
          drop k old.raw,
          got
              ∙ ap (λ xs. done (record { header = (seal p k).header; raw = xs ++ drop k old.raw }))
                  body,
        ),
        seq,
        left,
      )

  -- If the connection takes a join whole and delivers the answer with the status 1, the client gets
  -- the number that the answer holds, and its sequence number is advanced.
  pub join_answer :
      (username : List ℕ) (id : ℤ)
      → IsInt32 id
      → IsAnswered os io delivers fuel c op_join
          (join_name username)
          size_join
          (response op_join_resp (join_resp_bytes (record { player_id = id; status = 1 })))
          size_join_resp
          rest
      → let (r, c') = send_join_and_wait_resp os fuel username c in
        (r ≡ done id) × (c'.g_seq_num ≡ (c.g_seq_num + 1) % 2 ^ 32) × (io.pending c'.env ≡ rest)
  unfolding send_join_and_wait_resp
  join_answer username id h a =
      let p : PayloadJoinResp = record { player_id = id; status = 1 } in
      let ((head, tail, got), seq, left) =
        exchange-response op_join (join_name username) size_join op_join_resp (join_resp_bytes p)
          size_join_resp (length-join_resp_bytes p) (omega arith) (omega arith) a in
      rw (got, join_resp_of-join_resp_bytes p tail h (omega arith), send_join_and_wait_resp)
        (refl, seq, left)

  -- If the connection takes an attack or a heartbeat whole and delivers the answer, the client gets
  -- exactly the state that the answer holds, and its sequence number is advanced.
  pub get_state-answer :
      (is_attack : Bool) (s : PayloadGameState)
      → IsGameState s
      → IsAnswered os io delivers fuel c
          (request_opcode is_attack)
          (request_payload is_attack)
          (request_payload_size is_attack)
          (response op_game_state (game_state_bytes s))
          size_game_state
          rest
      → let (r, c') = get_state os is_attack fuel c in
        (r ≡ done s) × (c'.g_seq_num ≡ (c.g_seq_num + 1) % 2 ^ 32) × (io.pending c'.env ≡ rest)
  unfolding net_attack_and_get_state net_heartbeat_get_state state_of_answer
  get_state-answer true s v a =
      let ((head, tail, got), seq, left) =
        exchange-response op_attack (le_bytes 4 0) size_attack op_game_state (game_state_bytes s)
          size_game_state (length-game_state_bytes s v) (omega arith) (omega arith) a in
      rw (got, state_of_answer) (ap done (game_state_of-game_state_bytes s tail v), seq, left)
  get_state-answer false s v a =
      let ((head, tail, got), seq, left) =
        exchange-response op_heartbeat [] 0 op_game_state (game_state_bytes s) size_game_state
          (length-game_state_bytes s v) (omega arith) (omega arith) a in
      rw (got, state_of_answer) (ap done (game_state_of-game_state_bytes s tail v), seq, left)
