-- ===== src/Client/Packets/JoinTrip.antt =====
-- A join of client.c, the greeting of the worker of client_handler.c that it arrives at, and the answer
-- that the client reads.
use world_boss_raid.Base.{
  ℕ, ◌+◌, ◌≤◌, ◌<◌, ◌≡◌, ◌∙◌, ◌%◌, ◌^◌, ap, subst, true, false, List, ◌++◌, arith, ℤ, pos, ◌+ℤ◌,
  ltb_ℤ, length,
}
use world_boss_raid.Base.CString.{text}
use world_boss_raid.Protocol.{
  GamePacket, op_join, op_join_resp, size_header, size_packet, size_join, size_join_resp,
}
use world_boss_raid.Protocol.Wire.{IsInt32, join_resp_bytes}
use world_boss_raid.GameState.{GameSharedData}
use world_boss_raid.Net.{Os, done, wire}
use world_boss_raid.Net.Laws.{Incoming, Delivers, Accepts}
use world_boss_raid.Security.InputValidator.{input_validate_username}
use world_boss_raid.Handler.Session.{Worker, next, response, fresh_worker, greet}
use world_boss_raid.Handler.Packets.Transfer.{IsPacket}
use world_boss_raid.Handler.Session.Joining.{greet-join}
use world_boss_raid.Client.Packets.{Link, join_name, join_packet, send_join_and_wait_resp}
use world_boss_raid.Client.Packets.Received.{
  response-IsPacket, length-join_resp_bytes, request_bytes, join_answer,
}
use world_boss_raid.Client.Packets.RoundTrip.{last_bytes, last_bytes-append, length-wire}

-- The answer of a worker to a join.
abbrev answer_bytes : ℤ → List ℕ
answer_bytes id =
    wire (response op_join_resp (join_resp_bytes (record { player_id = id; status = 1 })))
      size_join_resp

length-answer_bytes : (id : ℤ) → length (answer_bytes id) ≡ size_header + size_join_resp
length-answer_bytes id =
    let p = join_resp_bytes (record { player_id = id; status = 1 }) in
    let n = length-join_resp_bytes (record { player_id = id; status = 1 }) in
    length-wire (response op_join_resp p) size_join_resp (
      subst (λ m. IsPacket (response op_join_resp p) m) n
        (response-IsPacket op_join_resp p (omega arith) (omega (arith, n))))

module _ (os : Os) (io : Incoming os) (delivers : Delivers os io) (outgoing : os.Env → List ℕ)
    (accepts : Accepts os outgoing) (fuel : ℕ) (garbage : GamePacket) (game : GameSharedData)
    (e : os.Env) (username rest : List ℕ) (w : Worker os.Env) (cos : Os) (cio : Incoming cos)
    (cdelivers : Delivers cos cio) (cfuel : ℕ) (c : Link cos.Env) (crest : List ℕ) where
  -- The connection between the two: the join of the client is what a new worker can read; the worker
  -- goes on as `w`, and the last bytes that it has then written are what the client can read after its
  -- own call of SSL_write, which took the join whole.
  pub record IsGreeted : Type 0 where
    pub fits : c.g_seq_num < 2 ^ 32
    pub opened : ltb_ℤ (os.ssl_get_fd e) (pos 0) ≡ false
    pub arrives : io.pending e ≡ wire (join_packet username c.g_seq_num) size_join ++ rest
    pub covered : size_packet + io.retries e ≤ fuel
    pub greeted : greet os fuel (fresh_worker os garbage game e) ≡ next w
    pub taken :
        (cos.ssl_write (request_bytes op_join (join_name username) size_join c.g_seq_num) c.env).0
        ≡ length (request_bytes op_join (join_name username) size_join c.g_seq_num)
    pub returned :
        cio.pending
          (cos.ssl_write (request_bytes op_join (join_name username) size_join c.g_seq_num) c.env).1
        ≡ last_bytes (size_header + size_join_resp) (outgoing w.env) ++ crest
    pub fuelled :
        size_packet
          + cio.retries
              (cos.ssl_write
                (request_bytes op_join (join_name username) size_join c.g_seq_num)
                c.env).1
        ≤ cfuel

  -- A client's join at a new worker, both ways over connections that work, for a name that the server
  -- allows and a number of players that leaves room in an int32_t: the worker goes on with the same
  -- name, with one player more in the game and that number as the player's id, and the client gets
  -- exactly this id and has advanced its sequence number.
  pub join_round_trip :
      input_validate_username username ≡ true
      → IsInt32 (game.online_count +ℤ pos 1)
      → IsGreeted
      → let (r, c') = send_join_and_wait_resp cos cfuel username c in
        (text w.username ≡ text username)
        × (w.player_id ≡ game.online_count +ℤ pos 1)
        × (w.game ≡ record game { online_count = game.online_count +ℤ pos 1 })
        × (w.rp ≡ record { last_seq_num = c.g_seq_num; initialized = true })
        × (r ≡ done w.player_id)
        × (c'.g_seq_num ≡ (c.g_seq_num + 1) % 2 ^ 32)
  join_round_trip valid small v =
      let (w2, g, name, id, joined, rp, (before, sent)) =
        greet-join os io delivers outgoing accepts fuel garbage game e username c.g_seq_num rest
          valid v.fits v.opened v.arrives v.covered in
      let same : w2 ≡ w = cc in
      let id' : w.player_id ≡ game.online_count +ℤ pos 1 = rw same at id in
      let (r, seq, _) =
        join_answer cos cio cdelivers cfuel c crest username w.player_id (rw id' small) (record {
          taken = v.taken;
          arrives =
              v.returned
              ∙ ap (λ bs. last_bytes (size_header + size_join_resp) bs ++ crest) (rw same at sent)
              ∙ ap (λ bs. bs ++ crest)
                  (last_bytes-append before (answer_bytes w.player_id) _
                    (length-answer_bytes w.player_id));
          fuelled = v.fuelled;
        }) in
      (rw same at name, id', rw same at joined, rw same at rp, r, seq)
