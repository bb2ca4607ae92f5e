-- ===== src/Handler/Session/Joining.antt =====
-- The join of a client (`send_join_and_wait_resp` of client.c) at the worker that gets it.
use world_boss_raid.Base.{
  ℕ, zero, suc, ◌+◌, ◌≤◌, ◌<◌, ◌^◌, ◌≡◌, refl, ap, ◌∙◌, Bool, true, false, List, [], ◌∷◌, ◌++◌,
  arith, pos, ◌+ℤ◌, ltb_ℤ, ◌==◌, length, take, drop, set, replicate, length-append, length-set,
  length-drop, length-replicate,
}
use world_boss_raid.Base.CString.{text, strncpy, length-strncpy, text-set-strncpy}
use world_boss_raid.Protocol.{
  GamePacket, op_join, op_join_resp, size_join, size_join_resp, size_packet, max_player_name,
}
use world_boss_raid.Protocol.Wire.{take_append, join_resp_bytes}
use world_boss_raid.GameState.{GameSharedData, no_name, gamestate_player_join}
use world_boss_raid.Net.{Os, done, wire, seal}
use world_boss_raid.Net.Laws.{Incoming, Delivers, Accepts}
use world_boss_raid.Security.ReplayProtection.{replay_protection_init, replay_protection_validate}
use world_boss_raid.Security.InputValidator.{input_validate_username}
use world_boss_raid.Security.InputValidator.Names.{input_validate_username_iff}
use world_boss_raid.Handler.Packets.{recv_packet_with_timeout, wait_readable}
use world_boss_raid.Handler.Packets.Transfer.{IsPacket, arrived, recv_packet_lem, send_packet_lem}
use world_boss_raid.Handler.Session.{
  Worker, next, response, reply, handle_join, or_stop, fresh_worker, greet,
}
use world_boss_raid.Client.Packets.{pkt_init_local, join_name, join_packet}

-- The string of a buffer is that of any longer one, if it ends in the buffer.
text_append : (xs ys : List ℕ) → length (text xs) < length xs → text (xs ++ ys) ≡ text xs
text_append [] ys h = absurd (omega arith)
text_append (zero ∷ xs) ys h = refl
text_append (suc x ∷ xs) ys h = ap (λ l. suc x ∷ l) (text_append xs ys (omega arith))

length-join_name : (username : List ℕ) → length (join_name username) ≡ 32
length-join_name username =
    length-set (strncpy (replicate 32 0) username 31) 31 0
    ∙ length-strncpy (replicate 32 0) username 31

join_packet-IsPacket :
    (username : List ℕ) (seq_num : ℕ)
    → seq_num < 2 ^ 32
    → IsPacket (join_packet username seq_num) 32
unfolding pkt_init_local
join_packet-IsPacket username seq_num h = record {
  opcode_fits = omega arith;
  seq_num_fits = h;
  raw_fits = omega (
    arith,
    length-append {0} (join_name username) (drop (length (join_name username)) (replicate 1024 0)),
    length-drop {A = ℕ} (length (join_name username)) (replicate 1024 0),
    length-join_name username,
    length-replicate {A = ℕ} 1024 0,
  );
  payload_fits = omega arith;
}

-- The name field, in front of what else the packet holds.
take-join_packet :
    (username : List ℕ) (seq_num : ℕ)
    → take 32 (join_packet username seq_num).raw ≡ join_name username
unfolding pkt_init_local
take-join_packet username seq_num =
    take_append (join_name username) _ 32 (length-join_name username)

text-join_name :
    (username : List ℕ) → length (text username) ≤ 31 → text (join_name username) ≡ text username
text-join_name username h = text-set-strncpy (replicate 32 0) username 31 h (omega arith)

text_of_field :
    (username rest : List ℕ)
    → length (text username) ≤ 31
    → text (join_name username ++ rest) ≡ text username
text_of_field username rest h =
    text_append (join_name username) rest
      (omega (arith, length-join_name username, ap length (text-join_name username h), h))
    ∙ text-join_name username h

valid_of_text :
    (a b : List ℕ)
    → text a ≡ text b
    → input_validate_username b ≡ true
    → input_validate_username a ≡ true
valid_of_text a b e v =
    let usable = (input_validate_username_iff b).0 v in
    (input_validate_username_iff a).1 (record {
      not_empty = rw e usable.not_empty;
      short = rw e usable.short;
      allowed = rw e usable.allowed;
    })

-- The two readings of the packet that has arrived, by the validator and by handle_join.
field-allowed :
    (username rest : List ℕ) (seq_num : ℕ)
    → length (text username) ≤ 31
    → text (take 32 (take 32 (join_packet username seq_num).raw ++ rest)) ≡ text username
field-allowed username rest seq_num h =
    ap (λ xs. text (take 32 (xs ++ rest))) (take-join_packet username seq_num)
    ∙ ap text (take_append (join_name username) rest 32 (length-join_name username))
    ∙ text-join_name username h

field-copied :
    (username rest : List ℕ) (seq_num : ℕ)
    → length (text username) ≤ 31
    → text (set (strncpy no_name (take 32 (join_packet username seq_num).raw ++ rest) 31) 31 0)
      ≡ text username
field-copied username rest seq_num h =
    let e : text (take 32 (join_packet username seq_num).raw ++ rest) ≡ text username =
      ap (λ xs. text (xs ++ rest)) (take-join_packet username seq_num)
      ∙ text_of_field username rest h in
    text-set-strncpy no_name _ 31 (omega (arith, ap length e, h)) (omega arith) ∙ e

module _ (os : Os) where
  open os use {Env, ssl_get_fd}

  pub or_stop-next : (r : Bool × Worker Env) → r.0 ≡ true → or_stop os r ≡ next r.1
  unfolding or_stop
  or_stop-next (true, w) e = refl
  or_stop-next (false, w) e = absurd cc

  greet_received :
      (fuel : ℕ) (w : Worker Env) (pkt : GamePacket)
      → (recv_packet_with_timeout os fuel 0 w.packet w.rp w.env).0 ≡ done pkt
      → (pkt.header.opcode == op_join) ≡ true
      → input_validate_username (take max_player_name pkt.raw) ≡ true
      → let (_, rp1, e1) = recv_packet_with_timeout os fuel 0 w.packet w.rp w.env in
        greet os fuel w
        ≡ or_stop os (handle_join os (record w { rp = rp1; env = e1; packet = pkt }))
  unfolding greet
  greet_received fuel w pkt r o v = rw (r, greet) (simp (o, v))

  -- A join is answered if SSL_write works.
  handle_join_lem :
      (outgoing : Env → List ℕ)
      → Accepts os outgoing
      → (w : Worker Env)
      → let (ok, w') = handle_join os w in
        (ok ≡ true)
        × (w'.rp ≡ w.rp)
        × (w'.username ≡ set (strncpy w.username w.packet.raw 31) 31 0)
        × (w'.player_id ≡ (gamestate_player_join w.game).0)
        × (w'.game ≡ (gamestate_player_join w.game).1)
        × (outgoing w'.env
            ≡ outgoing w.env
              ++ wire
                  (response op_join_resp (
                    join_resp_bytes
                      (record { player_id = (gamestate_player_join w.game).0; status = 1 })))
                  size_join_resp)
  unfolding handle_join reply
  handle_join_lem outgoing accepts w =
      let (sent, bytes) =
        send_packet_lem os outgoing accepts
          (response op_join_resp
            (join_resp_bytes (record { player_id = (gamestate_player_join w.game).0; status = 1 })))
          size_join_resp w.env in
      (rw (sent, handle_join, reply) refl, refl, refl, refl, refl, bytes)

  -- A client's join at a new worker, if the connection works: the socket is open, SSL_read delivers what
  -- is pending with enough fuel, and SSL_write accepts bytes. Where the pending bytes begin with the
  -- packet that the client sends for a name that the server allows, the worker greets the client and
  -- goes on with the same name, with the number of the players as the id, with the game after the join,
  -- and with the packet's number as the last one of the replay protection. The last bytes that it sends
  -- are the answer with the id and the status 1.
  pub greet-join :
      (io : Incoming os)
      → Delivers os io
      → (outgoing : Env → List ℕ) → Accepts os outgoing
      → (fuel : ℕ) (garbage : GamePacket) (game : GameSharedData) (e : Env) (username : List ℕ)
        (seq_num : ℕ) (rest : List ℕ)
      → input_validate_username username ≡ true
      → seq_num < 2 ^ 32
      → ltb_ℤ (ssl_get_fd e) (pos 0) ≡ false
      → io.pending e ≡ wire (join_packet username seq_num) size_join ++ rest
      → size_packet + io.retries e ≤ fuel
      → (w : Worker Env) × (greet os fuel (fresh_worker os garbage game e) ≡ next w)
        × (text w.username ≡ text username)
        × (w.player_id ≡ game.online_count +ℤ pos 1)
        × (w.game ≡ record game { online_count = game.online_count +ℤ pos 1 })
        × (w.rp ≡ record { last_seq_num = seq_num; initialized = true })
        × ((before : List ℕ) × (outgoing w.env
              ≡ before
                ++ wire
                    (response op_join_resp
                      (join_resp_bytes (record { player_id = w.player_id; status = 1 })))
                    size_join_resp))
  unfolding fresh_worker replay_protection_init replay_protection_validate gamestate_player_join
      wait_readable pkt_init_local seal
  greet-join io delivers outgoing accepts fuel garbage game e username seq_num rest valid s opened p
        f =
      let (r, rp, _) =
        recv_packet_lem os io delivers fuel packet 32 (join_packet-IsPacket username seq_num s)
          garbage replay_protection_init 0 rest e opened refl refl p f in
      let greeted = greet_received fuel (fresh_worker os garbage game e) pkt r refl (
        valid_of_text _ username (field-allowed username (drop 32 garbage.raw) seq_num short)
          valid) in
      let (ok, kept, name, id, joined, sent) = handle_join_lem outgoing accepts w1 in
      (
        (handle_join os w1).1,
        greeted ∙ or_stop-next (handle_join os w1) ok,
        ap text name ∙ field-copied username (drop 32 garbage.raw) seq_num short,
        id,
        joined,
        kept ∙ rp,
        (outgoing w1.env, rw id sent),
      )
    where
      packet : GamePacket
      packet = join_packet username seq_num

      short : length (text username) ≤ 31
      short = omega (arith, ((input_validate_username_iff username).0 valid).short)

      pkt : GamePacket
      pkt =
          arrived os io delivers fuel packet 32 (join_packet-IsPacket username seq_num s) garbage
            replay_protection_init

      w1 : Worker Env
      w1 =
          let (_, rp1, e1) = recv_packet_with_timeout os fuel 0 garbage replay_protection_init e in
          record (fresh_worker os garbage game e) { rp = rp1; env = e1; packet = pkt }
