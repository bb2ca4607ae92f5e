-- ===== src/Client/Packets/RoundTrip.antt =====
-- A request of client.c, the turn of the worker of client_handler.c that it arrives at, and the answer
-- that the client reads: both programs, each on its own side of the connection.
use world_boss_raid.Base.{
  ℕ, ◌+◌, ◌-◌, ◌≤◌, ◌≡◌, ap, subst, ◌∙◌, Bool, true, false, List, ◌++◌, arith, All, length, drop,
  take, length-append,
}
use world_boss_raid.Protocol.{
  GamePacket, PayloadGameState, op_game_state, size_header, size_packet, size_game_state,
}
use world_boss_raid.Protocol.Wire.{
  IsInt32, IsGameState, header_bytes, game_state_bytes, length-header_bytes,
}
use world_boss_raid.GameState.Invariant.{IsValid}
use world_boss_raid.GameState.Streak.{CanGrow}
use world_boss_raid.Dice.{die, game_process_attack}
use world_boss_raid.Net.{Os, done, wire, seal}
use world_boss_raid.Net.Laws.{Incoming, Delivers, Accepts}
use world_boss_raid.Handler.Packets.{recv_packet_with_timeout}
use world_boss_raid.Handler.Packets.Transfer.{IsPacket, length-payload, drop_append}
use world_boss_raid.Handler.Session.{Worker, next, response, attach_result, heartbeat_state, turn}
use world_boss_raid.Handler.Session.Answering.{IsArriving, turn-heartbeat, turn-attack}
use world_boss_raid.Handler.Session.Fits.{heartbeat_state-IsGameState, attack_state-IsGameState}
use world_boss_raid.Client.Packets.{Link}
use world_boss_raid.Client.Packets.Received.{
  response-IsPacket, length-game_state_bytes, state_request_bytes, get_state, get_state-answer,
}

-- The last `n` bytes.
abbrev pub last_bytes : ℕ → List ℕ → List ℕ
last_bytes n bs = drop (length bs - n) bs

pub last_bytes-append : (xs ys : List ℕ) (n : ℕ) → length ys ≡ n → last_bytes n (xs ++ ys) ≡ ys
last_bytes-append xs ys n h =
    drop_append xs ys (length (xs ++ ys) - n) (omega (arith, length-append {0} xs ys))

pub length-wire : (p : GamePacket) (k : ℕ) → IsPacket p k → length (wire p k) ≡ size_header + k
unfolding wire
length-wire p k v = omega (
  arith,
  length-append {0} (header_bytes (seal p k).header) (take k p.raw),
  length-header_bytes (seal p k).header,
  length-payload p k v,
)

-- The bytes of a game state, as the worker sends them.
abbrev state_bytes : PayloadGameState → List ℕ
state_bytes s = wire (response op_game_state (game_state_bytes s)) size_game_state

length-state_bytes :
    (s : PayloadGameState) → IsGameState s → length (state_bytes s) ≡ size_header + size_game_state
length-state_bytes s v =
    let n = length-game_state_bytes s v in
    length-wire (response op_game_state (game_state_bytes s)) size_game_state (
      subst (λ m. IsPacket (response op_game_state (game_state_bytes s)) m) n
        (response-IsPacket op_game_state (game_state_bytes s) (omega arith) (omega (arith, n))))

module _ (os : Os) (io : Incoming os) (delivers : Delivers os io) (outgoing : os.Env → List ℕ)
    (accepts : Accepts os outgoing) (fuel : ℕ) (w w' : Worker os.Env) (rest : List ℕ) (cos : Os)
    (cio : Incoming cos) (cdelivers : Delivers cos cio) (cfuel : ℕ) (c : Link cos.Env)
    (crest : List ℕ) where
  -- The connection between the two: the request of the client arrives at the worker, which has ended
  -- its turn as `w'`, and the last bytes that it has then written are what the client can read after
  -- its own call of SSL_write, which took the request whole.
  pub record IsServed (is_attack : Bool) : Type 0 where
    pub arriving : IsArriving os io delivers outgoing accepts fuel w c.g_seq_num rest is_attack
    pub turned : turn os fuel w ≡ next w'
    pub taken :
        (cos.ssl_write (state_request_bytes is_attack c.g_seq_num) c.env).0
        ≡ length (state_request_bytes is_attack c.g_seq_num)
    pub returned :
        cio.pending (cos.ssl_write (state_request_bytes is_attack c.g_seq_num) c.env).1
        ≡ last_bytes (size_header + size_game_state) (outgoing w'.env) ++ crest
    pub fuelled :
        size_packet
          + cio.retries (cos.ssl_write (state_request_bytes is_attack c.g_seq_num) c.env).1
        ≤ cfuel

  -- The client reads what the worker wrote last.
  get_state-served :
      (is_attack : Bool) (s : PayloadGameState) (before : List ℕ)
      → IsServed is_attack
      → IsGameState s
      → outgoing w'.env ≡ before ++ state_bytes s
      → (get_state cos is_attack cfuel c).0 ≡ done s
  get_state-served is_attack s before v fits sent =
      (get_state-answer cos cio cdelivers cfuel c crest is_attack s fits (record {
        taken = v.taken;
        arrives =
            v.returned
            ∙ ap (λ bs. last_bytes (size_header + size_game_state) bs ++ crest) sent
            ∙ ap (λ bs. bs ++ crest)
                (last_bytes-append before (state_bytes s) _ (length-state_bytes s fits));
        fuelled = v.fuelled;
      })).0

  module _ (valid : IsValid w.game) (online : IsInt32 w.game.online_count) where
    -- A heartbeat of a client at a worker whose state is well formed and whose number of players fits
    -- an int32_t, both ways over connections that work: the client gets exactly the state of the
    -- worker's game at the time that the worker noted.
    pub heartbeat_round_trip :
        IsServed false
        → (get_state cos false cfuel c).0 ≡ done (heartbeat_state w'.last_heartbeat w.game)
    heartbeat_round_trip v =
        let (w2, t, _, (before, sent), _, _) =
          turn-heartbeat os io delivers outgoing accepts fuel w c.g_seq_num rest v.arriving in
        let same : w2 ≡ w' = cc in
        get_state-served false (heartbeat_state w'.last_heartbeat w.game) before v
          (heartbeat_state-IsGameState w'.last_heartbeat w.game valid online) (rw same at sent)

    -- An attack of a client at a worker whose state is well formed and whose number of players and
    -- streaks leave room in an int32_t, both ways over connections that work: the worker has
    -- attacked with a dice that it has rolled itself by its next call of `rand`, and the client
    -- gets exactly the result and the state of this attack.
    pub attack_round_trip :
        All CanGrow w.game.players
        → IsServed true
        → let (_, _, e0) = recv_packet_with_timeout os fuel 5 w.packet w.rp w.env in
          let (x, e) = os.rand e0 in
          let (result, state, e1, game1) =
            game_process_attack (os.rand) (os.time) (die x) w.username e w.game in
          (w'.game ≡ game1) × ((get_state cos true cfuel c).0 ≡ done (attach_result result state))
    attack_round_trip growing v =
        let (_, _, e0) = recv_packet_with_timeout os fuel 5 w.packet w.rp w.env in
        let (x, e) = os.rand e0 in
        let (w2, t, g, sent, _, _) =
          turn-attack os io delivers outgoing accepts fuel w c.g_seq_num rest v.arriving in
        let same : w2 ≡ w' = cc in
        let (result, state, e1, game1) =
          game_process_attack (os.rand) (os.time) (die x) w.username e w.game in
        (
          rw same at g,
          get_state-served true (attach_result result state) (outgoing e1) v
              (attack_state-IsGameState (os.rand) (os.time) x w.username e w.game valid online
                growing)
              (rw same at sent),
        )
