-- ===== src/Client/Packets/Conversation.antt =====
-- A conversation of a player with the worker that serves it: requests of client.c one after the other,
-- each with the turn of the worker that it arrives at and the answer that the client reads.
pub mod Answers
pub mod Session
use world_boss_raid.Base.{
  ℕ, ◌+◌, ◌^◌, ◌≤◌, ◌<◌, ◌≡◌, Bool, true, false, List, [], ◌∷◌, ◌++◌, ℤ, pos, ltb_ℤ, All, length,
}
use world_boss_raid.Protocol.{PayloadGameState, size_header, size_packet, size_game_state}
use world_boss_raid.Protocol.Wire.{IsInt32}
use world_boss_raid.GameState.{GameSharedData}
use world_boss_raid.GameState.Invariant.{IsValid}
use world_boss_raid.GameState.Streak.{CanGrow}
use world_boss_raid.Dice.{die, game_process_attack}
use world_boss_raid.Net.{Os, done, wire}
use world_boss_raid.Net.Laws.{Incoming, Delivers, Accepts}
use world_boss_raid.Security.ReplayProtection.Order.{next_seq}
use world_boss_raid.Handler.Packets.{wait_readable, recv_packet_with_timeout}
use world_boss_raid.Handler.Session.{
  Worker, Turn, next, stopped, hung, attach_result, heartbeat_state, after_snapshot, is_timed_out,
  turn,
}
use world_boss_raid.Handler.Session.Answering.{request_packet, request_size}
use world_boss_raid.Client.Packets.{Link}
use world_boss_raid.Client.Packets.Received.{state_request_bytes, get_state}
use world_boss_raid.Client.Packets.RoundTrip.{last_bytes}

-- The client's next number is the one after the last that the worker has accepted.
pub record InSync {E F : Type 0} (w : Worker E) (c : Link F) : Type 0 where
  pub started : w.rp.initialized ≡ true
  pub fits : w.rp.last_seq_num < 2 ^ 32
  pub ahead : c.g_seq_num ≡ next_seq w.rp.last_seq_num

-- The worker of a turn after which it goes on.
abbrev pub after_turn : {E : Type 0} → Worker E → Turn (Worker E) → Worker E
after_turn w (next w') = w'
after_turn w (stopped _) = w
after_turn w hung = w

module _ (os : Os) (io : Incoming os) (delivers : Delivers os io) (outgoing : os.Env → List ℕ)
    (accepts : Accepts os outgoing) (fuel : ℕ) (cos : Os) (cio : Incoming cos)
    (cdelivers : Delivers cos cio) (cfuel : ℕ) where
  -- A request of a player: which one, the game that the other workers have left in the shared memory by
  -- then, and what is pending behind the request and behind its answer.
  pub record Exchange : Type 0 where
    pub is_attack : Bool
    pub game : GameSharedData
    pub rest : List ℕ
    pub crest : List ℕ

  abbrev pub finding : Exchange → Worker os.Env → Worker os.Env
  finding x w = record w { game = x.game }

  -- The worker after the turn in which it serves the request, if it stays in its loop.
  abbrev pub served_by : Exchange → Worker os.Env → Worker os.Env
  served_by x w = after_turn w (turn os fuel (finding x w))

  -- A connection that carries a request to the worker `w` and the answer back: the socket is open and
  -- readable and delivers what is pending with enough fuel, the last heartbeat is not too old, and the
  -- limit of the rate is not reached; and what the client can read after its call of SSL_write, which
  -- took the request whole, are the last bytes of the worker.
  pub record IsCarried (x : Exchange) (w : Worker os.Env) (c : Link cos.Env) : Type 0 where
    pub alive : is_timed_out os (finding x w) ≡ false
    pub opened : ltb_ℤ (os.ssl_get_fd w.env) (pos 0) ≡ false
    pub ready : (wait_readable os 5 w.env).0 ≡ true
    pub arrives :
        io.pending (wait_readable os 5 w.env).1
        ≡ wire (request_packet x.is_attack c.g_seq_num) (request_size x.is_attack) ++ x.rest
    pub covered : size_packet + io.retries (wait_readable os 5 w.env).1 ≤ fuel
    pub allowed : w.rl.request_count < w.rl.max_requests
    pub taken :
        (cos.ssl_write (state_request_bytes x.is_attack c.g_seq_num) c.env).0
        ≡ length (state_request_bytes x.is_attack c.g_seq_num)
    pub returned :
        cio.pending (cos.ssl_write (state_request_bytes x.is_attack c.g_seq_num) c.env).1
        ≡ last_bytes (size_header + size_game_state) (outgoing (served_by x w).env) ++ x.crest
    pub fuelled :
        size_packet
          + cio.retries (cos.ssl_write (state_request_bytes x.is_attack c.g_seq_num) c.env).1
        ≤ cfuel

  -- What the worker does for a request at the time `now`: the game after it, and the state that it
  -- answers with.
  abbrev pub service : Bool → ℤ → Worker os.Env → GameSharedData × PayloadGameState
  service false now w = (after_snapshot now w.game, heartbeat_state now w.game)
  service true now w =
      let (_, _, e0) = recv_packet_with_timeout os fuel 5 w.packet w.rp w.env in
      let (x, e) = os.rand e0 in
      let (result, state, _, game1) =
        game_process_attack (os.rand) (os.time) (die x) w.username e w.game in
      (game1, attach_result result state)

  -- The worker stays in its loop and keeps the name, the game is the one after the request, and the
  -- client gets the state that the worker answers with.
  abbrev pub IsAnswered : Exchange → Worker os.Env → Link cos.Env → Type 0
  IsAnswered x w c =
      let w' = served_by x w in
      let (game, state) = service x.is_attack w'.last_heartbeat (finding x w) in
      (turn os fuel (finding x w) ≡ next w')
      × (w'.username ≡ w.username)
      × (w'.game ≡ game)
      × ((get_state cos x.is_attack cfuel c).0 ≡ done state)

  -- What a game has to be for its states to fit a packet.
  abbrev pub Fits : Exchange → Type 0
  Fits x = IsValid x.game × IsInt32 x.game.online_count × All CanGrow x.game.players

  -- The requests one after the other, each carried.
  abbrev pub AreCarried : List Exchange → Worker os.Env → Link cos.Env → Type 0
  AreCarried [] w c = Unit
  AreCarried (x ∷ xs) w c =
      IsCarried x w c × AreCarried xs (served_by x w) (get_state cos x.is_attack cfuel c).1

  -- Every request is answered, and the two are in step at the end.
  abbrev pub AreAnswered : List Exchange → Worker os.Env → Link cos.Env → Type 0
  AreAnswered [] w c = InSync w c
  AreAnswered (x ∷ xs) w c =
      IsAnswered x w c × AreAnswered xs (served_by x w) (get_state cos x.is_attack cfuel c).1
