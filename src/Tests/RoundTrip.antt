-- ===== src/Tests/RoundTrip.antt =====
-- A client and a worker on the two sides of a connection.
use world_boss_raid.Base.{
  ℕ, ◌+◌, ◌≡◌, refl, true, List, [], ◌∷◌, ◌++◌, arith, pos, ◌+ℤ◌, length, ◌^◌, ◌%◌, All-replicate,
}
use world_boss_raid.Protocol.{size_header, size_game_state, size_join_resp}
use world_boss_raid.GameState.{gamestate_init, empty_history}
use world_boss_raid.GameState.Invariant.{gamestate_init-IsValid}
use world_boss_raid.GameState.Streak.{CanGrow}
use world_boss_raid.Dice.{die, game_process_attack}
use world_boss_raid.Net.{Os, ReadResult, got, failed, done, wire}
use world_boss_raid.Net.Laws.{Incoming, Delivers}
use world_boss_raid.Handler.Session.{Worker, attach_result, fresh_worker}
use world_boss_raid.Handler.Session.Answering.{turn-attack}
use world_boss_raid.Handler.Packets.{recv_packet_with_timeout}
use world_boss_raid.Handler.Session.Joining.{greet-join}
use world_boss_raid.Client.Packets.{Link, send_join_and_wait_resp}
use world_boss_raid.Client.Packets.JoinTrip.{IsGreeted, join_round_trip}
use world_boss_raid.Base.CString.{text}
use world_boss_raid.Handler.Session.{greet, next}
use world_boss_raid.Security.InputValidator.{input_validate_username, all_allowed, allowed_char}
use world_boss_raid.Client.Packets.Received.{get_state}
use world_boss_raid.Client.Packets.RoundTrip.{last_bytes, IsServed, attack_round_trip}
use world_boss_raid.Tests.Connection.{
  request, ann, ann_joining, Pipe, pipe_os, pipe_io, pipe_os-Delivers, pipe_os-Accepts,
}
use world_boss_raid.Tests.Answers.{serving, serving-IsArriving}

-- What can be read.
abbrev pub Answering : Type 0
Answering = List ℕ

abbrev read_next : ℕ → Answering → ReadResult × Answering
read_next n [] = (failed, [])
read_next n (b ∷ bs) = (got (b ∷ []), bs)

-- A connection that takes every packet whole.
abbrev pub client_os : Os
client_os = record {
  Env = Answering;
  rand = λ e. (6, e);
  time = λ e. pos 1000;
  ssl_get_fd = λ e. pos 3;
  select = λ t e. (pos 1, e);
  ssl_read = read_next;
  ssl_write = λ bs e. (length bs, e);
  ssl_close = λ e. e;
}

abbrev pub client_io : Incoming client_os
client_io = record { pending = λ e. e; retries = λ e. 0 }

pub client_os-Delivers : Delivers client_os client_io
client_os-Delivers n [] h k = absurd (omega arith)
client_os-Delivers n (b ∷ bs) h k = (omega arith, omega arith, refl, omega arith)

-- The worker after its turn.
attacked : Worker Pipe
attacked =
    (turn-attack pipe_os pipe_io pipe_os-Delivers (λ e. e.1) pipe_os-Accepts 1036 (serving true) 9
      [] (serving-IsArriving true)).0

abbrev asking : Worker Pipe → Link Answering
asking w = record {
  env = last_bytes (size_header + size_game_state) w.env.1 ++ (7 ∷ []);
  g_seq_num = 9;
}

attack-IsServed :
    IsServed pipe_os pipe_io pipe_os-Delivers
      (λ e. e.1)
      pipe_os-Accepts
      1036
      (serving true)
      attacked
      []
      client_os
      client_io
      client_os-Delivers
      1036
      (asking attacked)
      (7 ∷ [])
      true
unfolding attacked
attack-IsServed = record {
  arriving = serving-IsArriving true;
  turned =
      (turn-attack pipe_os pipe_io pipe_os-Delivers (λ e. e.1) pipe_os-Accepts 1036 (serving true) 9
        [] (serving-IsArriving true)).1;
  taken = refl;
  returned = refl;
  fuelled = omega arith;
}

attack_round_trip_example :
    let (_, _, e0) =
      recv_packet_with_timeout pipe_os 1036 5
        (serving true).packet
        (serving true).rp
        (serving true).env in
    let (x, e) = pipe_os.rand e0 in
    let (result, state, e1, game1) =
      game_process_attack pipe_os.rand pipe_os.time
        (die x)
        (serving true).username
        e
        (serving true).game in
    (attacked.game ≡ game1)
    × ((get_state client_os true 1036 (asking attacked)).0 ≡ done (attach_result result state))
unfolding gamestate_init fresh_worker
attack_round_trip_example =
    attack_round_trip pipe_os pipe_io pipe_os-Delivers (λ e. e.1) pipe_os-Accepts 1036
      (serving true) attacked [] client_os client_io client_os-Delivers 1036 (asking attacked)
      (7 ∷ []) gamestate_init-IsValid (omega arith, omega arith)
      (All-replicate CanGrow 100 empty_history (omega arith, omega arith)) attack-IsServed

-- The worker that has greeted Ann.
greeted_ann :
    (w : Worker Pipe) × (greet pipe_os 1036
        (fresh_worker pipe_os request gamestate_init ann_joining)
      ≡ next w)
unfolding input_validate_username all_allowed allowed_char
greeted_ann =
    let (w, g, _, _, _, _, _) =
      greet-join pipe_os pipe_io pipe_os-Delivers (λ e. e.1) pipe_os-Accepts 1036 request
        gamestate_init ann_joining (ann ++ (0 ∷ [])) 9 (wire request 4) refl (omega arith) refl refl
        (omega arith) in
    (w, g)

abbrev joining : Link Answering
joining = record {
  env = last_bytes (size_header + size_join_resp) greeted_ann.0.env.1 ++ (7 ∷ []);
  g_seq_num = 9;
}

ann-IsGreeted :
    IsGreeted pipe_os pipe_io pipe_os-Delivers
      (λ e. e.1)
      pipe_os-Accepts
      1036
      request
      gamestate_init
      ann_joining
      (ann ++ (0 ∷ []))
      (wire request 4)
      greeted_ann.0
      client_os
      client_io
      client_os-Delivers
      1036
      joining
      (7 ∷ [])
ann-IsGreeted = record {
  fits = omega arith;
  opened = refl;
  arrives = refl;
  covered = omega arith;
  greeted = greeted_ann.1;
  taken = refl;
  returned = refl;
  fuelled = omega arith;
}

join_round_trip_example :
    let (r, c) = send_join_and_wait_resp client_os 1036 (ann ++ (0 ∷ [])) joining in
    (text greeted_ann.0.username ≡ ann)
    × (greeted_ann.0.player_id ≡ gamestate_init.online_count +ℤ pos 1)
    × (greeted_ann.0.game
        ≡ record gamestate_init { online_count = gamestate_init.online_count +ℤ pos 1 })
    × (greeted_ann.0.rp ≡ record { last_seq_num = 9; initialized = true })
    × (r ≡ done greeted_ann.0.player_id)
    × (c.g_seq_num ≡ (9 + 1) % 2 ^ 32)
unfolding input_validate_username all_allowed allowed_char gamestate_init ◌+ℤ◌
join_round_trip_example =
    join_round_trip pipe_os pipe_io pipe_os-Delivers (λ e. e.1) pipe_os-Accepts 1036 request
      gamestate_init ann_joining (ann ++ (0 ∷ [])) (wire request 4) greeted_ann.0 client_os
      client_io client_os-Delivers 1036 joining (7 ∷ []) refl (omega arith, omega arith)
      ann-IsGreeted
