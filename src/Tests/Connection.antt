-- ===== src/Tests/Connection.antt =====
-- A connection that hands over one byte at a time, and the programs on it.
use world_boss_raid.Base.{
  ℕ, ◌≡◌, ◌≢◌, refl, true, false, none, List, [], ◌∷◌, ◌++◌, arith, pos, negsuc, replicate,
}
use world_boss_raid.Protocol.{GamePacket, op_attack, op_join, max_payload_size}
use world_boss_raid.GameState.{gamestate_init, no_name}
use world_boss_raid.GameState.Invariant.{gamestate_init-IsValid}
use world_boss_raid.Net.{Os, ReadResult, got, failed, done, wire}
use world_boss_raid.Net.Laws.{Incoming, Delivers, Accepts}
use world_boss_raid.Net.Patience.{IsPatient, FewerRetries}
use world_boss_raid.Security.ReplayProtection.{ReplayProtection, replay_protection_validate}
use world_boss_raid.Handler.Packets.{recv_packet_with_timeout, send_packet, wait_readable}
use world_boss_raid.Handler.Packets.Transfer.{IsPacket, arrived, recv_packet_lem, send_packet_lem}
use world_boss_raid.Handler.Session.{response, handle_client, hung}
use world_boss_raid.Handler.Session.Progress.{handle_client-ne-hung}
use world_boss_raid.Handler.Session.Balance.{IsBalanced, handle_client-IsBalanced}
use world_boss_raid.Client.Packets.{join_packet, Link, net_attack_and_get_state}
use world_boss_raid.Client.Network.{
  UiGameState, SharedGameState, network_round, attack_request, still_waiting, attack_finish,
}
use world_boss_raid.Client.Network.Errors.{
  IsTold, attack_round, network_rounds, network_error_stays,
}

-- The bytes to come, and those written.
abbrev pub Pipe : Type 0
Pipe = List ℕ × List ℕ

abbrev read_byte : ℕ → Pipe → ReadResult × Pipe
read_byte n ([], out) = (failed, ([], out))
read_byte n (b ∷ bs, out) = (got (b ∷ []), (bs, out))

abbrev write_byte : List ℕ → Pipe → ℕ × Pipe
write_byte [] e = (0, e)
write_byte (b ∷ bs) (coming, out) = (1, (coming, out ++ (b ∷ [])))

abbrev pub pipe_os : Os
pipe_os = record {
  Env = Pipe;
  rand = λ e. (6, e);
  time = λ e. pos 1000;
  ssl_get_fd = λ e. pos 3;
  select = λ t e. (pos 1, e);
  ssl_read = read_byte;
  ssl_write = write_byte;
  ssl_close = λ e. e;
}

abbrev pub pipe_io : Incoming pipe_os
pipe_io = record { pending = λ e. e.0; retries = λ e. 0 }

pub pipe_os-Delivers : Delivers pipe_os pipe_io
pipe_os-Delivers n ([], out) h k = absurd (omega arith)
pipe_os-Delivers n (b ∷ bs, out) h k = (omega arith, omega arith, refl, omega arith)

pub pipe_os-Accepts : Accepts pipe_os (λ e. e.1)
pipe_os-Accepts [] e h = absurd (omega arith)
pipe_os-Accepts (b ∷ bs) (coming, out) h = (omega arith, omega arith, refl)

-- A request to attack, with the damage 0 of the client.
abbrev pub request : GamePacket
request = record {
  header = record { length = 0; opcode = op_attack; checksum = 0; seq_num = 1 };
  raw = replicate max_payload_size 0;
}

request-IsPacket : IsPacket request 4
request-IsPacket = record {
  opcode_fits = omega arith;
  seq_num_fits = omega arith;
  raw_fits = refl;
  payload_fits = omega arith;
}

send_packet_lem_example :
    let (r, e) = send_packet pipe_os request 4 ([], []) in
    (r ≡ done tt) × (e.1 ≡ [] ++ wire request 4)
send_packet_lem_example = send_packet_lem pipe_os (λ e. e.1) pipe_os-Accepts request 4 ([], [])

abbrev at_attack : Pipe
at_attack = (wire request 4 ++ (9 ∷ 9 ∷ []), [])

abbrev pub after_join : ReplayProtection
after_join = record { last_seq_num = 0; initialized = true }

recv_packet_lem_example :
    let (r, rp, e) = recv_packet_with_timeout pipe_os 1036 5 request after_join at_attack in
    (r
      ≡ done (
          arrived pipe_os pipe_io pipe_os-Delivers 1036 request 4 request-IsPacket request
            after_join))
    × (rp ≡ (replay_protection_validate 1 after_join).1)
    × (e.0 ≡ 9 ∷ 9 ∷ [])
unfolding wait_readable replay_protection_validate
recv_packet_lem_example =
    recv_packet_lem pipe_os pipe_io pipe_os-Delivers 1036 request 4 request-IsPacket request
      after_join 5 (9 ∷ 9 ∷ []) at_attack refl refl refl refl (omega arith)

abbrev pub ann : List ℕ
ann = 97 ∷ 110 ∷ 110 ∷ []

abbrev join_request : GamePacket
join_request = response op_join (ann ++ replicate 29 0)

-- Ann joins, attacks, and is gone.
handle_client-IsBalanced_example : IsBalanced pipe_os 0 (
    handle_client pipe_os 5 2000 request gamestate_init
      (wire join_request 32 ++ wire request 4, []))
unfolding gamestate_init
handle_client-IsBalanced_example =
    handle_client-IsBalanced pipe_os 0 5 2000 request gamestate_init
      (wire join_request 32 ++ wire request 4, []) gamestate_init-IsValid refl

abbrev blank : UiGameState
blank = record {
  boss_hp = pos 0;
  max_hp = pos 0;
  online_count = pos 0;
  stage = 0;
  is_respawning = 0;
  is_crit = 0;
  is_lucky = 0;
  last_player_damage = pos 0;
  last_boss_dice = pos 0;
  last_player_streak = pos 0;
  dmg_taken = pos 0;
  last_killer = no_name;
}

abbrev connected : SharedGameState
connected = record {
  latest_state = blank;
  state_updated = false;
  attack_requested = false;
  attack_completed = false;
  should_exit = false;
  network_error = pos 0;
}

abbrev link : Link Pipe
link = record { env = ([], []); g_seq_num = 3 }

attack_round_example :
    let (after, c) = network_round pipe_os 2000 (attack_request connected, link) in
    (still_waiting after ≡ false)
    × IsTold (net_attack_and_get_state pipe_os 2000 link).0 (attack_finish after).0
attack_round_example = attack_round pipe_os 2000 connected link refl refl refl

network_error_stays_example :
    (attack_finish
      (network_rounds pipe_os 3 2000
        (attack_request (record connected { network_error = negsuc 0 }), link)).0).0
    ≡ none
network_error_stays_example =
    network_error_stays pipe_os 3 2000 (record connected { network_error = negsuc 0 }) link refl

pipe_os-IsPatient : IsPatient pipe_os 0
pipe_os-IsPatient = record { retries = λ e. 0; bounded = λ e. omega arith; fewer = fewer }
  where
    fewer : (n : ℕ) (e : Pipe) → FewerRetries pipe_os (λ e. 0) e (read_byte n e)
    fewer n ([], out) = tt
    fewer n (b ∷ bs, out) = tt

handle_client-ne-hung_example :
    handle_client pipe_os 5 2000 request gamestate_init (wire join_request 32 ++ wire request 4, [])
    ≢ hung
handle_client-ne-hung_example =
    handle_client-ne-hung pipe_os 0 pipe_os-IsPatient 2000 (omega arith) 5 request gamestate_init
      (wire join_request 32 ++ wire request 4, [])

abbrev pub ann_joining : Pipe
ann_joining = (wire (join_packet (ann ++ (0 ∷ [])) 9) 32 ++ wire request 4, [])
