-- ===== src/Handler/Session/Closing.antt =====
-- The end of a connection over the life of a worker: every way out of `handle_client` closes it once.
use world_boss_raid.Base.{
  ℕ, zero, suc, ◌≡◌, refl, ap, ◌∙◌, inl, inr, not, take, Bool, true, false, List, ℤ, pos, leb_ℤ,
  ◌==◌, if◌then◌else◌, Bool-cases,
}
use world_boss_raid.Protocol.{
  GamePacket, max_player_name, op_join, op_attack, op_heartbeat, op_leave,
}
use world_boss_raid.GameState.{GameSharedData}
use world_boss_raid.Dice.{game_process_attack}
use world_boss_raid.Protocol.Wire.{attack_damage_of}
use world_boss_raid.Security.ReplayProtection.{ReplayProtection}
use world_boss_raid.Security.RateLimiter.{rate_limiter_check}
use world_boss_raid.Security.InputValidator.{
  input_validate_username, input_validate_opcode, input_validate_packet_size,
}
use world_boss_raid.Handler.Packets.{recv_packet_with_timeout}
use world_boss_raid.Net.{Os, Outcome, done, broken, starved}
use world_boss_raid.Handler.Session.{
  Worker, Turn, next, stopped, hung, cleanup_client, reply, handle_join, bad_dice, choose_dice,
  handle_attack, handle_heartbeat, or_stop, dispatch, admit, is_timed_out, turn, main_loop,
  fresh_worker, greet, handle_client,
}
use world_boss_raid.Dice.{closed}
use world_boss_raid.Handler.Packets.Keeping.{
  Keeps, send_packet-keeps, recv_packet_with_timeout-keeps,
}

module _ (os : Os) {X : Type 0} (f : os.Env → X) (g : X → X) (keeps : Keeps os f g) (x : X) where
  open os use {Env, rand, time}

  -- In the loop nothing is closed; after the exit the connection has been closed once.
  abbrev pub IsClosed : Turn (Worker Env) → Type 0
  IsClosed (next w) = f w.env ≡ x
  IsClosed (stopped w) = f w.env ≡ g x
  IsClosed hung = Unit

  cleanup-IsClosed : (w : Worker Env) → f w.env ≡ x → IsClosed (stopped (cleanup_client os w))
  unfolding cleanup_client
  cleanup-IsClosed w h = elim (Bool-cases (leb_ℤ (pos 0) w.player_id)) [
    | inl e ↦ rw (e, cleanup_client) (keeps.close w.env ∙ ap g h)
    | inr e ↦ rw (e, cleanup_client) (keeps.close w.env ∙ ap g h)
  ]

  or_stop-IsClosed : (b : Bool) (w : Worker Env) → f w.env ≡ x → IsClosed (or_stop os (b, w))
  unfolding or_stop
  or_stop-IsClosed true w h = h
  or_stop-IsClosed false w h = cleanup-IsClosed w h

  handle_join-keeps : (w : Worker Env) → f w.env ≡ x → f (handle_join os w).1.env ≡ x
  unfolding handle_join reply
  handle_join-keeps w h = send_packet-keeps os f g keeps _ _ w.env ∙ h

  choose_dice-keeps : (d : ℤ) (e : Env) → f (choose_dice os d e).1 ≡ f e
  unfolding choose_dice
  choose_dice-keeps d e = elim (Bool-cases (bad_dice d)) [
    | inl b ↦ rw (b, choose_dice) (keeps.rand e)
    | inr b ↦ rw (b, choose_dice) refl
  ]

  attack-keeps :
      (d : ℤ) (name : List ℕ) (e : Env) (game : GameSharedData)
      → f (game_process_attack rand time d name e game).2 ≡ f e
  unfolding game_process_attack
  attack-keeps d name e game = elim (Bool-cases (closed game)) [
    | inl b ↦ rw (b, game_process_attack) refl
    | inr b ↦ rw (b, game_process_attack) (keeps.rand (rand e).1 ∙ keeps.rand e)
  ]

  handle_attack-keeps : (w : Worker Env) → f w.env ≡ x → f (handle_attack os w).1.env ≡ x
  unfolding handle_attack reply
  handle_attack-keeps w h =
      let (d, e1) = choose_dice os (attack_damage_of w.packet.raw) w.env in
      send_packet-keeps os f g keeps _ _ (game_process_attack rand time d w.username e1 w.game).2
      ∙ attack-keeps d w.username e1 w.game
      ∙ choose_dice-keeps (attack_damage_of w.packet.raw) w.env
      ∙ h

  handle_heartbeat-keeps : (w : Worker Env) → f w.env ≡ x → f (handle_heartbeat os w).1.env ≡ x
  unfolding handle_heartbeat reply
  handle_heartbeat-keeps w h = send_packet-keeps os f g keeps _ _ w.env ∙ h

  dispatch-IsClosed : (w : Worker Env) → f w.env ≡ x → IsClosed (dispatch os w)
  unfolding dispatch
  dispatch-IsClosed w h = elim (Bool-cases (w.packet.header.opcode == op_attack)) [
    | inl e ↦ rw e (or_stop-IsClosed (handle_attack os w).0 _ (handle_attack-keeps w h))
    | inr e ↦ elim (Bool-cases (w.packet.header.opcode == op_heartbeat)) [
      | inl f ↦
          rw (e, f) (or_stop-IsClosed (handle_heartbeat os w).0 _ (handle_heartbeat-keeps w h))
      | inr f ↦ elim (Bool-cases (w.packet.header.opcode == op_leave)) [
        | inl l ↦ rw (e, f, l) (cleanup-IsClosed w h)
        | inr l ↦ rw (e, f, l) h
      ]
    ]
  ]

  admit-IsClosed : (w : Worker Env) → f w.env ≡ x → IsClosed (admit os w)
  unfolding admit
  admit-IsClosed w h =
      let w1 = record w { rl = (rate_limiter_check (time w.env) w.rl).1 } in
      elim (Bool-cases (rate_limiter_check (time w.env) w.rl).0) [
        | inr e ↦ rw e (cleanup-IsClosed w1 h)
        | inl e ↦ elim (Bool-cases (input_validate_opcode w.packet.header.opcode)) [
          | inr f ↦ rw (e, f) (cleanup-IsClosed w1 h)
          | inl f ↦
              elim (Bool-cases
                (input_validate_packet_size w.packet.header.opcode w.packet.header.length)) [
                  | inr l ↦ rw (e, f, l) (cleanup-IsClosed w1 h)
                  | inl l ↦ rw (e, f, l) (dispatch-IsClosed w1 h)
                ]
        ]
      ]

  turn-IsClosed : (fuel : ℕ) (w : Worker Env) → f w.env ≡ x → IsClosed (turn os fuel w)
  unfolding turn
  turn-IsClosed fuel w h = elim (Bool-cases (is_timed_out os w)) [
    | inl e ↦ rw e (cleanup-IsClosed w h)
    | inr e ↦ rw e (
        arrival (recv_packet_with_timeout os fuel 5 w.packet w.rp w.env)
          (recv_packet_with_timeout-keeps os f g keeps fuel 5 w.packet w.rp w.env ∙ h))
  ]
    where
      arrival :
          (r : Outcome GamePacket × ReplayProtection × Env)
          → f r.2 ≡ x
          → IsClosed (elim r.0 as (λ _. Turn (Worker Env)) [
            | broken ↦ stopped (cleanup_client os (record w { rp = r.1; env = r.2 }))
            | starved ↦ hung
            | done pkt ↦ admit os (record w { rp = r.1; env = r.2; packet = pkt })
          ])
      arrival (broken, rp, e) k = cleanup-IsClosed (record w { rp = rp; env = e }) k
      arrival (starved, rp, e) k = tt
      arrival (done pkt, rp, e) k = admit-IsClosed (record w { rp = rp; env = e; packet = pkt }) k

  main_loop-IsClosed :
      (rounds fuel : ℕ) (w : Worker Env) → f w.env ≡ x → IsClosed (main_loop os rounds fuel w)
  unfolding main_loop
  main_loop-IsClosed zero fuel w h = h
  main_loop-IsClosed (suc rounds) fuel w h =
      go (turn os fuel w) (turn-IsClosed fuel w h) (λ w1. main_loop-IsClosed rounds fuel w1)
    where
      go :
          (t : Turn (Worker Env))
          → IsClosed t
          → ((w1 : Worker Env) → f w1.env ≡ x → IsClosed (main_loop os rounds fuel w1))
          → IsClosed (elim t as (λ _. Turn (Worker Env)) [
            | next w1 ↦ main_loop os rounds fuel w1
            | stopped w1 ↦ stopped w1
            | hung ↦ hung
          ])
      go (next w1) b rest = rest w1 b
      go (stopped w1) b rest = b
      go hung b rest = tt

  greet-IsClosed : (fuel : ℕ) (w : Worker Env) → f w.env ≡ x → IsClosed (greet os fuel w)
  unfolding greet
  greet-IsClosed fuel w h =
      arrival (recv_packet_with_timeout os fuel 0 w.packet w.rp w.env)
        (recv_packet_with_timeout-keeps os f g keeps fuel 0 w.packet w.rp w.env ∙ h)
    where
      arrival :
          (r : Outcome GamePacket × ReplayProtection × Env)
          → f r.2 ≡ x
          → IsClosed (elim r.0 as (λ _. Turn (Worker Env)) [
            | broken ↦ stopped (cleanup_client os (record w { rp = r.1; env = r.2 }))
            | starved ↦ hung
            | done pkt ↦
                let w2 = record w { rp = r.1; env = r.2; packet = pkt } in
                if not (pkt.header.opcode == op_join)
                then stopped (cleanup_client os w2)
                else if not (input_validate_username (take max_player_name pkt.raw))
                then stopped (cleanup_client os w2)
                else or_stop os (handle_join os w2)
          ])
      arrival (broken, rp, e) k = cleanup-IsClosed (record w { rp = rp; env = e }) k
      arrival (starved, rp, e) k = tt
      arrival (done pkt, rp, e) k =
          let w2 = record w { rp = rp; env = e; packet = pkt } in
          elim (Bool-cases (pkt.header.opcode == op_join)) [
            | inr f ↦ rw f (cleanup-IsClosed w2 k)
            | inl f ↦ elim (Bool-cases (input_validate_username (take max_player_name pkt.raw))) [
              | inr l ↦ rw (f, l) (cleanup-IsClosed w2 k)
              | inl l ↦
                  rw (f, l) (or_stop-IsClosed (handle_join os w2).0 _ (handle_join-keeps w2 k))
            ]
          ]

  -- Whatever the calls of the environment return: a worker that is still in its loop has not closed its
  -- connection, and one that has stopped has closed it once.
  pub handle_client-IsClosed :
      (rounds fuel : ℕ) (garbage : GamePacket) (game : GameSharedData) (e : Env)
      → f e ≡ x
      → IsClosed (handle_client os rounds fuel garbage game e)
  unfolding handle_client fresh_worker
  handle_client-IsClosed rounds fuel garbage game e h =
      go (greet os fuel (fresh_worker os garbage game e))
        (greet-IsClosed fuel (fresh_worker os garbage game e) h)
    where
      go :
          (t : Turn (Worker Env))
          → IsClosed t
          → IsClosed (elim t as (λ _. Turn (Worker Env)) [
            | next w ↦ main_loop os rounds fuel w
            | stopped w ↦ stopped w
            | hung ↦ hung
          ])
      go (next w) b = main_loop-IsClosed rounds fuel w b
      go (stopped w) b = b
      go hung b = tt
