-- ===== src/Handler/Session/Balance.antt =====
-- The number of players online and the shared memory over the life of a worker: joins and leaves.
use world_boss_raid.Base.{
  ℕ, zero, suc, ◌%◌, ◌≡◌, refl, ◌∙◌, inl, inr, not, take, Bool, true, false, List, arith, ℤ, pos,
  ◌+ℤ◌, ◌-ℤ◌, leb_ℤ, ltb_ℤ, ◌==◌, if◌then◌else◌, Bool-cases,
}
use world_boss_raid.Protocol.{
  GamePacket, max_player_name, op_join, op_attack, op_heartbeat, op_leave,
}
use world_boss_raid.GameState.{
  GameSharedData, gamestate_player_join, gamestate_player_leave, gamestate_apply_damage,
  gamestate_spawn_next_boss, gamestate_update_streak, gamestate_mark_lucky_kill,
  gamestate_clear_lucky_kill,
}
use world_boss_raid.GameState.Invariant.{
  IsValid, gamestate_player_join-IsValid, gamestate_player_leave-IsValid,
}
use world_boss_raid.Dice.{AttackResult, die, deal, lucky_result, resolve, game_process_attack}
use world_boss_raid.Dice.Outcome.{game_process_attack-IsValid}
use world_boss_raid.Protocol.Wire.{attack_damage_of}
use world_boss_raid.Security.ReplayProtection.{ReplayProtection}
use world_boss_raid.Security.RateLimiter.{rate_limiter_check}
use world_boss_raid.Security.InputValidator.{
  input_validate_username, input_validate_opcode, input_validate_packet_size,
}
use world_boss_raid.Handler.Packets.{recv_packet_with_timeout}
use world_boss_raid.Net.{Os, Outcome, done, broken, starved}
use world_boss_raid.Handler.Session.{
  Worker, Turn, next, stopped, hung, after_snapshot, cleanup_client, reply, handle_join,
  choose_dice, handle_attack, handle_heartbeat, or_stop, dispatch, admit, is_timed_out, turn,
  main_loop, fresh_worker, greet, handle_client,
}

deal-online :
    (name : List ℕ) (result : AttackResult) (g : GameSharedData)
    → (deal name result g).1.online_count ≡ g.online_count
unfolding deal gamestate_apply_damage gamestate_spawn_next_boss
deal-online name result g = ground arith

resolve-online :
    (dice : ℤ) (name : List ℕ) (now boss : ℤ) (lucky : Bool) (g : GameSharedData)
    → (resolve dice name now boss lucky g).1.online_count ≡ g.online_count
unfolding resolve gamestate_mark_lucky_kill gamestate_update_streak
resolve-online dice name now boss true g = deal-online name (lucky_result boss) _
resolve-online dice name now boss false g = elim (Bool-cases (ltb_ℤ boss dice)) [
  | inl e ↦ rw e (deal-online name _ _)
  | inr e ↦ rw e
]

attack-online :
    {R : Type 0} (rand : R → ℕ × R) (clock : R → ℤ) (dice : ℤ) (name : List ℕ) (r : R)
    (g : GameSharedData)
    → (game_process_attack rand clock dice name r g).3.online_count ≡ g.online_count
unfolding game_process_attack
attack-online rand clock dice name r g = ground (
  arith,
  resolve-online dice name (clock (rand (rand r).1).1) (die (rand r).0)
      ((rand (rand r).1).0 % 1000000 == 0) g,
)

leave-online :
    (g : GameSharedData) (m : ℕ)
    → g.online_count ≡ pos (suc m)
    → (gamestate_player_leave g).online_count ≡ pos m
unfolding gamestate_player_leave ◌-ℤ◌
leave-online g m e = ground arith

join-online :
    (g : GameSharedData) (m : ℕ)
    → g.online_count ≡ pos m
    → ((gamestate_player_join g).1.online_count ≡ pos (suc m))
      × ((gamestate_player_join g).0 ≡ pos (suc m))
unfolding gamestate_player_join ◌+ℤ◌
join-online g m e = ground arith

after_snapshot-keeps :
    (now : ℤ) (g : GameSharedData)
    → IsValid g
    → ((after_snapshot now g).online_count ≡ g.online_count) × IsValid (after_snapshot now g)
unfolding after_snapshot gamestate_clear_lucky_kill
after_snapshot-keeps now g v = ground arith

module _ (os : Os) (m : ℕ) where
  open os use {Env, rand, time}

  -- A worker that is not among the `m` others that are online, and has not joined.
  abbrev pub Outside : Worker Env → Type 0
  Outside w = (w.game.online_count ≡ pos m) × IsValid w.game × (leb_ℤ (pos 0) w.player_id ≡ false)

  -- A worker that has joined beside `m` others.
  abbrev pub Inside : Worker Env → Type 0
  Inside w =
      (w.game.online_count ≡ pos (suc m)) × IsValid w.game × (leb_ℤ (pos 0) w.player_id ≡ true)

  -- In the loop the worker is counted; after the exit it is not.
  abbrev pub IsBalanced : Turn (Worker Env) → Type 0
  IsBalanced (next w) = Inside w
  IsBalanced (stopped w) = (w.game.online_count ≡ pos m) × IsValid w.game
  IsBalanced hung = Unit

  cleanup-Outside : (w : Worker Env) → Outside w → IsBalanced (stopped (cleanup_client os w))
  unfolding cleanup_client
  cleanup-Outside w h = ground arith

  cleanup-Inside : (w : Worker Env) → Inside w → IsBalanced (stopped (cleanup_client os w))
  unfolding cleanup_client
  cleanup-Inside w h =
      rw (h.2, cleanup_client)
        (leave-online w.game m h.0, gamestate_player_leave-IsValid w.game h.1)

  or_stop-IsBalanced : (b : Bool) (w : Worker Env) → Inside w → IsBalanced (or_stop os (b, w))
  unfolding or_stop
  or_stop-IsBalanced true w h = h
  or_stop-IsBalanced false w h = cleanup-Inside w h

  handle_join-Inside : (w : Worker Env) → Outside w → Inside (handle_join os w).1
  unfolding handle_join reply
  handle_join-Inside w h =
      let (a, b) = join-online w.game m h.0 in
      (a, gamestate_player_join-IsValid w.game h.1, rw b (ground arith))

  handle_attack-Inside : (w : Worker Env) → Inside w → Inside (handle_attack os w).1
  unfolding handle_attack reply
  handle_attack-Inside w h =
      let (d, e1) = choose_dice os (attack_damage_of w.packet.raw) w.env in
      (
        attack-online rand time d w.username e1 w.game ∙ h.0,
        game_process_attack-IsValid rand time d w.username e1 w.game h.1,
        h.2,
      )

  handle_heartbeat-Inside : (w : Worker Env) → Inside w → Inside (handle_heartbeat os w).1
  unfolding handle_heartbeat reply
  handle_heartbeat-Inside w h =
      let (a, b) = after_snapshot-keeps (time w.env) w.game h.1 in (a ∙ h.0, b, h.2)

  dispatch-IsBalanced : (w : Worker Env) → Inside w → IsBalanced (dispatch os w)
  unfolding dispatch
  dispatch-IsBalanced w h = elim (Bool-cases (w.packet.header.opcode == op_attack)) [
    | inl e ↦ rw e (or_stop-IsBalanced (handle_attack os w).0 _ (handle_attack-Inside w h))
    | inr e ↦ elim (Bool-cases (w.packet.header.opcode == op_heartbeat)) [
      | inl f ↦
          rw (e, f) (or_stop-IsBalanced (handle_heartbeat os w).0 _ (handle_heartbeat-Inside w h))
      | inr f ↦ elim (Bool-cases (w.packet.header.opcode == op_leave)) [
        | inl l ↦ rw (e, f, l) (cleanup-Inside w h)
        | inr l ↦ rw (e, f, l) h
      ]
    ]
  ]

  admit-IsBalanced : (w : Worker Env) → Inside w → IsBalanced (admit os w)
  unfolding admit
  admit-IsBalanced w h =
      let w1 = record w { rl = (rate_limiter_check (time w.env) w.rl).1 } in
      elim (Bool-cases (rate_limiter_check (time w.env) w.rl).0) [
        | inr e ↦ rw e (cleanup-Inside w1 h)
        | inl e ↦ elim (Bool-cases (input_validate_opcode w.packet.header.opcode)) [
          | inr f ↦ rw (e, f) (cleanup-Inside w1 h)
          | inl f ↦
              elim (Bool-cases
                (input_validate_packet_size w.packet.header.opcode w.packet.header.length)) [
                  | inr l ↦ rw (e, f, l) (cleanup-Inside w1 h)
                  | inl l ↦ rw (e, f, l) (dispatch-IsBalanced w1 h)
                ]
        ]
      ]

  turn-IsBalanced : (fuel : ℕ) (w : Worker Env) → Inside w → IsBalanced (turn os fuel w)
  unfolding turn
  turn-IsBalanced fuel w h = elim (Bool-cases (is_timed_out os w)) [
    | inl e ↦ rw e (cleanup-Inside w h)
    | inr e ↦ rw e (arrival (recv_packet_with_timeout os fuel 5 w.packet w.rp w.env))
  ]
    where
      arrival :
          (r : Outcome GamePacket × ReplayProtection × Env)
          → IsBalanced (elim r.0 as (λ _. Turn (Worker Env)) [
            | broken ↦ stopped (cleanup_client os (record w { rp = r.1; env = r.2 }))
            | starved ↦ hung
            | done pkt ↦ admit os (record w { rp = r.1; env = r.2; packet = pkt })
          ])
      arrival (broken, rp, e) = cleanup-Inside (record w { rp = rp; env = e }) h
      arrival (starved, rp, e) = tt
      arrival (done pkt, rp, e) = admit-IsBalanced (record w { rp = rp; env = e; packet = pkt }) h

  main_loop-IsBalanced :
      (rounds fuel : ℕ) (w : Worker Env) → Inside w → IsBalanced (main_loop os rounds fuel w)
  unfolding main_loop
  main_loop-IsBalanced zero fuel w h = h
  main_loop-IsBalanced (suc rounds) fuel w h =
      go (turn os fuel w) (turn-IsBalanced fuel w h) (λ w1. main_loop-IsBalanced rounds fuel w1)
    where
      go :
          (t : Turn (Worker Env))
          → IsBalanced t
          → ((w1 : Worker Env) → Inside w1 → IsBalanced (main_loop os rounds fuel w1))
          → IsBalanced (elim t as (λ _. Turn (Worker Env)) [
            | next w1 ↦ main_loop os rounds fuel w1
            | stopped w1 ↦ stopped w1
            | hung ↦ hung
          ])
      go (next w1) b rest = rest w1 b
      go (stopped w1) b rest = b
      go hung b rest = tt

  greet-IsBalanced : (fuel : ℕ) (w : Worker Env) → Outside w → IsBalanced (greet os fuel w)
  unfolding greet
  greet-IsBalanced fuel w h = arrival (recv_packet_with_timeout os fuel 0 w.packet w.rp w.env)
    where
      arrival :
          (r : Outcome GamePacket × ReplayProtection × Env)
          → IsBalanced (elim r.0 as (λ _. Turn (Worker Env)) [
            | broken ↦ stopped (cleanup_client os (record w { rp = r.1; env = r.2 }))
            | starved ↦ hung
            | done pkt ↦
                let w2 = record w { rp = r.1; env = r.2; packet = pkt } in
                if not (pkt.header.opcode == op_join)
                then stopped (cleanup_client os w2)
                else if not (input_validate_username (take max_player_name pkt.raw))
                then stopped (cleanup_client os w2)
                else or_stop os (handle_join os w2)
          ])
      arrival (broken, rp, e) = cleanup-Outside (record w { rp = rp; env = e }) h
      arrival (starved, rp, e) = tt
      arrival (done pkt, rp, e) =
          let w2 = record w { rp = rp; env = e; packet = pkt } in
          elim (Bool-cases (pkt.header.opcode == op_join)) [
            | inr f ↦ rw f (cleanup-Outside w2 h)
            | inl f ↦ elim (Bool-cases (input_validate_username (take max_player_name pkt.raw))) [
              | inr l ↦ rw (f, l) (cleanup-Outside w2 h)
              | inl l ↦
                  rw (f, l) (or_stop-IsBalanced (handle_join os w2).0 _ (handle_join-Inside w2 h))
            ]
          ]

  -- From a well-formed shared memory with `m` players online, whatever the calls of the environment
  -- return: a worker that has stopped leaves `m` players online, one that is still in its loop leaves
  -- `m + 1` and holds an id that is not negative, and the shared memory is well formed in both cases.
  pub handle_client-IsBalanced :
      (rounds fuel : ℕ) (garbage : GamePacket) (game : GameSharedData) (e : Env)
      → IsValid game
      → game.online_count ≡ pos m
      → IsBalanced (handle_client os rounds fuel garbage game e)
  unfolding handle_client fresh_worker
  handle_client-IsBalanced rounds fuel garbage game e v o =
      go (greet os fuel (fresh_worker os garbage game e))
        (greet-IsBalanced fuel (fresh_worker os garbage game e) (o, v, refl))
    where
      go :
          (t : Turn (Worker Env))
          → IsBalanced t
          → IsBalanced (elim t as (λ _. Turn (Worker Env)) [
            | next w ↦ main_loop os rounds fuel w
            | stopped w ↦ stopped w
            | hung ↦ hung
          ])
      go (next w) b = main_loop-IsBalanced rounds fuel w b
      go (stopped w) b = b
      go hung b = tt
