-- ===== src/Client/Stress.antt =====
-- A thread of the stress mode of src/client/client.c, which runs by itself here; in the program the
-- threads run at the same time and share the number of packets.
pub mod Balance
pub mod Names
use world_boss_raid.Base.{
  ℕ, zero, suc, ◌+◌, ◌%◌, ◌/◌, ◌≤◌, Bool, true, false, List, [], ◌∷◌, arith, ℤ, pos, ltb_ℤ,
  if◌then◌else◌,
}
use world_boss_raid.Net.{Os, done, broken, starved}
use world_boss_raid.Resources.{Call, World, close_socket}
use world_boss_raid.Tls.{tls_free_ssl, tls_shutdown, tls_client_handshake}
use world_boss_raid.Client.Packets.{Link, send_join_and_wait_resp, net_attack_and_get_state}
use world_boss_raid.Client.Modes.{
  Ending, returned, get_ca_cert_path, connect_to_server, verify_if, id_of_join,
}

abbrev pub stress_attacks_per_worker : ℕ
stress_attacks_per_worker = 20

-- `"bot_%03d"` of a number below 1000, with the zero byte.
abbrev pub bot_name : ℕ → List ℕ
bot_name id =
    98 ∷ 111 ∷ 116 ∷ 95 ∷ (48 + id / 100 % 10) ∷ (48 + id / 10 % 10) ∷ (48 + id % 10) ∷ 0 ∷ []

module _ (os : Os) where
  open os use {Env}

  -- Whether there was an answer.
  unfoldable pub send_attack_and_show_state : ℕ → Link Env → Bool × Link Env
  send_attack_and_show_state fuel c =
      let (r, c1) = net_attack_and_get_state os fuel c in
      (elim r [ done _ ↦ true | broken ↦ false | starved ↦ false ], c1)

  -- The attacks that are left; the number of those that were answered.
  unfoldable pub stress_attacks : ℕ → ℕ → Link Env → ℕ × Link Env
  stress_attacks zero fuel c = (0, c)
  stress_attacks (suc n) fuel c =
      let (answered, c1) = send_attack_and_show_state fuel c in
      let (more, c2) = stress_attacks n fuel c1 in if answered then (suc more, c2) else (0, c1)

  -- No more answers than attacks.
  stress_attacks-le : (n fuel : ℕ) (c : Link Env) → (stress_attacks n fuel c).0 ≤ n
  unfolding stress_attacks
  stress_attacks-le zero fuel c = omega arith
  stress_attacks-le (suc n) fuel c =
      ground (arith, stress_attacks-le n fuel (send_attack_and_show_state fuel c).1)

  -- The join and the attacks of one thread.
  unfoldable pub stress_session : ℕ → ℕ → Link Env → Link Env
  stress_session fuel id c =
      let (r, c1) = send_join_and_wait_resp os fuel (bot_name id) c in
      if ltb_ℤ (id_of_join r) (pos 0)
      then c1
      else (stress_attacks stress_attacks_per_worker fuel c1).1

  module _ (ask : Call → Link Env → ℤ × Link Env) (fuel : ℕ) where
    -- The label `cleanup` of a thread that has a socket.
    unfoldable pub close_worker : Bool → World (Link Env) → Ending (Link Env)
    close_worker ssl w = returned true (close_socket (tls_free_ssl ssl (tls_shutdown ask ssl w)))

    unfoldable pub verified_worker : ℕ → Bool × World (Link Env) → Ending (Link Env)
    verified_worker id (false, w) = close_worker true w
    verified_worker id (true, w) =
        close_worker true (record w { env = stress_session fuel id w.env })

    -- Each thread looks for the file of the authority again.
    unfoldable pub greeted_worker : ℕ → Bool × World (Link Env) → Ending (Link Env)
    greeted_worker id (false, w) = close_worker false w
    greeted_worker id (true, w) =
        let (ca, w1) = get_ca_cert_path ask w in verified_worker id (verify_if ask ca w1)

    unfoldable pub stress_worker_thread : ℕ → World (Link Env) → Ending (Link Env)
    stress_worker_thread id w =
        connect_to_server ask w (λ w1. greeted_worker id (tls_client_handshake ask true w1))
