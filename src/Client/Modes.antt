-- ===== src/Client/Modes.antt =====
-- What the modes of src/client/client.c share: the connection to the server, and how a mode ends.
-- `ask` is the answer of the libraries' calls, on the state that the connection keeps.
pub mod Single
pub mod Threaded
pub mod Balance
use world_boss_raid.Base.{
  ℕ, zero, suc, ◌+◌, Bool, true, false, not, Option, none, some, List, [], ◌∷◌, ℤ, pos, negsuc,
  ltb_ℤ, leb_ℤ, if◌then◌else◌,
}
use Prim.Native.String.{String}
use world_boss_raid.Net.{Outcome, done, broken, starved}
use world_boss_raid.Resources.{
  Call, Held, World, now_held, is_negative, is_not_positive, hold_socket, close_socket,
  free_session, free_context, stray, attempt, first_readable,
}
use world_boss_raid.Tls.{
  tls_verify_server_certificate, tls_cleanup_context, tls_cleanup_openssl, tls_free_ssl,
  tls_shutdown,
}

abbrev pub ca_cert_paths : List String
ca_cert_paths =
    "../certs/ca/ca.crt" ∷ "certs/ca/ca.crt" ∷ "../../certs/ca/ca.crt" ∷ "../../../certs/ca/ca.crt"
    ∷ []

-- How a mode ends: with its result, EXIT_SUCCESS or not, or in the exit() of connect_to_server.
pub data Ending (Env : Type 0) : Type 0 where
  returned : Bool → World Env → Ending Env
  exited : World Env → Ending Env

-- The variables that a mode cleans up by.
pub record Handles : Type 0 where
  pub ctx : Bool
  pub sock : Bool
  pub ssl : Bool

-- The player's id of a join, where -1 stands for every error.
abbrev pub id_of_join : Outcome ℤ → ℤ
id_of_join (done player_id) = player_id
id_of_join broken = negsuc 0
id_of_join starved = negsuc 0

module _ {Env : Type 0} where
  unfoldable pub initscr : World Env → World Env
  initscr w = now_held (record (w.held) { screen = true }) w

  unfoldable pub endwin : World Env → World Env
  endwin w = if w.held.screen then now_held (record (w.held) { screen = false }) w else stray w

module _ {Env : Type 0} (ask : Call → Env → ℤ × Env) where
  -- The label `cleanup_ssl`, and those behind it.
  unfoldable pub close_all : Handles → World Env → World Env
  close_all h w =
      let w1 = tls_free_ssl h.ssl (tls_shutdown ask h.ssl w) in
      let w2 = if h.sock then close_socket w1 else w1 in
      tls_cleanup_openssl (tls_cleanup_context h.ctx w2)

  unfoldable pub get_ca_cert_path : World Env → Option String × World Env
  get_ca_cert_path = first_readable ask ca_cert_paths

  -- Every error of connect_to_server ends the process.
  unfoldable pub connect_to_server : World Env → (World Env → Ending Env) → Ending Env
  connect_to_server w connected = attempt ask Call.socket is_negative w exited (λ w1.
      let w2 = hold_socket w1 in
      attempt ask Call.inet_pton is_not_positive w2 (λ w3. exited (close_socket w3))
        (λ w3. attempt ask Call.connect is_negative w3 (λ w4. exited (close_socket w4)) connected))

  -- Without a file of the authority nothing is verified.
  unfoldable pub verify_if : Option String → World Env → Bool × World Env
  verify_if none w = (true, w)
  verify_if (some path) w = tls_verify_server_certificate ask w
