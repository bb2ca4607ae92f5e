-- ===== src/Client/Modes/Balance.antt =====
-- What the modes of client.c hold when they end.
pub mod Single
pub mod Threaded
use world_boss_raid.Base.{ℕ, suc, ◌≡◌, refl, Bool, true, false, Option, none, some, ℤ, pos}
use Prim.Native.String.{String}
use world_boss_raid.Resources.{
  Call, Held, World, held_nothing, is_negative, is_not_positive, attempt_elim,
}
use world_boss_raid.Tls.Balance.{tls_verify_server_certificate-held}
use world_boss_raid.Client.Modes.{Ending, returned, exited, connect_to_server, verify_if}

abbrev pub holding_context : Held
holding_context = record held_nothing { contexts = 1; library = true }

abbrev pub connected : Held
connected = record holding_context { sockets = 1 }

abbrev pub greeted : Held
greeted = record connected { sessions = 1 }

module _ {Env : Type 0} (ask : Call → Env → ℤ × Env) where
  pub verify_if-held : (ca : Option String) (w : World Env) → (verify_if ask ca w).1.held ≡ w.held
  unfolding verify_if
  verify_if-held none w = refl
  verify_if-held (some path) w = tls_verify_server_certificate-held ask w

  -- What holds of every exit that holds a context only, and of what follows a connection, holds of the
  -- call of connect_to_server.
  pub connect_to_server_elim :
      (P : Ending Env → Type 0) (e : Env) (next : World Env → Ending Env)
      → ((e1 : Env) → P (exited (record { env = e1; held = holding_context })))
      → ((e1 : Env) → P (next (record { env = e1; held = connected })))
      → P (connect_to_server ask (record { env = e; held = holding_context }) next)
  unfolding connect_to_server
  connect_to_server_elim P e next at_exit at_next =
      attempt_elim ask P Call.socket is_negative _ _ _ at_exit (λ e1.
        attempt_elim ask P Call.inet_pton is_not_positive _ _ _ at_exit
          (λ e2. attempt_elim ask P Call.connect is_negative _ _ _ at_exit at_next))
