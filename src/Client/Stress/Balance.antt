-- ===== src/Client/Stress/Balance.antt =====
-- What a thread of the stress mode of client.c holds when it ends.
use world_boss_raid.Base.{ℕ, ◌≡◌, refl, ◌∙◌, if◌then◌else◌, Bool, true, false, Option, ℤ}
use Prim.Native.String.{String}
use world_boss_raid.Net.{Os}
use world_boss_raid.Resources.{Call, Held, World, tell, first_readable-held, held_elim}
use world_boss_raid.Tls.{tls_free_ssl, tls_shutdown, tls_client_handshake}
use world_boss_raid.Tls.Balance.{tls_handshakes-HeldSession}
use world_boss_raid.Client.Packets.{Link}
use world_boss_raid.Client.Modes.{Ending, returned, exited, get_ca_cert_path, verify_if}
use world_boss_raid.Client.Stress.{
  close_worker, verified_worker, greeted_worker, stress_worker_thread,
}
use world_boss_raid.Client.Modes.Balance.{
  holding_context, connected, greeted, verify_if-held, connect_to_server_elim,
}

-- What is held where something returns, and the context alone where the process exits.
unfoldable pub EndsWith : {Env : Type 0} → Held → Ending Env → Type 0
EndsWith h (returned _ w) = w.held ≡ h
EndsWith h (exited w) = w.held ≡ holding_context

module _ {Env : Type 0} where
  returned-EndsWith : (h : Held) (b : Bool) (w : World Env) → w.held ≡ h → EndsWith h (returned b w)
  unfolding EndsWith
  returned-EndsWith h b w e = e

  exited-EndsWith : (h : Held) (w : World Env) → w.held ≡ holding_context → EndsWith h (exited w)
  unfolding EndsWith
  exited-EndsWith h w e = e

module _ (os : Os) where
  open os use {Env}

  module _ (ask : Call → Link Env → ℤ × Link Env) (fuel : ℕ) where
    verified_worker-EndsWith :
        (id : ℕ) (b : Bool) (c : Link Env)
        → EndsWith holding_context
            (verified_worker os ask fuel id (b, record { env = c; held = greeted }))
    unfolding verified_worker close_worker tls_free_ssl tls_shutdown tell
    verified_worker-EndsWith id false c = returned-EndsWith _ _ _ refl
    verified_worker-EndsWith id true c = returned-EndsWith _ _ _ refl

    greeted_worker-EndsWith :
        (id : ℕ) (b : Bool) (c : Link Env)
        → EndsWith holding_context (
            greeted_worker os ask fuel id
              (b, record { env = c; held = if b then greeted else connected }))
    unfolding greeted_worker close_worker tls_free_ssl tls_shutdown get_ca_cert_path
    greeted_worker-EndsWith id false c = returned-EndsWith _ _ _ refl
    greeted_worker-EndsWith id true c =
        held_elim
          (λ (r : Bool × World (Link Env)).
            EndsWith holding_context (verified_worker os ask fuel id r))
          (verify_if ask found.0 found.1) greeted
          (verify_if-held ask found.0 found.1 ∙ first_readable-held ask _ w)
          (verified_worker-EndsWith id (verify_if ask found.0 found.1).0)
      where
        w : World (Link Env)
        w = record { env = c; held = greeted }

        found : Option String × World (Link Env)
        found = get_ca_cert_path ask w

    -- A thread of the stress mode by itself, in a process that holds the context and nothing else,
    -- whatever the libraries and the server answer: when it returns, after any error as well, the
    -- process holds the context and nothing else, so that the thread has closed its socket and its
    -- session and gave nothing back twice; where connect_to_server ends the process, the thread
    -- has no socket and no session open.
    pub stress_worker_thread-EndsWith :
        (id : ℕ) (c : Link Env)
        → EndsWith holding_context
            (stress_worker_thread os ask fuel id (record { env = c; held = holding_context }))
    unfolding stress_worker_thread
    stress_worker_thread-EndsWith id c =
        connect_to_server_elim ask (EndsWith holding_context) c _ (λ e. exited-EndsWith _ _ refl)
          (λ e.
            held_elim
              (λ (r : Bool × World (Link Env)).
                EndsWith holding_context (greeted_worker os ask fuel id r))
              (tls_client_handshake ask true (record { env = e; held = connected })) _
              (tls_handshakes-HeldSession ask true (record { env = e; held = connected })).1
              (greeted_worker-EndsWith id
                (tls_client_handshake ask true (record { env = e; held = connected })).0))
