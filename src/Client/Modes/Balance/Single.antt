-- ===== src/Client/Modes/Balance/Single.antt =====
-- What `run_interactive_mode` of client.c holds when it ends.
use world_boss_raid.Base.{
  ℕ, suc, ◌≡◌, refl, ◌⊎◌, inl, inr, ap, ◌∙◌, if◌then◌else◌, Bool, true, false, Option, none, some,
  List, ℤ,
}
use Prim.Native.String.{String}
use world_boss_raid.Net.{Os}
use world_boss_raid.Resources.{
  Call, Held, World, held_nothing, tell, first_readable-held, held_elim, if_elim,
}
use world_boss_raid.Tls.{
  VerifyMode, tls_init_openssl, tls_cleanup_openssl, tls_cleanup_context, tls_free_ssl,
  tls_shutdown, tls_create_client_context, tls_client_handshake,
}
use world_boss_raid.Tls.Balance.{
  HeldIfMade, tls_create_client_context-HeldIfMade, tls_handshakes-HeldSession,
}
use world_boss_raid.Client.Packets.{Link}
use world_boss_raid.Client.Ui.{Key}
use world_boss_raid.Client.Modes.{
  Ending, returned, exited, initscr, endwin, close_all, get_ca_cert_path, verify_if,
}
use world_boss_raid.Client.Modes.Single.{
  cleanup_single, play_single, verified_single, greeted_single, secure_single, connect_single,
  run_interactive_mode,
}
use world_boss_raid.Client.Modes.Balance.{
  holding_context, connected, greeted, verify_if-held, connect_to_server_elim,
}

abbrev pub left_unentered : Held
left_unentered = record held_nothing { strays = 1 }

-- A mode that returns holds nothing, but may have left the screen one time without having it if it
-- failed; the exit in connect_to_server leaves the context.
unfoldable pub EndsTidied : {Env : Type 0} → Ending Env → Type 0
EndsTidied (returned true w) = w.held ≡ held_nothing
EndsTidied (returned false w) = (w.held ≡ held_nothing) ⊎ (w.held ≡ left_unentered)
EndsTidied (exited w) = w.held ≡ holding_context

module _ {Env : Type 0} where
  returned-EndsTidied :
      (b : Bool) (w : World Env) → w.held ≡ held_nothing → EndsTidied (returned b w)
  unfolding EndsTidied
  returned-EndsTidied true w e = e
  returned-EndsTidied false w e = inl e

  failed-EndsTidied : (w : World Env) → w.held ≡ left_unentered → EndsTidied (returned false w)
  unfolding EndsTidied
  failed-EndsTidied w e = inr e

  exited-EndsTidied : (e : Env) → EndsTidied (exited (record { env = e; held = holding_context }))
  unfolding EndsTidied
  exited-EndsTidied e = refl

module _ (os : Os) (fuel : ℕ) where
  open os use {Env}

  module _ (ask : Call → Link Env → ℤ × Link Env) (getnstr : ℕ → Link Env → List ℕ × Link Env)
      (rand : Link Env → ℕ × Link Env) (keys : List Key) where
    play_single-EndsTidied :
        (c : Link Env)
        → EndsTidied
            (play_single os fuel ask getnstr rand keys (record { env = c; held = greeted }))
    unfolding play_single initscr endwin close_all tls_cleanup_openssl tls_cleanup_context
        tls_free_ssl tls_shutdown tell cleanup_single
    play_single-EndsTidied c =
        if_elim EndsTidied _ _ _ (returned-EndsTidied _ _ refl) (returned-EndsTidied _ _ refl)

    verified_single-EndsTidied :
        (b : Bool) (c : Link Env)
        → EndsTidied
            (verified_single os fuel ask getnstr rand keys (b, record { env = c; held = greeted }))
    unfolding verified_single close_all tls_cleanup_openssl tls_cleanup_context tls_free_ssl
        tls_shutdown tell cleanup_single endwin
    verified_single-EndsTidied false c = failed-EndsTidied _ refl
    verified_single-EndsTidied true c = play_single-EndsTidied c

    greeted_single-EndsTidied :
        (ca : Option String) (b : Bool) (c : Link Env)
        → EndsTidied (
            greeted_single os fuel ask getnstr rand keys ca
              (b, record { env = c; held = if b then greeted else connected }))
    unfolding greeted_single close_all tls_cleanup_openssl tls_cleanup_context tls_free_ssl
        tls_shutdown tell cleanup_single endwin
    greeted_single-EndsTidied ca false c = failed-EndsTidied _ refl
    greeted_single-EndsTidied ca true c =
        held_elim
          (λ (r : Bool × World (Link Env)).
            EndsTidied (verified_single os fuel ask getnstr rand keys r))
          (verify_if ask ca w) greeted (verify_if-held ask ca w)
          (verified_single-EndsTidied (verify_if ask ca w).0)
      where
        w : World (Link Env)
        w = record { env = c; held = greeted }

    secure_single-EndsTidied :
        (ca : Option String) (c : Link Env)
        → EndsTidied
            (secure_single os fuel ask getnstr rand keys ca (record { env = c; held = connected }))
    unfolding secure_single
    secure_single-EndsTidied ca c =
        held_elim
          (λ (r : Bool × World (Link Env)).
            EndsTidied (greeted_single os fuel ask getnstr rand keys ca r))
          (tls_client_handshake ask true w) _ (tls_handshakes-HeldSession ask true w).1
          (greeted_single-EndsTidied ca (tls_client_handshake ask true w).0)
      where
        w : World (Link Env)
        w = record { env = c; held = connected }

    connect_single-EndsTidied :
        (ca : Option String) (w : World (Link Env)) (r : Option VerifyMode × World (Link Env))
        → w.held ≡ record held_nothing { library = true }
        → HeldIfMade ask w r
        → EndsTidied (connect_single os fuel ask getnstr rand keys ca r)
    unfolding connect_single cleanup_single initscr endwin close_all tls_cleanup_openssl
        tls_cleanup_context tls_free_ssl tls_shutdown tell
    connect_single-EndsTidied ca w (none, w1) e made =
        held_elim
          (λ (r : Option VerifyMode × World (Link Env)).
            EndsTidied (connect_single os fuel ask getnstr rand keys ca (none, r.1)))
          (none, w1) (record held_nothing { library = true }) (made ∙ e)
          (λ c. failed-EndsTidied _ refl)
    connect_single-EndsTidied ca w (some mode, w1) e made =
        held_elim
          (λ (r : Option VerifyMode × World (Link Env)).
            EndsTidied (connect_single os fuel ask getnstr rand keys ca (some mode, r.1)))
          (some mode, w1) holding_context
          (made ∙ ap (λ (h : Held). record h { contexts = suc h.contexts }) e)
          (λ c.
            connect_to_server_elim ask EndsTidied c (secure_single os fuel ask getnstr rand keys ca)
              exited-EndsTidied (secure_single-EndsTidied ca))

    -- The mode of one thread, from a process that holds nothing, whatever the libraries and the server
    -- answer: when it succeeds it holds nothing and gave nothing back twice; when it fails it holds
    -- nothing and may have called endwin once without a screen; where connect_to_server ends the
    -- process, the context is held and nothing else.
    pub run_interactive_mode-EndsTidied :
        (c : Link Env)
        → EndsTidied (
            run_interactive_mode os fuel ask getnstr rand keys
              (record { env = c; held = held_nothing }))
    unfolding run_interactive_mode get_ca_cert_path tls_init_openssl
    run_interactive_mode-EndsTidied c =
        connect_single-EndsTidied found.0 found.1 (tls_create_client_context ask found.0 found.1)
          (first_readable-held ask _ started)
          (tls_create_client_context-HeldIfMade ask found.0 found.1)
      where
        started : World (Link Env)
        started = tls_init_openssl (record { env = c; held = held_nothing })

        found : Option String × World (Link Env)
        found = get_ca_cert_path ask started
