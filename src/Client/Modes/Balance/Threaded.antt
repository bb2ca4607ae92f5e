-- ===== src/Client/Modes/Balance/Threaded.antt =====
-- What `run_interactive_mode_threaded` of client.c holds when it ends.
use world_boss_raid.Base.{
  ℕ, suc, ◌≡◌, refl, ap, ◌∙◌, if◌then◌else◌, Bool, true, false, Option, none, some, List, ℤ,
}
use Prim.Native.String.{String}
use world_boss_raid.Net.{Os}
use world_boss_raid.Resources.{
  Call, Held, World, held_nothing, tell, attempt_elim, first_readable-held, held_elim, if_elim,
}
use world_boss_raid.Tls.{
  VerifyMode, tls_init_openssl, tls_cleanup_openssl, tls_cleanup_context, tls_free_ssl,
  tls_shutdown, tls_create_client_context, tls_client_handshake,
}
use world_boss_raid.Tls.Balance.{
  HeldIfMade, tls_create_client_context-HeldIfMade, tls_handshakes-HeldSession,
}
use world_boss_raid.Client.Packets.{Link}
use world_boss_raid.Client.Ui.{Key}
use world_boss_raid.Client.Modes.{
  Ending, returned, exited, initscr, endwin, close_all, get_ca_cert_path, verify_if,
}
use world_boss_raid.Client.Modes.Threaded.{
  Meeting, play_threaded, verified_threaded, greeted_threaded, secure_threaded, connect_threaded,
  run_interactive_mode_threaded,
}
use world_boss_raid.Client.Modes.Balance.{
  holding_context, connected, greeted, verify_if-held, connect_to_server_elim,
}

-- A mode that returns holds nothing, but may have left OpenSSL initialised if it failed; the exit in
-- connect_to_server leaves the context.
unfoldable pub EndsClean : {Env : Type 0} → Ending Env → Type 0
EndsClean (returned true w) = w.held ≡ held_nothing
EndsClean (returned false w) = record (w.held) { library = false } ≡ held_nothing
EndsClean (exited w) = w.held ≡ holding_context

module _ {Env : Type 0} where
  returned-EndsClean : (b : Bool) (w : World Env) → w.held ≡ held_nothing → EndsClean (returned b w)
  unfolding EndsClean
  returned-EndsClean true w e = e
  returned-EndsClean false w e = ap (λ (h : Held). record h { library = false }) e

  failed-EndsClean :
      (w : World Env)
      → record (w.held) { library = false } ≡ held_nothing
      → EndsClean (returned false w)
  unfolding EndsClean
  failed-EndsClean w e = e

  exited-EndsClean : (e : Env) → EndsClean (exited (record { env = e; held = holding_context }))
  unfolding EndsClean
  exited-EndsClean e = refl

module _ (os : Os) (fuel : ℕ) where
  open os use {Env}

  module _ (ask : Call → Link Env → ℤ × Link Env) (getnstr : ℕ → Link Env → List ℕ × Link Env)
      (rand : Meeting Env → ℕ × Meeting Env) (keys : List Key) (visits : List ℕ) where
    play_threaded-EndsClean :
        (c : Link Env)
        → EndsClean (
            play_threaded os fuel ask getnstr rand keys visits (record { env = c; held = greeted }))
    unfolding play_threaded initscr endwin close_all tls_cleanup_openssl tls_cleanup_context
        tls_free_ssl tls_shutdown tell
    play_threaded-EndsClean c = if_elim EndsClean _ _ _ (returned-EndsClean _ _ refl) (
        attempt_elim ask EndsClean Call.pthread_create _ _ _ _ (λ e. returned-EndsClean _ _ refl)
          (λ e. returned-EndsClean _ _ refl))

    verified_threaded-EndsClean :
        (b : Bool) (c : Link Env)
        → EndsClean (
            verified_threaded os fuel ask getnstr rand keys visits
              (b, record { env = c; held = greeted }))
    unfolding verified_threaded close_all tls_cleanup_openssl tls_cleanup_context tls_free_ssl
        tls_shutdown tell
    verified_threaded-EndsClean false c = returned-EndsClean _ _ refl
    verified_threaded-EndsClean true c = play_threaded-EndsClean c

    greeted_threaded-EndsClean :
        (ca : Option String) (b : Bool) (c : Link Env)
        → EndsClean (
            greeted_threaded os fuel ask getnstr rand keys visits ca
              (b, record { env = c; held = if b then greeted else connected }))
    unfolding greeted_threaded close_all tls_cleanup_openssl tls_cleanup_context tls_free_ssl
        tls_shutdown tell
    greeted_threaded-EndsClean ca false c = returned-EndsClean _ _ refl
    greeted_threaded-EndsClean ca true c =
        held_elim
          (λ (r : Bool × World (Link Env)).
            EndsClean (verified_threaded os fuel ask getnstr rand keys visits r))
          (verify_if ask ca w) greeted (verify_if-held ask ca w)
          (verified_threaded-EndsClean (verify_if ask ca w).0)
      where
        w : World (Link Env)
        w = record { env = c; held = greeted }

    secure_threaded-EndsClean :
        (ca : Option String) (c : Link Env)
        → EndsClean (
            secure_threaded os fuel ask getnstr rand keys visits ca
              (record { env = c; held = connected }))
    unfolding secure_threaded
    secure_threaded-EndsClean ca c =
        held_elim
          (λ (r : Bool × World (Link Env)).
            EndsClean (greeted_threaded os fuel ask getnstr rand keys visits ca r))
          (tls_client_handshake ask true w) _ (tls_handshakes-HeldSession ask true w).1
          (greeted_threaded-EndsClean ca (tls_client_handshake ask true w).0)
      where
        w : World (Link Env)
        w = record { env = c; held = connected }

    connect_threaded-EndsClean :
        (ca : Option String) (w : World (Link Env)) (r : Option VerifyMode × World (Link Env))
        → w.held ≡ record held_nothing { library = true }
        → HeldIfMade ask w r
        → EndsClean (connect_threaded os fuel ask getnstr rand keys visits ca r)
    unfolding connect_threaded
    connect_threaded-EndsClean ca w (none, w1) e made =
        failed-EndsClean w1 (ap (λ (h : Held). record h { library = false }) (made ∙ e))
    connect_threaded-EndsClean ca w (some mode, w1) e made =
        held_elim
          (λ (r : Option VerifyMode × World (Link Env)).
            EndsClean (connect_threaded os fuel ask getnstr rand keys visits ca (some mode, r.1)))
          (some mode, w1) holding_context
          (made ∙ ap (λ (h : Held). record h { contexts = suc h.contexts }) e)
          (λ c.
            connect_to_server_elim ask EndsClean c
              (secure_threaded os fuel ask getnstr rand keys visits ca) exited-EndsClean
              (secure_threaded-EndsClean ca))

    -- The threaded mode, from a process that holds nothing, whatever the libraries and the server answer:
    -- when it succeeds it holds nothing and gave nothing back twice; when it fails the same holds, but
    -- that OpenSSL may be left initialised; where connect_to_server ends the process, the context is
    -- held and nothing else.
    pub run_interactive_mode_threaded-EndsClean :
        (c : Link Env)
        → EndsClean (
            run_interactive_mode_threaded os fuel ask getnstr rand keys visits
              (record { env = c; held = held_nothing }))
    unfolding run_interactive_mode_threaded get_ca_cert_path tls_init_openssl
    run_interactive_mode_threaded-EndsClean c =
        connect_threaded-EndsClean found.0 found.1 (tls_create_client_context ask found.0 found.1)
          (first_readable-held ask _ started)
          (tls_create_client_context-HeldIfMade ask found.0 found.1)
      where
        started : World (Link Env)
        started = tls_init_openssl (record { env = c; held = held_nothing })

        found : Option String × World (Link Env)
        found = get_ca_cert_path ask started
