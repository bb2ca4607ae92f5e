-- ===== src/Client/Modes/Threaded.antt =====
-- `run_interactive_mode_threaded` of src/client/client.c. Here the network thread runs whole rounds,
-- as many as a schedule says, whenever the UI thread waits for it or looks at its state; the finer
-- interleavings are in the module Client.Threads.
use world_boss_raid.Base.{
  ℕ, Bool, true, false, not, Option, none, some, List, [], ◌∷◌, ℤ, pos, ltb_ℤ, if◌then◌else◌,
}
use Prim.Native.String.{String}
use world_boss_raid.GameState.{no_name}
use world_boss_raid.Net.{Os}
use world_boss_raid.Resources.{Call, World, is_null, attempt}
use world_boss_raid.Tls.{
  VerifyMode, tls_init_openssl, tls_create_client_context, tls_client_handshake,
}
use world_boss_raid.Client.Packets.{Link, send_join_and_wait_resp, net_heartbeat_get_state}
use world_boss_raid.Client.Network.{
  UiGameState, SharedGameState, network_started, attack_request, still_waiting, attack_finish,
  heartbeat_cb,
}
use world_boss_raid.Client.Network.Errors.{network_rounds}
use world_boss_raid.Client.Login.{ui_login_get_player_name}
use world_boss_raid.Client.Ui.{Key, ui_game_loop}
use world_boss_raid.Client.Threads.{shared_init}
use world_boss_raid.Client.Modes.{
  Ending, returned, Handles, initscr, endwin, close_all, id_of_join, get_ca_cert_path,
  connect_to_server, verify_if,
}

-- The state that both threads use, the connection, and the rounds at the next visits of the UI thread.
pub record Meeting (Env : Type 0) : Type 0 where
  pub shared : SharedGameState
  pub link : Link Env
  pub visits : List ℕ

module _ (os : Os) (fuel : ℕ) where
  open os use {Env}

  unfoldable pub run_rounds : Meeting Env → Meeting Env
  run_rounds m = elim m.visits [
    | [] ↦ m
    | n ∷ later ↦
        let (shared, link) = network_rounds os n fuel (m.shared, m.link) in
        record { shared = shared; link = link; visits = later }
  ]

  -- A wait that is not over after the rounds ends by its timeout of five seconds.
  unfoldable pub attack_cb_impl : Meeting Env → Option UiGameState × Meeting Env
  attack_cb_impl m =
      let m1 = run_rounds (record m { shared = attack_request m.shared }) in
      if still_waiting m1.shared
      then (none, m1)
      else (let (answer, shared) = attack_finish m1.shared in
          (answer, record m1 { shared = shared }))

  unfoldable pub heartbeat_cb_impl : Meeting Env → Option UiGameState × Meeting Env
  heartbeat_cb_impl m =
      let m1 = run_rounds m in
      let (state, shared) = heartbeat_cb m1.shared in (some state, record m1 { shared = shared })

  module _ (ask : Call → Link Env → ℤ × Link Env) (getnstr : ℕ → Link Env → List ℕ × Link Env)
      (rand : Meeting Env → ℕ × Meeting Env) (keys : List Key) (visits : List ℕ) where
    -- Step 8 and the thread's first heartbeat, up to the join of the thread, with the rounds that the
    -- thread makes between the UI's last look and the request to exit.
    unfoldable pub play_rounds : List ℕ → Link Env → Link Env
    play_rounds username c =
        let (r, c1) = net_heartbeat_get_state os fuel c in
        let m : Meeting Env = record {
          shared = network_started r shared_init;
          link = c1;
          visits = visits;
        } in
        (run_rounds
          (ui_game_loop rand attack_cb_impl heartbeat_cb_impl username keys m).0.world).link

    -- Steps 5 to 10, with the labels `cleanup_ncurses` and those behind it.
    unfoldable pub play_threaded : World (Link Env) → Ending (Link Env)
    play_threaded w =
        let h : Handles = record { ctx = true; sock = true; ssl = true } in
        let w1 = initscr w in
        let (names, c1) = ui_login_get_player_name getnstr no_name 32 w1.env in
        let (r, c2) = send_join_and_wait_resp os fuel names.1 c1 in
        let w2 : World (Link Env) = record w1 { env = c2 } in
        if ltb_ℤ (id_of_join r) (pos 0)
        then returned false (close_all ask h (endwin w2))
        else attempt ask Call.pthread_create (λ code. not (is_null code)) w2
            (λ w3. returned false (close_all ask h (endwin w3)))
            (λ w3.
              returned true
                (close_all ask h (endwin (record w3 { env = play_rounds names.1 w3.env }))))

    -- What follows the verification, and what follows the handshake.
    unfoldable pub verified_threaded : Bool × World (Link Env) → Ending (Link Env)
    verified_threaded (false, w) =
        returned false (close_all ask (record { ctx = true; sock = true; ssl = true }) w)
    verified_threaded (true, w) = play_threaded w

    unfoldable pub greeted_threaded : Option String → Bool × World (Link Env) → Ending (Link Env)
    greeted_threaded ca (false, w) =
        returned false (close_all ask (record { ctx = true; sock = true; ssl = false }) w)
    greeted_threaded ca (true, w) = verified_threaded (verify_if ask ca w)

    -- Steps 3 and 4: the handshake and the verification.
    unfoldable pub secure_threaded : Option String → World (Link Env) → Ending (Link Env)
    secure_threaded ca w = greeted_threaded ca (tls_client_handshake ask true w)

    -- Without a context the cleanup of OpenSSL is passed over.
    unfoldable pub connect_threaded :
        Option String → Option VerifyMode × World (Link Env) → Ending (Link Env)
    connect_threaded ca (none, w) = returned false w
    connect_threaded ca (some mode, w) = connect_to_server ask w (secure_threaded ca)

    unfoldable pub run_interactive_mode_threaded : World (Link Env) → Ending (Link Env)
    run_interactive_mode_threaded w =
        let (ca, w1) = get_ca_cert_path ask (tls_init_openssl w) in
        connect_threaded ca (tls_create_client_context ask ca w1)
