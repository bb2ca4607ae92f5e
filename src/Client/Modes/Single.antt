-- ===== src/Client/Modes/Single.antt =====
-- `run_interactive_mode` of src/client/client.c: one thread.
use world_boss_raid.Base.{
  ℕ, Bool, true, false, Option, none, some, List, ℤ, pos, negsuc, ltb_ℤ, leb_ℤ, if◌then◌else◌,
}
use Prim.Native.String.{String}
use world_boss_raid.GameState.{no_name}
use world_boss_raid.Net.{Os, done, broken, starved}
use world_boss_raid.Resources.{Call, World}
use world_boss_raid.Tls.{
  VerifyMode, tls_init_openssl, tls_create_client_context, tls_client_handshake,
}
use world_boss_raid.Client.Packets.{
  Link, send_join_and_wait_resp, net_attack_and_get_state, net_heartbeat_get_state,
}
use world_boss_raid.Client.Network.{UiGameState, copy_common, copy_attack, clear_attack}
use world_boss_raid.Client.Login.{ui_login_get_player_name}
use world_boss_raid.Client.Ui.{Key, ui_game_loop}
use world_boss_raid.Client.Threads.{blank_state}
use world_boss_raid.Client.Modes.{
  Ending, returned, Handles, initscr, endwin, close_all, id_of_join, get_ca_cert_path,
  connect_to_server, verify_if,
}

-- The label `cleanup`.
unfoldable pub cleanup_single :
    {Env : Type 0} (ask : Call → Env → ℤ × Env) → Handles → ℤ → World Env → Ending Env
cleanup_single ask h player_id w = returned (leb_ℤ (pos 0) player_id) (close_all ask h (endwin w))

module _ (os : Os) (fuel : ℕ) where
  open os use {Env}

  -- What the callback writes over the caller's state; that state is on the stack, here blank.
  unfoldable pub attack_cb_single : Link Env → Option UiGameState × Link Env
  attack_cb_single c =
      let (r, c1) = net_attack_and_get_state os fuel c in
      (elim r [ done s ↦ some (copy_attack s blank_state) | broken ↦ none | starved ↦ none ], c1)

  -- This callback does not pass on a lucky kill.
  unfoldable pub heartbeat_cb_single : Link Env → Option UiGameState × Link Env
  heartbeat_cb_single c =
      let (r, c1) = net_heartbeat_get_state os fuel c in
      (
        elim r [
          | done s ↦ some (record (clear_attack (copy_common s blank_state)) { is_lucky = 0 })
          | broken ↦ none
          | starved ↦ none
        ],
        c1,
      )

  module _ (ask : Call → Link Env → ℤ × Link Env) (getnstr : ℕ → Link Env → List ℕ × Link Env)
      (rand : Link Env → ℕ × Link Env) (keys : List Key) where
    -- Steps 5 to 7: the login, the join and the loop of the UI.
    unfoldable pub play_single : World (Link Env) → Ending (Link Env)
    play_single w =
        let h : Handles = record { ctx = true; sock = true; ssl = true } in
        let w1 = initscr w in
        let (names, c1) = ui_login_get_player_name getnstr no_name 32 w1.env in
        let (r, c2) = send_join_and_wait_resp os fuel names.1 c1 in
        let (ui, over) = ui_game_loop rand attack_cb_single heartbeat_cb_single names.1 keys c2 in
        let player_id = id_of_join r in
        if ltb_ℤ player_id (pos 0)
        then cleanup_single ask h player_id (record w1 { env = c2 })
        else cleanup_single ask h player_id (record w1 { env = ui.world })

    -- What follows the verification, and what follows the handshake.
    unfoldable pub verified_single : Bool × World (Link Env) → Ending (Link Env)
    verified_single (false, w) =
        cleanup_single ask (record { ctx = true; sock = true; ssl = true }) (negsuc 0) w
    verified_single (true, w) = play_single w

    unfoldable pub greeted_single : Option String → Bool × World (Link Env) → Ending (Link Env)
    greeted_single ca (false, w) =
        cleanup_single ask (record { ctx = true; sock = true; ssl = false }) (negsuc 0) w
    greeted_single ca (true, w) = verified_single (verify_if ask ca w)

    -- Steps 3 and 4: the handshake and the verification.
    unfoldable pub secure_single : Option String → World (Link Env) → Ending (Link Env)
    secure_single ca w = greeted_single ca (tls_client_handshake ask true w)

    -- Step 2 follows a context that has been made.
    unfoldable pub connect_single :
        Option String → Option VerifyMode × World (Link Env) → Ending (Link Env)
    connect_single ca (none, w) =
        cleanup_single ask (record { ctx = false; sock = false; ssl = false }) (negsuc 0) w
    connect_single ca (some mode, w) = connect_to_server ask w (secure_single ca)

    unfoldable pub run_interactive_mode : World (Link Env) → Ending (Link Env)
    run_interactive_mode w =
        let (ca, w1) = get_ca_cert_path ask (tls_init_openssl w) in
        connect_single ca (tls_create_client_context ask ca w1)
