-- ===== src/Server.antt =====
-- src/server/server.c, and of logic/gamestate.c what makes and unmakes the shared memory. The log goes
-- to stderr there, so that log_cleanup has nothing to close.
pub mod Startup
pub mod Serving
pub mod Reaping
use world_boss_raid.Base.{
  ℕ, zero, suc, Bool, true, false, not, Option, none, some, List, [], ◌∷◌, ℤ, if◌then◌else◌, ◌||◌,
  eqb_ℤ,
}
use Prim.Native.String.{String}
use world_boss_raid.Protocol.{GamePacket}
use world_boss_raid.GameState.{GameSharedData, gamestate_init}
use world_boss_raid.Net.{Os}
use world_boss_raid.Resources.{
  Call, World, now_held, is_null, is_negative, is_minus_one, hold_socket, hold_file, hold_mapping,
  close_socket, close_file, stray, attempt,
}
use world_boss_raid.Tls.{
  tls_init_openssl, tls_create_server_context, tls_server_handshake, tls_shutdown, tls_free_ssl,
}
use world_boss_raid.Handler.Session.{Worker, Turn, handle_client}

-- `cert_paths` and `key_paths`, entry by entry.
abbrev pub certificate_paths : List (String × String)
certificate_paths =
    ("certs/server/server.crt", "certs/server/server.key")
    ∷ ("../../certs/server/server.crt", "../../certs/server/server.key")
    ∷ ("../../../certs/server/server.crt", "../../../certs/server/server.key")
    ∷ []

abbrev pub first_paths : String × String
first_paths = ("../certs/server/server.crt", "../certs/server/server.key")

-- How the start ends: in the loop of `main`, with the listening socket and the shared memory, or in
-- exit(EXIT_FAILURE).
pub data Start (Env : Type 0) : Type 0 where
  serving : ℤ → GameSharedData → World Env → Start Env
  gave_up : World Env → Start Env

-- A process with the numbers of the sockets that it has open, the newest first.
pub record Opened (Env : Type 0) : Type 0 where
  pub world : World Env
  pub descriptors : List ℤ

abbrev pub is_among : ℤ → List ℤ → Bool
is_among fd [] = false
is_among fd (other ∷ others) = eqb_ℤ fd other || is_among fd others

abbrev pub without : ℤ → List ℤ → List ℤ
without fd [] = []
without fd (other ∷ others) = if eqb_ℤ fd other then others else other ∷ without fd others

module _ {Env : Type 0} where
  -- `close` of a number that may be -1.
  abbrev pub close_fd : ℤ → World Env → World Env
  close_fd fd w = if is_negative fd then stray w else close_socket w

  -- `close` of a descriptor.
  unfoldable pub close_descriptor : ℤ → Opened Env → Opened Env
  close_descriptor fd p =
      if is_among fd p.descriptors
      then record { world = close_socket p.world; descriptors = without fd p.descriptors }
      else record p { world = stray p.world }

  -- `shm` is NULL where no memory is mapped.
  unfoldable pub gamestate_destroy : World Env → World Env
  gamestate_destroy w = elim w.held.mappings [
    | zero ↦ w
    | suc n ↦ now_held (record (w.held) { mappings = n }) w
  ]

  unfoldable pub sigquit_handler : World Env → World Env
  sigquit_handler w = gamestate_destroy w

module _ {Env : Type 0} (ask : Call → Env → ℤ × Env) where
  -- The loop over the paths.
  unfoldable pub first_certificate :
      List (String × String) → World Env → Option (String × String) × World Env
  first_certificate [] w = (none, w)
  first_certificate (paths ∷ others) w =
      attempt ask (Call.fopen paths.0) is_null w (first_certificate others)
        (λ w1. (some paths, close_file (hold_file w1)))

  unfoldable pub certificate_files : World Env → (String × String) × World Env
  certificate_files w =
      let (found, w1) = first_certificate (first_paths ∷ certificate_paths) w in
      (elim found [ none ↦ first_paths | some paths ↦ paths ], w1)

  -- From setsockopt on. Where bind fails the socket is not closed.
  unfoldable pub start_listening : GameSharedData → ℤ → World Env → Start Env
  start_listening game fd w =
      attempt ask (Call.setsockopt fd) is_negative w (λ w1. gave_up (close_fd fd w1))
        (λ w1. attempt ask (Call.bind fd) is_negative w1 gave_up (λ w2.
          attempt ask (Call.listen fd) is_negative w2 (λ w3. gave_up (close_fd fd w3))
            (serving fd game)))

  -- The result of socket is compared with 0, and -1 passes.
  unfoldable pub open_socket : GameSharedData → World Env → Start Env
  open_socket game w =
      let (fd, e) = ask Call.socket w.env in
      let w1 : World Env = record w { env = e } in
      if is_null fd
      then gave_up (hold_socket w1)
      else start_listening game fd (if is_negative fd then w1 else hold_socket w1)

  unfoldable pub install_handlers : (World Env → Start Env) → World Env → Start Env
  install_handlers go_on w = attempt ask Call.sigaction_chld is_minus_one w gave_up (λ w1.
      attempt ask Call.sigaction_quit is_minus_one w1 gave_up
        (λ w2. attempt ask Call.sigaction_int is_minus_one w2 gave_up go_on))

  -- `gamestate_init`, whose errors end the process.
  unfoldable pub share_memory : (GameSharedData → World Env → Start Env) → World Env → Start Env
  share_memory go_on w = attempt ask Call.mmap is_minus_one w gave_up (λ w1.
      attempt ask Call.pthread_mutex_init (λ code. not (is_null code)) (hold_mapping w1) gave_up
        (go_on gamestate_init))

  unfoldable pub context_made : Bool × World Env → Start Env
  context_made (false, w) = gave_up w
  context_made (true, w) = share_memory (λ game. install_handlers (open_socket game)) w

  -- `main` up to its loop.
  unfoldable pub server_start : World Env → Start Env
  server_start w =
      let (files, w1) = certificate_files (tls_init_openssl w) in
      context_made (tls_create_server_context ask files.0 files.1 w1)

  -- A round after accept: in the child the listening socket is closed, in the parent the new one.
  unfoldable pub fork_round : ℤ → ℤ → Opened Env → Option (ℤ × Opened Env) × Opened Env
  fork_round server_fd new_socket p =
      attempt ask Call.fork is_negative p.world
        (λ w. (none, close_descriptor new_socket (record p { world = w })))
        (λ w. (
          some (new_socket, close_descriptor server_fd (record p { world = w })),
          close_descriptor new_socket (record p { world = w }),
        ))

  -- A round of the loop: the worker that it forks, as its process starts with the new socket, and the
  -- master.
  unfoldable pub accept_round : ℤ → Opened Env → Option (ℤ × Opened Env) × Opened Env
  accept_round server_fd p =
      let (new_socket, e) = ask Call.accept p.world.env in
      let answered : World Env = record (p.world) { env = e } in
      if is_negative new_socket
      then (none, record p { world = answered })
      else fork_round server_fd new_socket
          (record { world = hold_socket answered; descriptors = new_socket ∷ p.descriptors })

  -- The workers of so many rounds, in their order.
  unfoldable pub master_loop : ℕ → ℤ → Opened Env → List (ℤ × Opened Env) × Opened Env
  master_loop zero server_fd p = ([], p)
  master_loop (suc n) server_fd p =
      let (forked, p1) = accept_round server_fd p in
      let (later, p2) = master_loop n server_fd p1 in
      (elim forked [ none ↦ later | some worker ↦ worker ∷ later ], p2)

-- The calls of a worker, with the account beside the environment: `cleanup_client` calls tls_shutdown and
-- tls_free_ssl.
abbrev pub with_account : (os : Os) → (Call → os.Env → ℤ × os.Env) → Os
with_account os ask = record {
  Env = World os.Env;
  rand = λ w. let (x, e) = os.rand w.env in (x, record w { env = e });
  time = λ w. os.time w.env;
  ssl_get_fd = λ w. os.ssl_get_fd w.env;
  select = λ t w. let (r, e) = os.select t w.env in (r, record w { env = e });
  ssl_read = λ n w. let (r, e) = os.ssl_read n w.env in (r, record w { env = e });
  ssl_write = λ bs w. let (n, e) = os.ssl_write bs w.env in (n, record w { env = e });
  ssl_close = λ w. tls_free_ssl true (tls_shutdown ask true w);
}

-- How the process of a worker goes on: it exits after a failed handshake, or it has handled its client.
pub data Process (Env : Type 0) : Type 0 where
  refused : World Env → Process Env
  served : Turn (Worker (World Env)) → Process Env

module _ (os : Os) where
  open os use {Env}

  module _ (ask : Call → Env → ℤ × Env) (rounds fuel : ℕ) (garbage : GamePacket) where
    unfoldable pub greeted_process : GameSharedData → Bool × World Env → Process Env
    greeted_process game (false, w) = refused (close_socket w)
    greeted_process game (true, w) =
        served (handle_client (with_account os ask) rounds fuel garbage game w)

    -- The process after the fork.
    unfoldable pub worker_process : GameSharedData → World Env → Process Env
    worker_process game w = greeted_process game (tls_server_handshake ask true w)
