-- ===== src/Server/Startup.antt =====
-- What the server's process holds when its start is over.
use world_boss_raid.Base.{
  ℕ, suc, ◌≤◌, ◌≡◌, refl, ap, ◌∙◌, Bool, true, false, Option, List, [], ◌∷◌, ℤ, arith,
  if◌then◌else◌,
}
use Prim.Native.String.{String}
use world_boss_raid.GameState.{GameSharedData, gamestate_init}
use world_boss_raid.Resources.{
  Call, Held, World, held_nothing, is_null, is_negative, is_minus_one, hold_socket, attempt_failed,
  attempt_elim, held_elim, if_elim,
}
use world_boss_raid.Tls.{tls_init_openssl, tls_create_server_context}
use world_boss_raid.Tls.Balance.{tls_create_server_context-HeldContext}
use world_boss_raid.Server.{
  Start, serving, gave_up, first_certificate, certificate_files, first_paths, certificate_paths,
  start_listening, open_socket, install_handlers, share_memory, context_made, server_start,
  close_fd,
}

-- The server with its context, and then with its shared memory and its socket.
abbrev pub with_context : Held
with_context = record held_nothing { contexts = 1; library = true }

abbrev pub with_memory : Held
with_memory = record with_context { mappings = 1 }

abbrev pub in_service : Held
in_service = record with_memory { sockets = 1 }

-- Not more than one of each, and no open file.
pub record HeldAtMostOne (h : Held) : Type 0 where
  pub contexts : h.contexts ≤ 1
  pub sockets : h.sockets ≤ 1
  pub mappings : h.mappings ≤ 1
  pub files : h.files ≡ 0
  pub sessions : h.sessions ≡ 0

-- A server that serves has a socket, the context and the shared memory with the first boss in it, and
-- nothing else; one that gave up had at most one of each.
unfoldable pub StartsWell : {Env : Type 0} → Start Env → Type 0
StartsWell (serving fd game w) =
    (is_negative fd ≡ false) × (game ≡ gamestate_init) × (w.held ≡ in_service)
StartsWell (gave_up w) = HeldAtMostOne w.held

module _ {Env : Type 0} (ask : Call → Env → ℤ × Env) where
  first_certificate-held :
      (paths : List (String × String)) (w : World Env)
      → (first_certificate ask paths w).1.held ≡ w.held
  unfolding first_certificate
  first_certificate-held [] w = refl
  first_certificate-held (path ∷ paths) w =
      attempt_elim ask (λ (r : Option (String × String) × World Env). r.1.held ≡ w.held)
        (Call.fopen path.0) is_null w _ _ (λ e. first_certificate-held paths (record w { env = e }))
        (λ e. refl)

  certificate_files-held : (w : World Env) → (certificate_files ask w).1.held ≡ w.held
  unfolding certificate_files
  certificate_files-held w = first_certificate-held (first_paths ∷ certificate_paths) w

  within :
      (contexts sockets mappings strays : ℕ)
      → contexts ≤ 1
      → sockets ≤ 1
      → mappings ≤ 1
      → HeldAtMostOne (record held_nothing {
        library = true;
        contexts = contexts;
        sockets = sockets;
        mappings = mappings;
        strays = strays;
      })
  within contexts sockets mappings strays c s m = record {
    contexts = c;
    sockets = s;
    mappings = m;
    files = refl;
    sessions = refl;
  }

  at_most_one : HeldAtMostOne in_service
  at_most_one = within 1 1 1 0 (omega arith) (omega arith) (omega arith)

  without_socket : HeldAtMostOne with_memory
  without_socket = within 1 0 1 0 (omega arith) (omega arith) (omega arith)

  without_memory : HeldAtMostOne with_context
  without_memory = within 1 0 0 0 (omega arith) (omega arith) (omega arith)

  without_context : HeldAtMostOne (record held_nothing { library = true })
  without_context = within 0 0 0 0 (omega arith) (omega arith) (omega arith)

  stray_without_socket : HeldAtMostOne (record with_memory { strays = 1 })
  stray_without_socket = within 1 0 1 1 (omega arith) (omega arith) (omega arith)

  stray_in_service : HeldAtMostOne (record in_service { strays = 1 })
  stray_in_service = within 1 1 1 1 (omega arith) (omega arith) (omega arith)

  gave_up-StartsWell :
      (h : Held) → HeldAtMostOne h → (e : Env) → StartsWell (gave_up (record { env = e; held = h }))
  unfolding StartsWell
  gave_up-StartsWell h a e = a

  in_service-StartsWell :
      (fd : ℤ)
      → is_negative fd ≡ false
      → (e : Env) → StartsWell (serving fd gamestate_init (record { env = e; held = in_service }))
  unfolding StartsWell
  in_service-StartsWell fd v e = (v, refl, refl)

  closed-StartsWell :
      (fd : ℤ) (e : Env)
      → StartsWell (gave_up (close_fd fd (record { env = e; held = in_service })))
  closed-StartsWell fd e =
      if_elim (λ (w : World Env). StartsWell (gave_up w)) (is_negative fd) _ _
        (gave_up-StartsWell _ stray_in_service e) (gave_up-StartsWell with_memory without_socket e)

  start_listening-StartsWell :
      (fd : ℤ)
      → is_negative fd ≡ false
      → (e : Env)
      → StartsWell (start_listening ask gamestate_init fd (record { env = e; held = in_service }))
  unfolding start_listening
  start_listening-StartsWell fd v e =
      attempt_elim ask StartsWell (Call.setsockopt fd) is_negative _ _ _ (closed-StartsWell fd)
        (λ e1.
          attempt_elim ask StartsWell (Call.bind fd) is_negative _ _ _
            (gave_up-StartsWell in_service at_most_one)
            (λ e2.
              attempt_elim ask StartsWell (Call.listen fd) is_negative _ _ _ (closed-StartsWell fd)
                (in_service-StartsWell fd v)))

  open_socket-StartsWell :
      ((fd : ℤ) (e : Env)
        → is_negative fd ≡ true
        → is_negative (ask (Call.setsockopt fd) e).0 ≡ true)
      → (e : Env)
      → StartsWell (open_socket ask gamestate_init (record { env = e; held = with_memory }))
  unfolding open_socket start_listening
  open_socket-StartsWell bad e = go (is_null fd) (is_negative fd) refl
    where
      fd : ℤ
      fd = (ask Call.socket e).0

      w1 : World Env
      w1 = record { env = (ask Call.socket e).1; held = with_memory }

      go :
          (null negative : Bool)
          → is_negative fd ≡ negative
          → StartsWell (
              if null
              then gave_up (hold_socket w1)
              else start_listening ask gamestate_init fd (if negative then w1 else hold_socket w1))
      go true negative v = gave_up-StartsWell _ at_most_one _
      go false false v = start_listening-StartsWell fd v _
      go false true v =
          attempt_failed ask StartsWell (Call.setsockopt fd) is_negative _ _ _ (bad fd _ v) (
            if_elim (λ (w : World Env). StartsWell (gave_up w)) (is_negative fd) _ _
              (gave_up-StartsWell _ stray_without_socket _)
              (gave_up-StartsWell _ stray_without_socket _))

  install_handlers-StartsWell :
      (go_on : World Env → Start Env) (e : Env)
      → ((e1 : Env) → StartsWell (go_on (record { env = e1; held = with_memory })))
      → StartsWell (install_handlers ask go_on (record { env = e; held = with_memory }))
  unfolding install_handlers
  install_handlers-StartsWell go_on e next =
      attempt_elim ask StartsWell Call.sigaction_chld is_minus_one _ _ _
        (gave_up-StartsWell with_memory without_socket)
        (λ e1.
          attempt_elim ask StartsWell Call.sigaction_quit is_minus_one _ _ _
            (gave_up-StartsWell with_memory without_socket)
            (λ e2.
              attempt_elim ask StartsWell Call.sigaction_int is_minus_one _ _ _
                (gave_up-StartsWell with_memory without_socket) next))

  share_memory-StartsWell :
      (go_on : GameSharedData → World Env → Start Env) (e : Env)
      → ((e1 : Env) → StartsWell (go_on gamestate_init (record { env = e1; held = with_memory })))
      → StartsWell (share_memory ask go_on (record { env = e; held = with_context }))
  unfolding share_memory
  share_memory-StartsWell go_on e next =
      attempt_elim ask StartsWell Call.mmap is_minus_one _ _ _
        (gave_up-StartsWell with_context without_memory)
        (λ e1.
          attempt_elim ask StartsWell Call.pthread_mutex_init _ _ _ _
            (gave_up-StartsWell with_memory without_socket) next)

  context_made-StartsWell :
      ((fd : ℤ) (e : Env)
        → is_negative fd ≡ true
        → is_negative (ask (Call.setsockopt fd) e).0 ≡ true)
      → (b : Bool) (e : Env)
      → StartsWell (
          context_made ask (
            b,
            record {
              env = e;
              held = if b then with_context else record held_nothing { library = true };
            },
          ))
  unfolding context_made
  context_made-StartsWell bad false e = gave_up-StartsWell _ without_context e
  context_made-StartsWell bad true e =
      share_memory-StartsWell _ e
        (λ e1. install_handlers-StartsWell _ e1 (open_socket-StartsWell bad))

  -- If setsockopt fails on a negative descriptor, then the server's start, from a process that holds
  -- nothing and whatever else is answered, ends in one of two ways. In the loop of main it has a socket
  -- that is not negative, the first boss in the shared memory, and it holds the context, the memory and
  -- the socket and nothing else; where it gives up, it holds no file, no session and at most one of each
  -- of those.
  pub server_start-StartsWell :
      ((fd : ℤ) (e : Env)
        → is_negative fd ≡ true
        → is_negative (ask (Call.setsockopt fd) e).0 ≡ true)
      → (e : Env) → StartsWell (server_start ask (record { env = e; held = held_nothing }))
  unfolding server_start tls_init_openssl
  server_start-StartsWell bad e =
      held_elim (λ (r : Bool × World Env). StartsWell (context_made ask r))
        (tls_create_server_context ask found.0.0 found.0.1 found.1) _
        (made found.0.0 found.0.1 found.1 (certificate_files-held _))
        (context_made-StartsWell bad (tls_create_server_context ask found.0.0 found.0.1 found.1).0)
    where
      found : (String × String) × World Env
      found = certificate_files ask (tls_init_openssl (record { env = e; held = held_nothing }))

      made :
          (cert key : String) (w : World Env)
          → w.held ≡ record held_nothing { library = true }
          → (tls_create_server_context ask cert key w).1.held ≡ (
              if (tls_create_server_context ask cert key w).0
              then with_context
              else record held_nothing { library = true })
      made cert key w v =
          tls_create_server_context-HeldContext ask cert key w
          ∙ ap
              (λ (h : Held).
                if (tls_create_server_context ask cert key w).0
                then record h { contexts = suc h.contexts }
                else h)
              v
