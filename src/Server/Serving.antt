-- ===== src/Server/Serving.antt =====
-- What the master and the workers of server.c hold.
use world_boss_raid.Base.{
  ℕ, zero, suc, ◌≡◌, ◌-◌, refl, ap, ◌∙◌, Bool, true, false, Option, none, some, List, [], ◌∷◌, ℤ,
  arith, if◌then◌else◌, eqb_ℤ, sym, Bool-cases, inl, inr,
}
use mathlib.Core.Path.{subst}
use world_boss_raid.Protocol.{GamePacket}
use world_boss_raid.GameState.{GameSharedData}
use world_boss_raid.Net.{Os}
use world_boss_raid.Resources.{
  Call, Held, World, is_negative, attempt_elim, held_elim, hold_socket, free_session, tell,
}
use world_boss_raid.Tls.{tls_server_handshake, tls_shutdown, tls_free_ssl}
use world_boss_raid.Tls.Balance.{tls_handshakes-HeldSession}
use world_boss_raid.Handler.Session.{Worker, Turn, next, stopped, hung}
use world_boss_raid.Server.{
  Opened, accept_round, fork_round, master_loop, close_descriptor, gamestate_destroy,
  sigquit_handler, Process, refused, served, with_account, greeted_process, worker_process,
}
use world_boss_raid.Handler.Packets.Keeping.{Keeps}
use world_boss_raid.Handler.Session.Closing.{IsClosed, handle_client-IsClosed}
use world_boss_raid.Server.Startup.{with_memory, in_service}

-- A process that has exactly this socket open, and this account.
pub record Has {Env : Type 0} (fd : ℤ) (h : Held) (p : Opened Env) : Type 0 where
  pub only : p.descriptors ≡ fd ∷ []
  pub account : p.world.held ≡ h

-- Each worker has its own connection open and no other socket.
unfoldable pub AllHave : {Env : Type 0} → Held → List (ℤ × Opened Env) → Type 0
AllHave h [] = Unit
AllHave h ((new_socket, p) ∷ ps) = Has new_socket h p × AllHave h ps

-- So have the master of a round and the worker, if there is one.
abbrev BothHave : {Env : Type 0} → ℤ → Held → Option (ℤ × Opened Env) × Opened Env → Type 0
BothHave fd h (none, p) = Has fd h p
BothHave fd h (some (new_socket, worker), p) = Has fd h p × Has new_socket h worker

eqb_ℤ_refl : (a : ℤ) → eqb_ℤ a a ≡ true
eqb_ℤ_refl a = ground arith

module _ {Env : Type 0} where
  -- The new descriptor is closed again.
  close_new :
      (fd new_socket : ℤ) (w : World Env)
      → Has fd w.held (
          close_descriptor new_socket
            (record { world = hold_socket w; descriptors = new_socket ∷ fd ∷ [] }))
  unfolding close_descriptor
  close_new fd new_socket w =
      rw (eqb_ℤ_refl new_socket, close_descriptor) (record { only = refl; account = refl })

  -- The listening socket is closed in the worker.
  close_listening :
      (fd new_socket : ℤ) (w : World Env)
      → eqb_ℤ fd new_socket ≡ false
      → Has new_socket w.held (
          close_descriptor fd
            (record { world = hold_socket w; descriptors = new_socket ∷ fd ∷ [] }))
  unfolding close_descriptor
  close_listening fd new_socket w other =
      rw (other, eqb_ℤ_refl fd, close_descriptor) (record { only = refl; account = refl })

module _ {Env : Type 0} (ask : Call → Env → ℤ × Env) where
  module _ (fd : ℤ) (fresh : (e : Env) → eqb_ℤ fd (ask Call.accept e).0 ≡ false) where
    accept_round-BothHave :
        (w : World Env)
        → BothHave fd w.held (accept_round ask fd (record { world = w; descriptors = fd ∷ [] }))
    unfolding accept_round fork_round
    accept_round-BothHave w =
        let (new_socket, e) = ask Call.accept w.env in
        elim (Bool-cases (is_negative new_socket)) [
          | inl b ↦ rw (b, accept_round) (record { only = refl; account = refl })
          | inr b ↦
              rw (b, accept_round)
                (attempt_elim ask (BothHave fd w.held) Call.fork is_negative _ _ _
                  (λ e1. close_new fd new_socket (record w { env = e1 }))
                  (λ e1. (
                    close_new fd new_socket (record w { env = e1 }),
                    close_listening fd new_socket (record w { env = e1 }) (fresh w.env),
                  )))
        ]

    master_loop-Has :
        (n : ℕ) (p : Opened Env) (h : Held)
        → Has fd h p
        → AllHave h (master_loop ask n fd p).0 × Has fd h (master_loop ask n fd p).1
    unfolding master_loop AllHave
    master_loop-Has zero p h v = (tt, v)
    master_loop-Has (suc n) p h v =
        go (accept_round ask fd p) (accepted p h v) (λ p1. master_loop-Has n p1 h)
      where
        accepted : (p : Opened Env) (h : Held) → Has fd h p → BothHave fd h (accept_round ask fd p)
        accepted p h v =
            subst
              (λ (ds : List ℤ).
                BothHave fd h (accept_round ask fd (record { world = p.world; descriptors = ds })))
              (sym v.only)
              (subst
                (λ (x : Held).
                  BothHave fd x
                    (accept_round ask fd (record { world = p.world; descriptors = fd ∷ [] })))
                v.account (accept_round-BothHave p.world))

        go :
            (r : Option (ℤ × Opened Env) × Opened Env)
            → BothHave fd h r
            → ((p1 : Opened Env)
                → Has fd h p1
                → AllHave h (master_loop ask n fd p1).0 × Has fd h (master_loop ask n fd p1).1)
            → AllHave h (elim r.0 [
              | none ↦ (master_loop ask n fd r.1).0
              | some worker ↦ worker ∷ (master_loop ask n fd r.1).0
            ])
              × Has fd h (master_loop ask n fd r.1).1
        go (none, p1) e kept = kept p1 e
        go (some (new_socket, worker), p1) (e, e1) kept = ((e1, (kept p1 e).0), (kept p1 e).1)

  sigquit_handler-held :
      (w : World Env)
      → (sigquit_handler w).held ≡ record (w.held) { mappings = w.held.mappings - 1 }
  unfolding sigquit_handler gamestate_destroy
  sigquit_handler-held w = unmap w.held.mappings refl
    where
      unmap :
          (n : ℕ)
          → w.held.mappings ≡ n
          → (sigquit_handler w).held ≡ record (w.held) { mappings = w.held.mappings - 1 }
      unmap zero e = rw (e, gamestate_destroy) (ap (λ m. record (w.held) { mappings = m }) e)
      unmap (suc n) e =
          let less : n ≡ w.held.mappings - 1 = omega (arith, e) in
          rw (e, gamestate_destroy)
            (ap (λ m. record (w.held) { mappings = m }) (less ∙ ap (λ m. m - 1) e))

  -- If accept never answers with the number of the listening socket, which is open, then from a
  -- master with that socket alone and in however many rounds, whatever accept and fork answer
  -- otherwise: each worker has exactly the connection open that accept has answered for it, the
  -- master has exactly the listening socket open, and the account of all of them is that of the
  -- master before. If SIGQUIT comes then, its handler gives back one mapping of the shared memory,
  -- if the master has one, and nothing else.
  pub master_loop-held :
      (fd : ℤ)
      → ((e : Env) → eqb_ℤ fd (ask Call.accept e).0 ≡ false)
      → (n : ℕ) (p : Opened Env) → p.descriptors ≡ fd ∷ []
      → AllHave p.world.held (master_loop ask n fd p).0
        × Has fd p.world.held (master_loop ask n fd p).1
        × ((sigquit_handler (master_loop ask n fd p).1.world).held
            ≡ record (p.world.held) { mappings = p.world.held.mappings - 1 })
  master_loop-held fd fresh n p only =
      let (workers, kept) =
        master_loop-Has fd fresh n p p.world.held (record { only = only; account = refl }) in
      (
        workers,
        kept,
        sigquit_handler-held (master_loop ask n fd p).1.world
            ∙ ap (λ (h : Held). record h { mappings = h.mappings - 1 }) kept.account,
      )

-- What is left of the process in service where the master's worker has come to its end: after a failed
-- handshake no socket and no session, and after the client's turns no session, but the socket, which
-- only the exit closes. A worker that is still at work holds both.
unfoldable pub HoldsItsShare : {Env : Type 0} → Process Env → Type 0
HoldsItsShare (refused w) = w.held ≡ with_memory
HoldsItsShare (served (stopped v)) = v.env.held ≡ in_service
HoldsItsShare (served (next v)) = v.env.held ≡ record in_service { sessions = 1 }
HoldsItsShare (served hung) = Unit

-- SSL_free on an account.
abbrev freed : Held → Held
freed h = elim h.sessions [
  | zero ↦ record h { strays = suc h.strays }
  | suc n ↦ record h { sessions = n }
]

free_session-freed : {Env : Type 0} (w : World Env) → (free_session w).held ≡ freed w.held
free_session-freed {Env} w = go w.held.sessions
  where
    go :
        (n : ℕ)
        → (elim n as (λ _. World Env) [
          | zero ↦ record w { held = record (w.held) { strays = suc w.held.strays } }
          | suc k ↦ record w { held = record (w.held) { sessions = k } }
        ]).held
          ≡ elim n as (λ _. Held) [
            | zero ↦ record (w.held) { strays = suc w.held.strays }
            | suc k ↦ record (w.held) { sessions = k }
          ]
    go zero = refl
    go (suc k) = refl

module _ (os : Os) where
  open os use {Env}

  module _ (ask : Call → Env → ℤ × Env) (rounds fuel : ℕ) (garbage : GamePacket)
      (game : GameSharedData) where
    with_account-Keeps : Keeps (with_account os ask) (λ w. w.held) freed
    unfolding tls_shutdown tls_free_ssl tell
    with_account-Keeps = record {
      rand = λ w. refl;
      select = λ t w. refl;
      read = λ n w. refl;
      write = λ bs w. refl;
      close = λ w. free_session-freed (tell ask Call.ssl_shutdown w);
    }

    served-HoldsItsShare :
        (t : Turn (Worker (World Env)))
        → IsClosed
            (with_account os ask)
            (λ w. w.held)
            freed
            with_account-Keeps
            (record in_service { sessions = 1 })
            t
        → HoldsItsShare {Env = Env} (served t)
    unfolding HoldsItsShare
    served-HoldsItsShare (next _) h = h
    served-HoldsItsShare (stopped _) h = h
    served-HoldsItsShare hung h = tt

    greeted_process-HoldsItsShare :
        (b : Bool) (e : Env)
        → HoldsItsShare (
            greeted_process os ask rounds fuel garbage game (
              b,
              record {
                env = e;
                held = if b then record in_service { sessions = 1 } else in_service;
              },
            ))
    unfolding greeted_process HoldsItsShare
    greeted_process-HoldsItsShare false e = refl
    greeted_process-HoldsItsShare true e = served-HoldsItsShare _ (
        handle_client-IsClosed (with_account os ask) (λ w. w.held) freed with_account-Keeps _ rounds
          fuel garbage game (record { env = e; held = record in_service { sessions = 1 } }) refl)

    -- The process of a worker that the master in service has forked, whatever OpenSSL and the
    -- client do: it exits after a failed handshake without a session and without a socket; where
    -- the client's turns have stopped, every way out of `handle_client` has given the session back
    -- exactly once, and the socket is open until the exit; a worker that is still in its loop
    -- holds both; of a worker that has run out of fuel nothing is said.
    pub worker_process-HoldsItsShare :
        (w : World Env)
        → w.held ≡ in_service
        → HoldsItsShare (worker_process os ask rounds fuel garbage game w)
    unfolding worker_process
    worker_process-HoldsItsShare w e =
        held_elim
          (λ (r : Bool × World Env).
            HoldsItsShare (greeted_process os ask rounds fuel garbage game r))
          (tls_server_handshake ask true w) _
          ((tls_handshakes-HeldSession ask true w).0
            ∙ ap
                (λ (h : Held).
                  if (tls_server_handshake ask true w).0
                  then record h { sessions = suc h.sessions }
                  else h)
                e)
          (greeted_process-HoldsItsShare (tls_server_handshake ask true w).0)
