-- ===== src/Tests/Threads.antt =====
-- The two threads of the client after a first request, and the server's workers after a first end.
use world_boss_raid.Base.{ℕ, zero, suc, ◌+◌, ◌≤◌, ◌≡◌, ◌≢◌, refl, ◌⊎◌, true, false, arith, ℤ, pos}
use world_boss_raid.Client.Network.{attack_request, network_started, still_waiting}
use world_boss_raid.Net.{broken}
use world_boss_raid.Client.Threads.{
  Threads, NetStep, Reach, threads_init, shared_init, waiting, joining, testing, ended, request,
  greet, ask_exit, start, ui_moves,
}
use world_boss_raid.Client.Threads.Waiting.{IsPending, waiting-IsPending}
use world_boss_raid.Client.Threads.Ending.{to_end, here, net_next, network_thread_ends}
use world_boss_raid.Server.Reaping.{Workers, no_workers, goes_on, at_rest-zombies}
use world_boss_raid.Server.Reaping

abbrev asked_once : Threads
asked_once = record threads_init { shared = attack_request shared_init; ui = waiting; asked = 1 }

abbrev asked_once-Reach : Reach asked_once
asked_once-Reach = ui_moves start (request refl)

waiting-IsPending_example : IsPending asked_once × (asked_once.net ≢ ended)
unfolding attack_request still_waiting
waiting-IsPending_example = waiting-IsPending asked_once-Reach refl refl

abbrev leaving : Threads
leaving = record threads_init { shared = ask_exit shared_init; ui = joining }

abbrev leaving_later : Threads
leaving_later = record leaving {
  shared = network_started broken (ask_exit shared_init);
  net = testing;
}

network_thread_ends_example :
    (1 + to_end testing ≤ 3) × ((testing ≡ ended) ⊎ ((u : Threads) × NetStep leaving_later u))
unfolding ask_exit
network_thread_ends_example =
    network_thread_ends {s = leaving} {t = leaving_later} refl (net_next here (greet broken refl))

-- Two workers, of which one has ended and has been waited for.
abbrev forked_two : Workers
forked_two = record no_workers { running = 2; forked = 2 }

abbrev one_ended : Workers
one_ended = record forked_two { running = 1; zombies = 1; pending = true }

abbrev one_noticed : Workers
one_noticed = record one_ended { pending = false; reaping = true }

abbrev one_waited : Workers
one_waited = record one_noticed { zombies = 0; waited = 1; reaping = false }

at_rest-zombies_example :
    (one_waited.zombies ≡ 0) × (one_waited.forked ≡ one_waited.running + one_waited.waited)
unfolding goes_on
at_rest-zombies_example =
    at_rest-zombies one_waited
      (Reaping.step
        (Reaping.step
          (Reaping.step
            (Reaping.step (Reaping.step (Reaping.step Reaping.start Reaping.fork) Reaping.fork)
              (Reaping.exit 1 refl))
            (Reaping.deliver refl refl))
          (Reaping.wait (pos 7) refl (Reaping.collected 0 (pos 7) (omega arith) refl)))
        (Reaping.wait (pos 0) refl (Reaping.none_ended (pos 0) (omega arith) refl)))
      refl refl

-- The workers that run, those that have ended and those waited for. Before each call of waitpid one of
-- those that run ends.
abbrev Table : Type 0
Table = ℕ × ℕ × ℕ

abbrev wait_busily : Table → ℤ × Table
wait_busily (suc r, e, w) = (pos 5, (r, e, suc w))
wait_busily (zero, suc e, w) = (pos 5, (0, e, suc w))
wait_busily (zero, zero, w) = (pos 0, (0, 0, w))
