-- ===== src/Net/Writing.antt =====
-- `write_all`, the writing loop of `send_packet`.
use world_boss_raid.Base.{
  ℕ, zero, suc, ◌≤◌, ◌<◌, ◌≡◌, ◌≢◌, refl, sym, ap, ◌∙◌, List, [], ◌∷◌, ◌++◌, arith, length, take,
  drop, length-drop, take-append-drop,
}
use mathlib.Core.List.{append-nil, append_assoc}
use world_boss_raid.Net.{Os, done, starved, write_all}
use world_boss_raid.Net.Laws.{Accepts}

module _ (os : Os) where
  open os use {Env, ssl_write}

  -- With one unit of fuel for each byte the loop does not run out of fuel, whatever SSL_write returns.
  pub write_all-ne-starved :
      (fuel : ℕ) (bs : List ℕ) (e : Env) → length bs ≤ fuel → (write_all os fuel bs e).0 ≢ starved
  unfolding write_all
  write_all-ne-starved fuel [] e h = λ q. cc
  write_all-ne-starved zero (b ∷ bs) e h = absurd (omega arith)
  write_all-ne-starved (suc fuel) (b ∷ bs) e h = go (ssl_write (b ∷ bs) e).0 refl (λ n.
      write_all-ne-starved fuel (drop n bs) (ssl_write (b ∷ bs) e).1
        (omega (arith, length-drop {0} n bs)))
    where
      go :
          (n : ℕ)
          → (ssl_write (b ∷ bs) e).0 ≡ n
          → ((m : ℕ) → (write_all os fuel (drop m bs) (ssl_write (b ∷ bs) e).1).0 ≢ starved)
          → (write_all os (suc fuel) (b ∷ bs) e).0 ≢ starved
      go zero q rest = rw (q, write_all) (λ p. cc)
      go (suc n) q rest = rw (q, write_all) (rest n)

  -- On a connection that accepts bytes the loop succeeds, and has sent all of them.
  pub write_all_lem :
      (outgoing : Env → List ℕ)
      → Accepts os outgoing
      → (fuel : ℕ) (bs : List ℕ) (e : Env) → length bs ≤ fuel
      → let (r, e') = write_all os fuel bs e in (r ≡ done tt) × (outgoing e' ≡ outgoing e ++ bs)
  unfolding write_all
  write_all_lem outgoing accepts fuel [] e h = (refl, sym (append-nil (outgoing e)))
  write_all_lem outgoing accepts zero (b ∷ bs) e h = absurd (omega arith)
  write_all_lem outgoing accepts (suc fuel) (b ∷ bs) e h =
      go (ssl_write (b ∷ bs) e).0 refl (accepts (b ∷ bs) e (omega arith)) (λ n.
        write_all_lem outgoing accepts fuel (drop n bs) (ssl_write (b ∷ bs) e).1
          (omega (arith, length-drop {0} n bs)))
    where
      e1 : Env
      e1 = (ssl_write (b ∷ bs) e).1

      go :
          (n : ℕ)
          → (ssl_write (b ∷ bs) e).0 ≡ n
          → (0 < (ssl_write (b ∷ bs) e).0)
            × ((ssl_write (b ∷ bs) e).0 ≤ length (b ∷ bs))
            × (outgoing e1 ≡ outgoing e ++ take (ssl_write (b ∷ bs) e).0 (b ∷ bs))
          → ((m : ℕ)
              → ((write_all os fuel (drop m bs) e1).0 ≡ done tt)
                × (outgoing (write_all os fuel (drop m bs) e1).1 ≡ outgoing e1 ++ drop m bs))
          → ((write_all os (suc fuel) (b ∷ bs) e).0 ≡ done tt)
            × (outgoing (write_all os (suc fuel) (b ∷ bs) e).1 ≡ outgoing e ++ (b ∷ bs))
      go zero q w rest = absurd (omega (arith, q, w.0))
      go (suc n) q w rest =
          let sent : outgoing e1 ≡ outgoing e ++ (b ∷ take n bs) =
            w.2 ∙ ap (λ k. outgoing e ++ take k (b ∷ bs)) q in
          rw (q, write_all)
            (
              (rest n).0,
              (rest n).1
                  ∙ ap (λ l. l ++ drop n bs) sent
                  ∙ append_assoc (outgoing e) (b ∷ take n bs) (drop n bs)
                  ∙ ap (λ l. outgoing e ++ (b ∷ l)) (take-append-drop n bs),
            )
