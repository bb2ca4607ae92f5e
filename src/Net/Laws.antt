-- ===== src/Net/Laws.antt =====
-- The documented behaviour of a connection that works, as hypotheses on the environment.
use world_boss_raid.Base.{ℕ, ◌≤◌, ◌<◌, ◌≡◌, List, ◌++◌, length, take}
use world_boss_raid.Net.{Os, ReadResult, got, again, failed}

module _ (os : Os) where
  open os use {Env, ssl_read, ssl_write}

  -- The bytes that the peer has sent and this side has not read, and how often SSL_read may still
  -- answer that it wants a retry before it delivers.
  pub record Incoming : Type 0 where
    pub pending : Env → List ℕ
    pub retries : Env → ℕ

  abbrev pub ReadsWell : Incoming → ℕ → Env → ReadResult × Env → Type 0
  ReadsWell io n e (got bs, e') =
      (0 < length bs)
      × (length bs ≤ n)
      × (io.pending e ≡ bs ++ io.pending e')
      × (io.retries e' ≤ io.retries e)
  ReadsWell io n e (again, e') = (io.pending e' ≡ io.pending e) × (io.retries e' < io.retries e)
  ReadsWell io n e (failed, e') = ⊥

  -- SSL_read delivers between one byte and the number asked for, in order, while there are any.
  abbrev pub Delivers : Incoming → Type 0
  Delivers io =
      (n : ℕ) (e : Env) → 0 < n → 0 < length (io.pending e) → ReadsWell io n e (ssl_read n e)

  -- SSL_write accepts at least one byte and at most all, in order.
  abbrev pub Accepts : (Env → List ℕ) → Type 0
  Accepts outgoing =
      (bs : List ℕ) (e : Env)
      → 0 < length bs
      → (0 < (ssl_write bs e).0)
        × ((ssl_write bs e).0 ≤ length bs)
        × (outgoing (ssl_write bs e).1 ≡ outgoing e ++ take (ssl_write bs e).0 bs)
