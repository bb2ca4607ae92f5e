-- ===== src/Security/ReplayProtection.antt =====
-- src/server/security/replay_protection.h and replay_protection.c.
pub mod Order
use world_boss_raid.Base.{ℕ, suc, ◌+◌, ◌-◌, Bool, true, false, List, [], ◌∷◌, ltb, if◌then◌else◌}

pub record ReplayProtection : Type 0 where
  pub last_seq_num : ℕ  -- uint32_t
  pub initialized : Bool

unfoldable pub replay_protection_init : ReplayProtection
replay_protection_init = record { last_seq_num = 0; initialized = false }

-- Both subtractions are of a number that is not larger, so they do not wrap.
unfoldable pub replay_protection_validate : ℕ → ReplayProtection → Bool × ReplayProtection
replay_protection_validate seq_num rp =
    if rp.initialized
    then if ltb rp.last_seq_num seq_num
      then (true, record rp { last_seq_num = seq_num })
      else if ltb (rp.last_seq_num - seq_num) 0x7FFFFFFF
      then (false, rp)
      else (true, record rp { last_seq_num = seq_num })
    else (true, record { last_seq_num = seq_num; initialized = true })

-- The numbers that pass, of packets that arrive in the order of the list.
unfoldable pub accepted : List ℕ → ReplayProtection → List ℕ
accepted [] rp = []
accepted (seq_num ∷ rest) rp =
    let (ok, rp1) = replay_protection_validate seq_num rp in
    let later = accepted rest rp1 in if ok then seq_num ∷ later else later
