-- ===== src/Security/ReplayProtection/Order.antt =====
-- Which sequence numbers pass.
use world_boss_raid.Base.{
  ℕ, zero, suc, ◌+◌, ◌%◌, ◌^◌, ◌<◌, ◌≡◌, refl, inl, inr, true, List, [], ◌∷◌, arith, ltb, All,
  Bool-cases,
}
use world_boss_raid.Security.ReplayProtection.{
  ReplayProtection, replay_protection_init, replay_protection_validate, accepted,
}

-- Every number is larger than the one before it, and than `low`.
abbrev pub IsAscending : ℕ → List ℕ → Type 0
IsAscending low [] = Unit
IsAscending low (n ∷ ns) = (low < n) × IsAscending n ns

abbrev pub IsBelowRollover : List ℕ → Type 0
IsBelowRollover = All (λ n. n < 0x7FFFFFFF)

accepted-IsAscending_from :
    (seqs : List ℕ) (rp : ReplayProtection)
    → rp.initialized ≡ true
    → rp.last_seq_num < 0x7FFFFFFF
    → IsBelowRollover seqs
    → IsAscending rp.last_seq_num (accepted seqs rp)
unfolding accepted replay_protection_validate
accepted-IsAscending_from [] rp i l h = tt
accepted-IsAscending_from (n ∷ seqs) rp i l h = elim (Bool-cases (ltb rp.last_seq_num n)) [
  | inl e ↦ ground (arith, i, accepted-IsAscending_from seqs (record rp { last_seq_num = n }))
  | inr e ↦ ground (arith, i, accepted-IsAscending_from seqs rp i l h.1)
]

-- Of numbers below 2^31 - 1, in any order and with repetitions, the first passes, and those that pass
-- are strictly ascending.
pub accepted-IsAscending :
    (first : ℕ) (seqs : List ℕ)
    → first < 0x7FFFFFFF
    → IsBelowRollover seqs
    → let passed = accepted (first ∷ seqs) replay_protection_init in
      (rest : List ℕ) × (passed ≡ first ∷ rest) × IsAscending first rest
unfolding accepted replay_protection_validate replay_protection_init
accepted-IsAscending first seqs h all =
    let rp : ReplayProtection = record { last_seq_num = first; initialized = true } in
    (accepted seqs rp, refl, accepted-IsAscending_from seqs rp refl h all)

-- `g_seq_num++` on a uint32_t.
abbrev pub next_seq : ℕ → ℕ
next_seq n = (n + 1) % 2 ^ 32

-- The numbers that a client gives its next packets.
abbrev pub client_seqs : ℕ → ℕ → List ℕ
client_seqs zero n = []
client_seqs (suc k) n = n ∷ client_seqs k (next_seq n)

pub validate-next_seq :
    (rp : ReplayProtection)
    → rp.initialized ≡ true
    → rp.last_seq_num < 2 ^ 32
    → replay_protection_validate (next_seq rp.last_seq_num) rp
      ≡ (true, record { last_seq_num = next_seq rp.last_seq_num; initialized = true })
unfolding replay_protection_validate
validate-next_seq rp i h = ground (arith, i)

accepted-client_seqs_from :
    (k : ℕ) (rp : ReplayProtection)
    → rp.initialized ≡ true
    → rp.last_seq_num < 2 ^ 32
    → accepted (client_seqs k (next_seq rp.last_seq_num)) rp
      ≡ client_seqs k (next_seq rp.last_seq_num)
unfolding accepted
accepted-client_seqs_from zero rp i h = refl
accepted-client_seqs_from (suc k) rp i h =
    let rp1 : ReplayProtection = record {
      last_seq_num = next_seq rp.last_seq_num;
      initialized = true;
    } in
    rw (validate-next_seq rp i h) (rw (accepted-client_seqs_from k rp1 refl (omega arith)))

-- Numbers that count up by one modulo 2^32, from any first number below 2^32, all pass.
pub accepted-client_seqs :
    (k first : ℕ)
    → first < 2 ^ 32
    → accepted (client_seqs k first) replay_protection_init ≡ client_seqs k first
unfolding accepted replay_protection_init replay_protection_validate
accepted-client_seqs zero first h = refl
accepted-client_seqs (suc k) first h =
    rw (accepted-client_seqs_from k (record { last_seq_num = first; initialized = true }) refl h)

-- After a number below it, `n` passes, then the number 2^31 - 1 above `n` if it is below 2^32, and then
-- `n` again.
pub accepted_again :
    (n : ℕ) (rp : ReplayProtection)
    → rp.initialized ≡ true
    → rp.last_seq_num < n
    → n + 0x7FFFFFFF < 2 ^ 32
    → accepted (n ∷ (n + 0x7FFFFFFF) ∷ n ∷ []) rp ≡ n ∷ (n + 0x7FFFFFFF) ∷ n ∷ []
unfolding accepted replay_protection_validate
accepted_again n rp i h fits = ground (arith, i)
