-- ===== src/Protocol/Checksum.antt =====
-- `calc_checksum` of src/server/logic/client_handler.c and src/client/client.c, which are the same.
use world_boss_raid.Base.{
  ℕ, zero, suc, ◌+◌, ◌%◌, ◌^◌, ◌<◌, ◌≡◌, ◌≢◌, List, [], ◌∷◌, ◌++◌, arith, length,
}

-- The loop over the first `len` bytes, on a uint32_t.
abbrev pub checksum_loop : List ℕ → ℕ → ℕ → ℕ
checksum_loop bs zero sum = sum
checksum_loop [] (suc len) sum = sum
checksum_loop (b ∷ bs) (suc len) sum = checksum_loop bs len ((sum + b) % 2 ^ 32)

-- `sum & 0xFFFF` is the remainder by 2^16.
unfoldable pub calc_checksum : List ℕ → ℕ → ℕ
calc_checksum bs len = checksum_loop bs len 0 % 2 ^ 16

-- The sum of the first `len` bytes.
abbrev pub sum_of : List ℕ → ℕ → ℕ
sum_of bs zero = 0
sum_of [] (suc len) = 0
sum_of (b ∷ bs) (suc len) = b + sum_of bs len

checksum_loop-mod :
    (bs : List ℕ) (len sum : ℕ) → checksum_loop bs len sum % 2 ^ 16 ≡ (sum + sum_of bs len) % 2 ^ 16
checksum_loop-mod bs zero sum = omega arith
checksum_loop-mod [] (suc len) sum = omega arith
checksum_loop-mod (b ∷ bs) (suc len) sum =
    omega (arith, checksum_loop-mod bs len ((sum + b) % 2 ^ 32))

-- The checksum is the sum of the first `len` bytes modulo 2^16.
pub calc_checksum-sum_of : (bs : List ℕ) (len : ℕ) → calc_checksum bs len ≡ sum_of bs len % 2 ^ 16
unfolding calc_checksum
calc_checksum-sum_of bs len = omega (arith, checksum_loop-mod bs len 0)

sum_of-middle :
    (xs : List ℕ) (a : ℕ) (ys : List ℕ)
    → sum_of (xs ++ (a ∷ ys)) (length (xs ++ (a ∷ ys))) ≡ sum_of (xs ++ ys) (length (xs ++ ys)) + a
sum_of-middle [] a ys = omega arith
sum_of-middle (x ∷ xs) a ys = omega (arith, sum_of-middle xs a ys)

-- Two payloads that differ in one byte have different checksums.
pub calc_checksum_one_byte :
    (xs : List ℕ) (a b : ℕ) (ys : List ℕ)
    → a < 256
    → b < 256
    → a ≢ b
    → calc_checksum (xs ++ (a ∷ ys)) (length (xs ++ (a ∷ ys)))
      ≢ calc_checksum (xs ++ (b ∷ ys)) (length (xs ++ (b ∷ ys)))
calc_checksum_one_byte xs a b ys ha hb ne e = absurd (
    omega (
      arith,
      e,
      calc_checksum-sum_of (xs ++ (a ∷ ys)) (length (xs ++ (a ∷ ys))),
      calc_checksum-sum_of (xs ++ (b ∷ ys)) (length (xs ++ (b ∷ ys))),
      sum_of-middle xs a ys,
      sum_of-middle xs b ys,
    ))

-- Payloads in which two neighbouring bytes have changed places have the same checksum.
pub calc_checksum_swap :
    (xs : List ℕ) (a b : ℕ) (ys : List ℕ)
    → calc_checksum (xs ++ (a ∷ b ∷ ys)) (length (xs ++ (a ∷ b ∷ ys)))
      ≡ calc_checksum (xs ++ (b ∷ a ∷ ys)) (length (xs ++ (b ∷ a ∷ ys)))
calc_checksum_swap xs a b ys = omega (
  arith,
  calc_checksum-sum_of (xs ++ (a ∷ b ∷ ys)) (length (xs ++ (a ∷ b ∷ ys))),
  calc_checksum-sum_of (xs ++ (b ∷ a ∷ ys)) (length (xs ++ (b ∷ a ∷ ys))),
  sum_of-middle xs a (b ∷ ys),
  sum_of-middle xs b (a ∷ ys),
  sum_of-middle xs b ys,
  sum_of-middle xs a ys,
)
