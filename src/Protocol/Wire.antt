-- ===== src/Protocol/Wire.antt =====
-- The bytes of the packed structures of src/common/protocol.h, as both programs hand them to
-- SSL_write and SSL_read: little-endian, two's complement, no padding, in the order of the fields.
use world_boss_raid.Base.{
  ℕ, zero, suc, ◌+◌, ◌-◌, ◌*◌, ◌/◌, ◌%◌, ◌^◌, ◌≤◌, ◌<◌, ◌≡◌, refl, ap, ◌∙◌, List, [], ◌∷◌, ◌++◌,
  arith, ℤ, pos, negsuc, ltb, if◌then◌else◌, length, take, drop, pos_part, neg_part,
}
use world_boss_raid.Protocol.{PacketHeader, PayloadJoinResp, PayloadGameState}

-- The `w` lowest bytes of a number, the lowest first.
abbrev pub le_bytes : ℕ → ℕ → List ℕ
le_bytes zero n = []
le_bytes (suc w) n = (n % 256) ∷ le_bytes w (n / 256)

abbrev pub of_le : List ℕ → ℕ
of_le [] = 0
of_le (b ∷ bs) = b + 256 * of_le bs

-- An int32_t as a bit pattern, and back.
abbrev pub to_u32 : ℤ → ℕ
to_u32 (pos n) = n % 2 ^ 32
to_u32 (negsuc n) = 2 ^ 32 - 1 - n % 2 ^ 32

abbrev pub of_u32 : ℕ → ℤ
of_u32 n = if ltb n (2 ^ 31) then pos n else negsuc (2 ^ 32 - 1 - n)

-- The field of `w` bytes at an offset.
abbrev pub field_at : ℕ → ℕ → List ℕ → ℕ
field_at offset w bs = of_le (take w (drop offset bs))

unfoldable pub header_bytes : PacketHeader → List ℕ
header_bytes h =
    le_bytes 4 h.length ++ (le_bytes 2 h.opcode ++ (le_bytes 2 h.checksum ++ le_bytes 4 h.seq_num))

unfoldable pub header_of : List ℕ → PacketHeader
header_of bs = record {
  length = field_at 0 4 bs;
  opcode = field_at 4 2 bs;
  checksum = field_at 6 2 bs;
  seq_num = field_at 8 4 bs;
}

unfoldable pub join_resp_bytes : PayloadJoinResp → List ℕ
join_resp_bytes p = le_bytes 4 (to_u32 p.player_id) ++ le_bytes 1 p.status

unfoldable pub join_resp_of : List ℕ → PayloadJoinResp
join_resp_of bs = record { player_id = of_u32 (field_at 0 4 bs); status = field_at 4 1 bs }

unfoldable pub game_state_bytes : PayloadGameState → List ℕ
game_state_bytes p =
    le_bytes 4 (to_u32 p.boss_hp)
    ++ (le_bytes 4 (to_u32 p.max_hp)
        ++ (le_bytes 4 (to_u32 p.online_count)
            ++ (le_bytes 1 p.stage
                ++ (le_bytes 1 p.is_respawning
                    ++ (le_bytes 1 p.is_crit
                        ++ (le_bytes 1 p.is_lucky
                            ++ (le_bytes 4 (to_u32 p.last_player_damage)
                                ++ (le_bytes 4 (to_u32 p.last_boss_dice)
                                    ++ (le_bytes 4 (to_u32 p.last_player_streak)
                                        ++ (le_bytes 4 (to_u32 p.dmg_taken)
                                            ++ p.last_killer))))))))))

unfoldable pub game_state_of : List ℕ → PayloadGameState
game_state_of bs = record {
  boss_hp = of_u32 (field_at 0 4 bs);
  max_hp = of_u32 (field_at 4 4 bs);
  online_count = of_u32 (field_at 8 4 bs);
  stage = field_at 12 1 bs;
  is_respawning = field_at 13 1 bs;
  is_crit = field_at 14 1 bs;
  is_lucky = field_at 15 1 bs;
  last_player_damage = of_u32 (field_at 16 4 bs);
  last_boss_dice = of_u32 (field_at 20 4 bs);
  last_player_streak = of_u32 (field_at 24 4 bs);
  dmg_taken = of_u32 (field_at 28 4 bs);
  last_killer = take 32 (drop 32 bs);
}

-- `attack.damage` of a body.
abbrev pub attack_damage_of : List ℕ → ℤ
attack_damage_of bs = of_u32 (field_at 0 4 bs)

-- The values of an int32_t.
abbrev pub IsInt32 : ℤ → Type 0
IsInt32 z = (pos_part z < 2 ^ 31) × (neg_part z ≤ 2 ^ 31)

pub record IsHeader (h : PacketHeader) : Type 0 where
  pub length_fits : h.length < 2 ^ 32
  pub opcode_fits : h.opcode < 2 ^ 16
  pub checksum_fits : h.checksum < 2 ^ 16
  pub seq_num_fits : h.seq_num < 2 ^ 32

pub of_u32-to_u32 : (z : ℤ) → IsInt32 z → of_u32 (to_u32 z) ≡ z
of_u32-to_u32 (pos n) h = ground arith
of_u32-to_u32 (negsuc n) h = ground arith

to_u32-lt : (z : ℤ) → to_u32 z < 2 ^ 32
to_u32-lt (pos n) = omega arith
to_u32-lt (negsuc n) = omega arith

le4 : (n : ℕ) → n < 2 ^ 32 → of_le (le_bytes 4 n) ≡ n
le4 n h = omega arith

le2 : (n : ℕ) → n < 2 ^ 16 → of_le (le_bytes 2 n) ≡ n
le2 n h = omega arith

le1 : (n : ℕ) → n < 2 ^ 8 → of_le (le_bytes 1 n) ≡ n
le1 n h = omega arith

-- A header whose fields fit is read back from its bytes, whatever follows them.
pub header_of-header_bytes :
    (h : PacketHeader) (rest : List ℕ) → IsHeader h → header_of (header_bytes h ++ rest) ≡ h
unfolding header_of header_bytes
header_of-header_bytes h rest v = λ i. record {
  length = le4 h.length v.length_fits i;
  opcode = le2 h.opcode v.opcode_fits i;
  checksum = le2 h.checksum v.checksum_fits i;
  seq_num = le4 h.seq_num v.seq_num_fits i;
}

pub length-header_bytes : (h : PacketHeader) → length (header_bytes h) ≡ 12
unfolding header_bytes
length-header_bytes h = refl

int4 : (z : ℤ) → IsInt32 z → of_u32 (of_le (le_bytes 4 (to_u32 z))) ≡ z
int4 z h = ap of_u32 (le4 (to_u32 z) (to_u32-lt z)) ∙ of_u32-to_u32 z h

pub take_append {ℓ} : {A : Type ℓ} (xs ys : List A) (n : ℕ) → length xs ≡ n → take n (xs ++ ys) ≡ xs
take_append [] ys zero h = refl
take_append [] ys (suc n) h = absurd (omega arith)
take_append (x ∷ xs) ys zero h = absurd (omega arith)
take_append (x ∷ xs) ys (suc n) h = ap (λ l. x ∷ l) (take_append xs ys n (omega arith))

pub record IsGameState (p : PayloadGameState) : Type 0 where
  pub boss_hp_fits : IsInt32 p.boss_hp
  pub max_hp_fits : IsInt32 p.max_hp
  pub online_count_fits : IsInt32 p.online_count
  pub bytes_fit :
      (p.stage < 2 ^ 8) × (p.is_respawning < 2 ^ 8) × (p.is_crit < 2 ^ 8) × (p.is_lucky < 2 ^ 8)
  pub last_player_damage_fits : IsInt32 p.last_player_damage
  pub last_boss_dice_fits : IsInt32 p.last_boss_dice
  pub last_player_streak_fits : IsInt32 p.last_player_streak
  pub dmg_taken_fits : IsInt32 p.dmg_taken
  pub last_killer_fits : length p.last_killer ≡ 32

-- A game state whose fields fit is read back from its bytes, whatever follows them.
pub game_state_of-game_state_bytes :
    (p : PayloadGameState) (rest : List ℕ)
    → IsGameState p
    → game_state_of (game_state_bytes p ++ rest) ≡ p
unfolding game_state_of game_state_bytes
game_state_of-game_state_bytes p rest v = λ i. record {
  boss_hp = int4 p.boss_hp v.boss_hp_fits i;
  max_hp = int4 p.max_hp v.max_hp_fits i;
  online_count = int4 p.online_count v.online_count_fits i;
  stage = le1 p.stage v.bytes_fit.0 i;
  is_respawning = le1 p.is_respawning v.bytes_fit.1 i;
  is_crit = le1 p.is_crit v.bytes_fit.2 i;
  is_lucky = le1 p.is_lucky v.bytes_fit.3 i;
  last_player_damage = int4 p.last_player_damage v.last_player_damage_fits i;
  last_boss_dice = int4 p.last_boss_dice v.last_boss_dice_fits i;
  last_player_streak = int4 p.last_player_streak v.last_player_streak_fits i;
  dmg_taken = int4 p.dmg_taken v.dmg_taken_fits i;
  last_killer = take_append p.last_killer rest 32 v.last_killer_fits i;
}

-- An answer to a join whose fields fit is read back from its bytes, whatever follows them.
pub join_resp_of-join_resp_bytes :
    (p : PayloadJoinResp) (rest : List ℕ)
    → IsInt32 p.player_id
    → p.status < 2 ^ 8
    → join_resp_of (join_resp_bytes p ++ rest) ≡ p
unfolding join_resp_of join_resp_bytes
join_resp_of-join_resp_bytes p rest h k =
    λ i. record { player_id = int4 p.player_id h i; status = le1 p.status k i }
