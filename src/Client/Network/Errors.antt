-- ===== src/Client/Network/Errors.antt =====
-- What the UI is told of an attack.
use world_boss_raid.Base.{
  ℕ, zero, suc, ◌≡◌, refl, Bool, true, false, Option, none, some, pos, eqb_ℤ, if◌then◌else◌, ◌<◌,
  length, take, arith,
}
use world_boss_raid.Base.CString.{text, text-set-strncpy-take}
use world_boss_raid.Protocol.{PayloadGameState}
use world_boss_raid.Net.{Os, Outcome, done, broken, starved}
use world_boss_raid.Client.Packets.{Link, net_attack_and_get_state, net_heartbeat_get_state}
use world_boss_raid.Client.Network.{
  UiGameState, SharedGameState, copy_common, copy_attack, attack_answered, heartbeat_answered,
  network_round, attack_request, still_waiting, attack_finish,
}

-- The rounds of the network thread, as long as it does not exit.
unfoldable pub network_rounds :
    (os : Os) → ℕ → ℕ → SharedGameState × Link os.Env → SharedGameState × Link os.Env
network_rounds os zero fuel s = s
network_rounds os (suc n) fuel s =
    let rest = network_rounds os n fuel (network_round os fuel s) in
    if s.0.should_exit then s else rest

-- The state that the UI has of an answer of the server: every field that the screens read, the name of
-- the killer in its first 31 bytes.
pub record IsStateOf (s : PayloadGameState) (ui : UiGameState) : Type 0 where
  pub boss : (ui.boss_hp ≡ s.boss_hp) × (ui.max_hp ≡ s.max_hp)
  pub online : ui.online_count ≡ s.online_count
  pub stage : (ui.stage ≡ s.stage) × (ui.is_respawning ≡ s.is_respawning)
  pub flags : (ui.is_crit ≡ s.is_crit) × (ui.is_lucky ≡ s.is_lucky)
  pub damage : (ui.last_player_damage ≡ s.last_player_damage) × (ui.dmg_taken ≡ s.dmg_taken)
  pub dice : ui.last_boss_dice ≡ s.last_boss_dice
  pub streak : ui.last_player_streak ≡ s.last_player_streak
  pub killer : text ui.last_killer ≡ text (take 31 s.last_killer)

-- What the UI is told of an attack that has this outcome.
abbrev pub IsTold : Outcome PayloadGameState → Option UiGameState → Type 0
IsTold (done s) (some ui) = IsStateOf s ui
IsTold (done s) none = ⊥
IsTold broken ui = ui ≡ none
IsTold starved ui = ui ≡ none

copy_attack-IsStateOf :
    (s : PayloadGameState) (ui : UiGameState)
    → 31 < length ui.last_killer
    → IsStateOf s (copy_attack s ui)
unfolding copy_attack copy_common
copy_attack-IsStateOf s ui h = record {
  boss = (refl, refl);
  online = refl;
  stage = (refl, refl);
  flags = (refl, refl);
  damage = (refl, refl);
  dice = refl;
  streak = refl;
  killer = text-set-strncpy-take ui.last_killer s.last_killer 31 h;
}

module _ (os : Os) (fuel : ℕ) (shared : SharedGameState) (c : Link os.Env) where
  -- With no earlier error and no request to exit, and a name of 32 bytes in the latest state: one
  -- round of the thread after the request ends the wait, and the UI gets a state with every field
  -- of the server's answer, the killer's name cut after its first 31 bytes, or an error if the
  -- server did not answer.
  pub attack_round :
      shared.network_error ≡ pos 0
      → shared.should_exit ≡ false
      → length shared.latest_state.last_killer ≡ 32
      → let (after, c') = network_round os fuel (attack_request shared, c) in
        (still_waiting after ≡ false)
        × IsTold (net_attack_and_get_state os fuel c).0 (attack_finish after).0
  unfolding network_round attack_request attack_finish attack_answered
  attack_round e x n = go (net_attack_and_get_state os fuel c).0
    where
      go :
          (r : Outcome PayloadGameState)
          → let after =
              attack_answered r (record (attack_request shared) { attack_requested = false }) in
            (still_waiting after ≡ false) × IsTold r (attack_finish after).0
      go (done s) =
          (refl, rw (e, x) (copy_attack-IsStateOf s shared.latest_state (omega (arith, n))))
      go broken = (refl, refl)
      go starved = (refl, refl)

-- No answer takes an error back.
attack_answered-error :
    (r : Outcome PayloadGameState) (s : SharedGameState)
    → eqb_ℤ s.network_error (pos 0) ≡ false
    → eqb_ℤ (attack_answered r s).network_error (pos 0) ≡ false
unfolding attack_answered
attack_answered-error (done _) s h = h
attack_answered-error broken s h = refl
attack_answered-error starved s h = refl

heartbeat_answered-error :
    (r : Outcome PayloadGameState) (s : SharedGameState)
    → eqb_ℤ s.network_error (pos 0) ≡ false
    → eqb_ℤ (heartbeat_answered r s).network_error (pos 0) ≡ false
unfolding heartbeat_answered
heartbeat_answered-error (done _) s h = h
heartbeat_answered-error broken s h = refl
heartbeat_answered-error starved s h = refl

if_elim : {A : Type 0} (P : A → Type 0) (b : Bool) (x y : A) → P x → P y → P (if b then x else y)
if_elim P true x y p q = p
if_elim P false x y p q = q

HasError : {Env : Type 0} → SharedGameState × Link Env → Type 0
HasError s = eqb_ℤ s.0.network_error (pos 0) ≡ false

network_round-error :
    (os : Os) (fuel : ℕ) (s : SharedGameState × Link os.Env)
    → HasError s
    → HasError (network_round os fuel s)
unfolding network_round HasError
network_round-error os fuel (shared, c) h =
    if_elim HasError shared.attack_requested _ _
      (attack_answered-error (net_attack_and_get_state os fuel c).0 _ h)
      (heartbeat_answered-error (net_heartbeat_get_state os fuel c).0 _ h)

network_rounds-error :
    (os : Os) (n fuel : ℕ) (s : SharedGameState × Link os.Env)
    → HasError s
    → HasError (network_rounds os n fuel s)
unfolding network_rounds
network_rounds-error os zero fuel s h = h
network_rounds-error os (suc n) fuel s h =
    if_elim HasError s.0.should_exit s (network_rounds os n fuel (network_round os fuel s)) h
      (network_rounds-error os n fuel (network_round os fuel s) (network_round-error os fuel s h))

-- Once an error is stored, an attack of the UI ends with an error, after any number of rounds of the
-- thread and whatever the server answers in them.
pub network_error_stays :
    (os : Os) (n fuel : ℕ) (shared : SharedGameState) (c : Link os.Env)
    → eqb_ℤ shared.network_error (pos 0) ≡ false
    → (attack_finish (network_rounds os n fuel (attack_request shared, c)).0).0 ≡ none
unfolding attack_finish attack_request HasError
network_error_stays os n fuel shared c h =
    rw (network_rounds-error os n fuel (attack_request shared, c) h) refl
