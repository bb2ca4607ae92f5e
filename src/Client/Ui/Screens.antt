-- ===== src/Client/Ui/Screens.antt =====
-- Which screens the UI shows.
use world_boss_raid.Base.{
  ℕ, zero, suc, ◌+◌, ◌≤◌, ◌≡◌, refl, Bool, false, Option, List, [], ◌∷◌, ◌++◌, arith, ◌==◌,
  if◌then◌else◌, Option-cases, inl, inr,
}
use world_boss_raid.Client.Network.{UiGameState}
use world_boss_raid.Client.Ui.{
  Screen, god_screen, bonus_screen, victory_screen, LocalGameState, show_boss, show_result,
  show_attack, show_heartbeat, Ui, Key, quit, space, other, animate_dice_roll, attack_turn,
  heartbeat_turn, ui_round, ui_rounds, ui_start, ui_game_loop,
}

-- The number of god screens, and of victory screens.
abbrev pub gods : List Screen → ℕ
gods [] = 0
gods (god_screen ∷ ss) = suc (gods ss)
gods (_ ∷ ss) = gods ss

abbrev pub victories : List Screen → ℕ
victories [] = 0
victories (victory_screen _ ∷ ss) = suc (victories ss)
victories (_ ∷ ss) = victories ss

-- What reaches the UI from the server.
pub data Answer : Type 0 where
  of_attack of_heartbeat : UiGameState → Answer

-- The answers one after the other: the state, and the screens in their order.
unfoldable pub show_all : List Answer → LocalGameState → LocalGameState × List Screen
show_all [] state = (state, [])
show_all (of_attack g ∷ answers) state =
    let (state1, screens, over) = show_attack g state in
    let (state2, more) = show_all answers state1 in (state2, screens ++ more)
show_all (of_heartbeat g ∷ answers) state =
    let (state1, screens, over) = show_heartbeat g state in
    let (state2, more) = show_all answers state1 in (state2, screens ++ more)

-- The heartbeats whose answer has no lucky kill.
abbrev pub quiet : List Answer → ℕ
quiet [] = 0
quiet (of_attack g ∷ answers) = quiet answers
quiet (of_heartbeat g ∷ answers) = if g.is_lucky == 0 then suc (quiet answers) else quiet answers

gods-append : (xs ys : List Screen) → gods (xs ++ ys) ≡ gods xs + gods ys
gods-append [] ys = omega arith
gods-append (god_screen ∷ xs) ys = omega (arith, gods-append xs ys)
gods-append (bonus_screen ∷ xs) ys = gods-append xs ys
gods-append (victory_screen _ ∷ xs) ys = gods-append xs ys

-- Whether a god screen is still to come.
abbrev pub due : LocalGameState → ℕ
due state = if state.has_shown_lucky_kill then 0 else 1

show_attack-gods :
    (g : UiGameState) (state : LocalGameState)
    → let (state', screens, over) = show_attack g state in gods screens + due state' ≡ due state
unfolding show_attack show_result show_boss
show_attack-gods g state = ground arith

show_heartbeat-gods :
    (g : UiGameState) (state : LocalGameState)
    → let (state', screens, over) = show_heartbeat g state in
      gods screens + due state' ≤ due state + (if g.is_lucky == 0 then 1 else 0)
unfolding show_heartbeat show_boss
show_heartbeat-gods g state = ground arith

-- For any answers of attacks and heartbeats: the UI shows at most one god screen more than it gets
-- heartbeats without a lucky kill, and no more than those if it has shown one already.
pub show_all-gods :
    (answers : List Answer) (state : LocalGameState)
    → gods (show_all answers state).1 ≤ due state + quiet answers
unfolding show_all
show_all-gods [] state = omega arith
show_all-gods (of_attack g ∷ answers) state = omega (
  arith,
  gods-append (show_attack g state).1 (show_all answers (show_attack g state).0).1,
  show_attack-gods g state,
  show_all-gods answers (show_attack g state).0,
)
show_all-gods (of_heartbeat g ∷ answers) state = ground (
  arith,
  gods-append (show_heartbeat g state).1 (show_all answers (show_heartbeat g state).0).1,
  show_heartbeat-gods g state,
  show_all-gods answers (show_heartbeat g state).0,
)

victories-append : (xs ys : List Screen) → victories (xs ++ ys) ≡ victories xs + victories ys
victories-append [] ys = omega arith
victories-append (god_screen ∷ xs) ys = victories-append xs ys
victories-append (bonus_screen ∷ xs) ys = victories-append xs ys
victories-append (victory_screen _ ∷ xs) ys = omega (arith, victories-append xs ys)

show_attack-victories :
    (g : UiGameState) (state : LocalGameState)
    → let (state', screens, over) = show_attack g state in
      victories screens ≡ (if over then 1 else 0)
unfolding show_attack show_result show_boss
show_attack-victories g state = ground arith

show_heartbeat-victories :
    (g : UiGameState) (state : LocalGameState)
    → let (state', screens, over) = show_heartbeat g state in
      victories screens ≡ (if over then 1 else 0)
unfolding show_heartbeat show_boss
show_heartbeat-victories g state = ground arith

module _ {S : Type 0} (rand : S → ℕ × S) (attack_cb heartbeat_cb : S → Option UiGameState × S) where
  -- As many victory screens as before, and one more at most if the loop returns.
  Wins : Ui S → Ui S × Bool → Type 0
  Wins ui (ui', over) =
      (victories ui'.shown ≤ victories ui.shown + 1)
      × (over ≡ false → victories ui'.shown ≡ victories ui.shown)

  animate_dice_roll-shown :
      (frames : ℕ) (ui : Ui S)
      → (animate_dice_roll rand attack_cb heartbeat_cb frames ui).shown ≡ ui.shown
  unfolding animate_dice_roll
  animate_dice_roll-shown zero ui = refl
  animate_dice_roll-shown (suc frames) ui = animate_dice_roll-shown frames _

  attack_turn-Wins : (ui : Ui S) → Wins ui (attack_turn rand attack_cb heartbeat_cb ui)
  unfolding Wins attack_turn
  attack_turn-Wins ui =
      let rolled = animate_dice_roll rand attack_cb heartbeat_cb 10 ui in
      let same = animate_dice_roll-shown 10 ui in
      elim (Option-cases (attack_cb rolled.world).0) [
        | inl e ↦ ground (arith, e, same)
        | inr (g, e) ↦ ground (
          arith,
          e,
          same,
          show_attack-victories g rolled.state,
          victories-append rolled.shown (show_attack g rolled.state).1,
        )
      ]

  heartbeat_turn-Wins : (ui : Ui S) → Wins ui (heartbeat_turn rand attack_cb heartbeat_cb ui)
  unfolding Wins heartbeat_turn
  heartbeat_turn-Wins ui = elim (Option-cases (heartbeat_cb ui.world).0) [
    | inl e ↦ ground (arith, e)
    | inr (g, e) ↦ ground (
      arith,
      e,
      show_heartbeat-victories g ui.state,
      victories-append ui.shown (show_heartbeat g ui.state).1,
    )
  ]

  ui_round-Wins : (key : Key) (ui : Ui S) → Wins ui (ui_round rand attack_cb heartbeat_cb key ui)
  unfolding Wins ui_round
  ui_round-Wins quit ui = (omega arith, λ e. refl)
  ui_round-Wins space ui =
      let ui1 = (attack_turn rand attack_cb heartbeat_cb ui).0 in
      ground (arith, attack_turn-Wins ui, heartbeat_turn-Wins ui1)
  ui_round-Wins other ui = heartbeat_turn-Wins ui

  ui_rounds-Wins :
      (keys : List Key) (ui : Ui S) → Wins ui (ui_rounds rand attack_cb heartbeat_cb keys ui)
  unfolding Wins ui_rounds
  ui_rounds-Wins [] ui = (omega arith, λ e. refl)
  ui_rounds-Wins (key ∷ keys) ui =
      let ui1 = (ui_round rand attack_cb heartbeat_cb key ui).0 in
      ground (arith, ui_round-Wins key ui, ui_rounds-Wins keys ui1)

  -- For any keys and any answers of the callbacks: the loop shows at most one victory screen, and
  -- none if it has not returned.
  pub ui_game_loop-victories :
      (player_name : List ℕ) (keys : List Key) (world : S)
      → let (ui, over) = ui_game_loop rand attack_cb heartbeat_cb player_name keys world in
        victories ui.shown ≤ (if over then 1 else 0)
  unfolding ui_game_loop Wins
  ui_game_loop-victories player_name keys world =
      let state = ui_start player_name world in ground (arith, ui_rounds-Wins keys state)
