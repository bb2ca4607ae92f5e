-- ===== src/GameState/Streak/Updates.antt =====
-- One call of `gamestate_update_streak`: what it does to the record of its player and to the others.
use world_boss_raid.Base.{
  ℕ, ◌≡◌, ◌≢◌, Bool, false, none, some, List, inl, inr, ◌⊎◌, arith, ℤ, pos, get_or, set,
  Option-cases,
}
use world_boss_raid.Base.CString.{text, same_text-eq, text-strncpy}
use world_boss_raid.GameState.{
  PlayerHistory, empty_history, claim, find_player, find_empty, player_slot, update_history,
  update_players,
}
use world_boss_raid.GameState.Invariant.{IsValidTable, slot_history-IsValid}
use world_boss_raid.GameState.Streak.Slots.{
  IsUsableName, record_of, next_record, matches, record_of-found, record_of-missing, found-matches,
  record_of-set_found, record_of-set_empty, empty-in_use, record_of-set_other, set-set,
  get_or-set_self, matches_of_text, matches_other,
}

-- The player has a record, or there is an empty slot.
abbrev pub HasRoom : List ℕ → List PlayerHistory → Type 0
HasRoom name ps = (record_of name ps ≢ none) ⊎ (find_empty ps ≢ none)

module _ (name : List ℕ) (dice : ℤ) (win : Bool) (ps : List PlayerHistory) where
  update_players_found :
      (i : ℕ)
      → find_player name ps ≡ some i
      → let q = update_history dice win (get_or ps i empty_history) in
        update_players name dice win ps ≡ (q.streak_count, set ps i q)
  unfolding update_players player_slot
  update_players_found i e = ground (arith, e)

  update_players_new :
      (i : ℕ)
      → find_player name ps ≡ none
      → find_empty ps ≡ some i
      → let q = update_history dice win (claim name (get_or ps i empty_history)) in
        update_players name dice win ps ≡ (q.streak_count, set ps i q)
  unfolding update_players player_slot
  update_players_new i e f =
      let c = claim name (get_or ps i empty_history) in
      ground (
        arith,
        e,
        f,
        set-set ps i c (update_history dice win c),
        get_or-set_self ps i c empty_history (empty-in_use ps i f).1,
      )

  update_players_full :
      find_player name ps ≡ none
      → find_empty ps ≡ none
      → update_players name dice win ps ≡ (pos 0, ps)
  unfolding update_players player_slot
  update_players_full e f = ground arith

  module _ (usable : IsUsableName name) (valid : IsValidTable ps) where
    claim-text : (i : ℕ) → text (claim name (get_or ps i empty_history)).name ≡ text name
    claim-text i =
        let (n, z) = (slot_history-IsValid ps i valid).named in
        text-strncpy (get_or ps i empty_history).name name 31 usable.1 (omega arith) z

    -- For a usable name with room in a well-formed table, the player's record becomes the next one,
    -- and its streak is returned.
    pub update_players_self :
        HasRoom name ps
        → let next = next_record dice win (record_of name ps) in
          (record_of name (update_players name dice win ps).1 ≡ some next)
          × ((update_players name dice win ps).0 ≡ next.1)
    unfolding update_history
    update_players_self room = elim (Option-cases (find_player name ps)) [
      | inr (i, e) ↦ ground (
        arith,
        update_players_found i e,
        record_of-found name ps i e,
        found-matches name ps i e,
        record_of-set_found name ps i (update_history dice win (get_or ps i empty_history)) e,
      )
      | inl e ↦ elim (Option-cases (find_empty ps)) [
        | inl f ↦ ground (arith, record_of-missing name ps e)
        | inr (i, f) ↦ ground (
          arith,
          update_players_new i e f,
          record_of-missing name ps e,
          record_of-set_empty name ps i
              (update_history dice win (claim name (get_or ps i empty_history))) e f,
          matches_of_text name (claim name (get_or ps i empty_history)) usable (claim-text i),
        )
      ]
    ]

    -- For a usable name in a well-formed table, the record of any other name stays.
    pub update_players_other :
        (other : List ℕ)
        → text name ≢ text other
        → record_of other (update_players name dice win ps).1 ≡ record_of other ps
    unfolding update_history
    update_players_other other ne = elim (Option-cases (find_player name ps)) [
      | inr (i, e) ↦
          let p = get_or ps i empty_history in
          let m : matches other p ≡ false =
            matches_other name other p ne
              (ground (arith, same_text-eq p.name name, found-matches name ps i e)) in
          ground (
            arith,
            update_players_found i e,
            m,
            record_of-set_other other ps i (update_history dice win p),
          )
      | inl e ↦ elim (Option-cases (find_empty ps)) [
        | inl f ↦ ground (arith, update_players_full e f)
        | inr (i, f) ↦ ground (
          arith,
          update_players_new i e f,
          empty-in_use ps i f,
          record_of-set_other other ps i
              (update_history dice win (claim name (get_or ps i empty_history))),
          matches_other name other (claim name (get_or ps i empty_history)) ne (claim-text i),
        )
      ]
    ]
