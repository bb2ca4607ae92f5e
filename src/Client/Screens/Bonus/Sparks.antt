-- ===== src/Client/Screens/Bonus/Sparks.antt =====
-- The particles of the explosion: what the memory of the array held before is never drawn.
use world_boss_raid.Base.{
  ℕ, zero, suc, ◌%◌, ◌≤◌, ◌<◌, ◌≡◌, refl, ◌⊎◌, inl, inr, List, [], ◌∷◌, arith, ℤ, pos, ◌+ℤ◌, ◌==◌,
  get_or, All, Bool-cases,
}
use world_boss_raid.Client.Screens.{Item, text_at, char_at, hline_at, Terminal, draw_art}
use world_boss_raid.Client.Screens.Ending.{IsPressed, Ends, animate-Ends}
use world_boss_raid.Client.Screens.Place.{All-append}
use world_boss_raid.Client.Screens.Bonus.{
  Particle, Bonus, symbols, crit_art, art_row, bonus_hints, clear_lives, explode, refill, spawn,
  drift, draw_particles, bonus_frame, ui_show_bonus_screen,
}

-- One of the five characters of a particle.
abbrev pub IsSymbol : ℕ → Type 0
IsSymbol c = (i : ℕ) × (i < 5) × (get_or symbols i 0 ≡ c)

-- A particle that is over, or one with a character of `symbols` and at most 14 frames left.
abbrev pub IsSpark : Particle → Type 0
IsSpark p = (p.life ≡ 0) ⊎ (IsSymbol p.ch × (p.life ≤ 14))

-- A character that is drawn alone is one of `symbols`.
abbrev pub DrawsSymbol : Item → Type 0
DrawsSymbol (text_at y x bs) = Unit
DrawsSymbol (char_at y x ch) = IsSymbol ch
DrawsSymbol (hline_at y x ch n) = Unit

clear_lives-IsSpark : (memory : List Particle) → All IsSpark (clear_lives memory)
unfolding clear_lives
clear_lives-IsSpark [] = tt
clear_lives-IsSpark (p ∷ ps) = (inl refl, clear_lives-IsSpark ps)

draw_art-DrawsSymbol :
    (y : ℤ) (cols : ℕ) (lines : List (List ℕ)) → All DrawsSymbol (draw_art y cols lines)
unfolding draw_art
draw_art-DrawsSymbol y cols [] = tt
draw_art-DrawsSymbol y cols (line ∷ lines) = (tt, draw_art-DrawsSymbol (y +ℤ pos 1) cols lines)

bonus_hints-DrawsSymbol : (timer rows cols : ℕ) → All DrawsSymbol (bonus_hints timer rows cols)
unfolding bonus_hints
bonus_hints-DrawsSymbol timer rows cols = elim (Bool-cases (timer % 4 == 0)) [
  | inl k ↦ rw k (tt, (tt, tt))
  | inr k ↦ rw k (tt, tt)
]

module _ (terminal : Terminal) where
  open terminal use {Env, rand, getmaxyx}

  explode-IsSpark : (y : ℤ) (cols : ℕ) (e : Env) → IsSpark (explode terminal y cols e).0
  unfolding explode
  explode-IsSpark y cols e =
      inr (((rand (rand (rand (rand e).1).1).1).0 % 5, omega arith, refl), omega arith)

  refill-IsSpark :
      (i : ℕ) (y : ℤ) (cols : ℕ) (ps : List Particle) (e : Env)
      → All IsSpark ps
      → All IsSpark (refill terminal i y cols ps e).0
  unfolding refill
  refill-IsSpark i y cols [] e v = tt
  refill-IsSpark zero y cols (p ∷ ps) e v = elim (Bool-cases (p.life == 0)) [
    | inl k ↦ rw k (explode-IsSpark y cols e, v.1)
    | inr k ↦ rw k v
  ]
  refill-IsSpark (suc i) y cols (p ∷ ps) e v = (v.0, refill-IsSpark i y cols ps e v.1)

  spawn-IsSpark :
      (k : ℕ) (y : ℤ) (cols : ℕ) (ps : List Particle) (e : Env)
      → All IsSpark ps
      → All IsSpark (spawn terminal k y cols ps e).0
  unfolding spawn
  spawn-IsSpark zero y cols ps e v = v
  spawn-IsSpark (suc k) y cols ps e v =
      spawn-IsSpark k y cols _ _ (refill-IsSpark ((rand e).0 % 50) y cols ps (rand e).1 v)

  drift-IsSpark :
      (p : Particle) (e : Env) → IsSymbol p.ch → p.life ≤ 14 → IsSpark (drift terminal p e).0
  unfolding drift
  drift-IsSpark p e c h = inr (c, omega arith)

  draw_particles-DrawsSymbol :
      (ps : List Particle) (e : Env)
      → All IsSpark ps
      → All DrawsSymbol (draw_particles terminal ps e).0
        × All IsSpark (draw_particles terminal ps e).1
  unfolding draw_particles
  draw_particles-DrawsSymbol [] e v = (tt, tt)
  draw_particles-DrawsSymbol (p ∷ ps) e v = elim (Bool-cases (p.life == 0)) [
    | inl k ↦ let (items, kept) = draw_particles-DrawsSymbol ps e v.1 in rw k (items, (v.0, kept))
    | inr k ↦
        let (c, h) : IsSymbol p.ch × (p.life ≤ 14) = elim v.0 [
          | inl over ↦ absurd (ground (arith, k, over))
          | inr live ↦ live
        ] in
        let (items, kept) = draw_particles-DrawsSymbol ps (drift terminal p e).1 v.1 in
        rw k ((c, items), (drift-IsSpark p e c h, kept))
  ]

  bonus_frame-DrawsSymbol :
      (s : Bonus) (e : Env)
      → All IsSpark s.particles
      → All DrawsSymbol (bonus_frame terminal s e).0
        × All IsSpark (bonus_frame terminal s e).1.particles
  unfolding bonus_frame
  bonus_frame-DrawsSymbol s e v =
      let (rows, cols) = getmaxyx e in
      let (ps, e1) = spawn terminal 5 (art_row rows) cols s.particles e in
      let (items, kept) =
        draw_particles-DrawsSymbol ps e1 (spawn-IsSpark 5 (art_row rows) cols s.particles e v) in
      (
        All-append DrawsSymbol (draw_art (art_row rows) cols crit_art) _
            (draw_art-DrawsSymbol (art_row rows) cols crit_art)
            (All-append DrawsSymbol _ _ items (bonus_hints-DrawsSymbol s.timer rows cols)),
        kept,
      )

  module _ (key : ℤ) (pressed : IsPressed terminal key) where
    explode-left :
        (y : ℤ) (cols : ℕ) (e : Env) → pressed.left (explode terminal y cols e).1 ≤ pressed.left e
    unfolding explode
    explode-left y cols e = omega (
      arith,
      pressed.kept e,
      pressed.kept (rand e).1,
      pressed.kept (rand (rand e).1).1,
      pressed.kept (rand (rand (rand e).1).1).1,
    )

    refill-left :
        (i : ℕ) (y : ℤ) (cols : ℕ) (ps : List Particle) (e : Env)
        → pressed.left (refill terminal i y cols ps e).1 ≤ pressed.left e
    unfolding refill
    refill-left i y cols [] e = omega arith
    refill-left zero y cols (p ∷ ps) e = ground (arith, explode-left y cols e)
    refill-left (suc i) y cols (p ∷ ps) e = refill-left i y cols ps e

    spawn-left :
        (k : ℕ) (y : ℤ) (cols : ℕ) (ps : List Particle) (e : Env)
        → pressed.left (spawn terminal k y cols ps e).1 ≤ pressed.left e
    unfolding spawn
    spawn-left zero y cols ps e = omega arith
    spawn-left (suc k) y cols ps e =
        let (ps1, e2) = refill terminal ((rand e).0 % 50) y cols ps (rand e).1 in
        omega (
          arith,
          pressed.kept e,
          refill-left ((rand e).0 % 50) y cols ps (rand e).1,
          spawn-left k y cols ps1 e2,
        )

    drift-left : (p : Particle) (e : Env) → pressed.left (drift terminal p e).1 ≤ pressed.left e
    unfolding drift
    drift-left p e =
        omega (arith, pressed.kept e, pressed.kept (rand e).1, pressed.kept (rand (rand e).1).1)

    draw_particles-left :
        (ps : List Particle) (e : Env)
        → pressed.left (draw_particles terminal ps e).2 ≤ pressed.left e
    unfolding draw_particles
    draw_particles-left [] e = omega arith
    draw_particles-left (p ∷ ps) e = ground (
      arith,
      drift-left p e,
      draw_particles-left ps e,
      draw_particles-left ps (drift terminal p e).1,
    )

    bonus_frame-left :
        (s : Bonus) (e : Env) → pressed.left (bonus_frame terminal s e).2 ≤ pressed.left e
    unfolding bonus_frame
    bonus_frame-left s e =
        let (rows, cols) = getmaxyx e in
        let (ps, e1) = spawn terminal 5 (art_row rows) cols s.particles e in
        omega (arith, spawn-left 5 (art_row rows) cols s.particles e, draw_particles-left ps e1)

  -- The screen of a critical hit, whatever the memory of the array holds at first and whatever the
  -- size of the window, if the player presses the space at some time and the fuel covers the calls of
  -- getch before it: the animation ends, and each character of a particle that it has drawn is one of
  -- the five of `symbols`; at the end each particle is over or has at most 14 frames left.
  pub ui_show_bonus_screen-DrawsSymbol :
      (pressed : IsPressed terminal (pos b' ')) (memory : List Particle) (fuel : ℕ) (e : Env)
      → pressed.left e < fuel
      → Ends
          (All DrawsSymbol)
          (λ s. All IsSpark s.particles)
          (ui_show_bonus_screen terminal memory fuel e)
  unfolding ui_show_bonus_screen
  ui_show_bonus_screen-DrawsSymbol pressed memory fuel e h =
      animate-Ends terminal (bonus_frame terminal) (pos b' ') pressed (All DrawsSymbol)
        (λ s. All IsSpark s.particles) bonus_frame-DrawsSymbol (bonus_frame-left (pos b' ') pressed)
        fuel _ e h (clear_lives-IsSpark memory)
