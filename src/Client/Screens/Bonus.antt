-- ===== src/Client/Screens/Bonus.antt =====
-- src/client/ui/bonus.c: the explosion of a critical hit.
pub mod Sparks
use world_boss_raid.Base.{
  ℕ, zero, suc, ◌+◌, ◌-◌, ◌/◌, ◌%◌, Option, List, [], ◌∷◌, ◌++◌, ℤ, pos, ◌+ℤ◌, ◌-ℤ◌, ◌==◌,
  if◌then◌else◌, length, get_or, set, replicate,
}
use world_boss_raid.Client.Screens.{
  Item, text_at, char_at, codes, Terminal, half, centred, centred_size_t, draw_art, animate,
}

abbrev pub crit_art : List (List ℕ)
crit_art =
    codes "          _ ._  _ , _ ._        "
    ∷ codes "        (_ ' ( `  )_  .__)      "
    ∷ codes "      ( (  (    )   `)  ) _)    "
    ∷ codes "     (__ (_   (_ . _) _) ,__)   "
    ∷ codes "           `~~`\\ ' . /`~~`      "
    ∷ codes "                ;   ;           "
    ∷ codes "                /   \\           "
    ∷ codes "  _____________/_ __ \\_____________ "
    ∷ codes " |                                 |"
    ∷ codes " |   CRITICAL   DAMAGE   !!!       |"
    ∷ codes " |_________________________________|"
    ∷ codes "           \\_/__\\_/             "
    ∷ codes "                                    "
    ∷ codes "     ____  ____  _____ _______ !    "
    ∷ codes "    / ___||  _ \\|_   _|__   __|!    "
    ∷ codes "   | |    | |_) | | |    | |   !    "
    ∷ codes "   | |___ |  _ < _| |_   | |   !    "
    ∷ codes "    \\____||_| \\_\\_____|  |_|   !    "
    ∷ []

abbrev pub max_particles : ℕ
max_particles = 50

-- `life` is set to at least 5 and counted down while it is above zero.
pub record Particle : Type 0 where
  pub y : ℤ
  pub x : ℤ
  pub life : ℕ
  pub ch : ℕ

abbrev pub symbols : List ℕ
symbols = codes "*#@!."

pub record Bonus : Type 0 where
  pub timer : ℕ
  pub particles : List Particle

-- `for(int i=0; i<MAX_PARTICLES; i++) particles[i].life = 0`: the other fields stay what the memory
-- holds.
unfoldable pub clear_lives : List Particle → List Particle
clear_lives [] = []
clear_lives (p ∷ ps) = record p { life = 0 } ∷ clear_lives ps

-- `start_y`
abbrev pub art_row : ℕ → ℤ
art_row rows = half (pos rows -ℤ pos (length crit_art))

abbrev pub damage_hint : List ℕ
damage_hint = codes " MASSIVE DAMAGE DEALT! "

-- The texts at the bottom, the first of them in every fourth frame.
unfoldable pub bonus_hints : ℕ → ℕ → ℕ → List Item
bonus_hints timer rows cols =
    (if timer % 4 == 0
      then (text_at (pos rows -ℤ pos 4) (centred_size_t cols (length damage_hint)) damage_hint ∷ [])
      else [])
    ++ (text_at (pos rows -ℤ pos 2) (centred cols 25) (codes "PRESS [SPACE] TO CONTINUE") ∷ [])

module _ (terminal : Terminal) where
  open terminal use {Env, rand, getmaxyx}

  -- A new particle, from four calls of `rand`.
  unfoldable pub explode : ℤ → ℕ → Env → Particle × Env
  explode start_y cols e =
      let (a, e1) = rand e in
      let (b, e2) = rand e1 in
      let (c, e3) = rand e2 in
      let (d, e4) = rand e3 in
      (
        record {
          y = start_y +ℤ pos (a % length crit_art);
          x = pos (cols / 2) +ℤ pos (b % 40) -ℤ pos 20;
          life = c % 10 + 5;
          ch = get_or symbols (d % 5) 0;
        },
        e4,
      )

  -- The slot at an index, if its particle is over, gets a new one.
  unfoldable pub refill : ℕ → ℤ → ℕ → List Particle → Env → List Particle × Env
  refill idx start_y cols [] e = ([], e)
  refill zero start_y cols (p ∷ ps) e =
      let (fresh, e1) = explode start_y cols e in
      if p.life == 0 then (fresh ∷ ps, e1) else (p ∷ ps, e)
  refill (suc idx) start_y cols (p ∷ ps) e =
      let (ps1, e1) = refill idx start_y cols ps e in (p ∷ ps1, e1)

  -- `for(int k=0; k<5; k++)` with `k` rounds left: a slot at random.
  unfoldable pub spawn : ℕ → ℤ → ℕ → List Particle → Env → List Particle × Env
  spawn zero start_y cols ps e = (ps, e)
  spawn (suc k) start_y cols ps e =
      let (r, e1) = rand e in
      let (ps1, e2) = refill (r % max_particles) start_y cols ps e1 in spawn k start_y cols ps1 e2

  -- A live particle after it is drawn. The first call of `rand` is for its colour.
  unfoldable pub drift : Particle → Env → Particle × Env
  drift p e =
      let (_, e1) = rand e in
      let (a, e2) = rand e1 in
      let (b, e3) = rand e2 in
      (
        record p {
          y = p.y +ℤ (pos (a % 3) -ℤ pos 1);
          x = p.x +ℤ (pos (b % 3) -ℤ pos 1);
          life = p.life - 1;
        },
        e3,
      )

  -- The loop that draws and moves the particles.
  unfoldable pub draw_particles : List Particle → Env → List Item × List Particle × Env
  draw_particles [] e = ([], [], e)
  draw_particles (p ∷ ps) e =
      let (moved, e1) = drift p e in
      let over = p.life == 0 in
      let (items, ps1, e2) = draw_particles ps (if over then e else e1) in
      (
        (if over then items else (char_at p.y p.x p.ch ∷ items)),
        (if over then p else moved) ∷ ps1,
        e2,
      )

  -- One round of the loop.
  unfoldable pub bonus_frame : Bonus → Env → List Item × Bonus × Env
  bonus_frame s e =
      let (rows, cols) = getmaxyx e in
      let (ps, e1) = spawn 5 (art_row rows) cols s.particles e in
      let (items, ps1, e2) = draw_particles ps e1 in
      (
        draw_art (art_row rows) cols crit_art ++ (items ++ bonus_hints s.timer rows cols),
        record { timer = s.timer + 1; particles = ps1 },
        e2,
      )

  -- The screen, with what the memory of the array holds at first.
  unfoldable pub ui_show_bonus_screen :
      List Particle → ℕ → Env → Option (List (List Item) × Bonus × Env)
  ui_show_bonus_screen memory fuel e =
      animate terminal bonus_frame fuel (pos b' ')
        (record { timer = 0; particles = clear_lives memory }) e
