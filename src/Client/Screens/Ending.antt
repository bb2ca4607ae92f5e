-- ===== src/Client/Screens/Ending.antt =====
-- The loop that bonus.c, god.c and end.c share: it ends when its key comes, and what every frame keeps
-- holds of all that it has drawn.
use world_boss_raid.Base.{
  ℕ, zero, suc, ◌≤◌, ◌<◌, ◌≡◌, inl, inr, false, Option, none, some, List, arith, ℤ, eqb_ℤ, All,
  Bool-cases,
}
use world_boss_raid.Client.Screens.{Item, Terminal, add_frame, animate}

-- The player presses the key at some time: before each call of `getch` that returns another one, `left`
-- is larger than behind it, and `rand` does not put it off.
pub record IsPressed (terminal : Terminal) (key : ℤ) : Type 0 where
  pub left : terminal.Env → ℕ
  pub closer :
      (e : terminal.Env)
      → eqb_ℤ (terminal.getch e).0 key ≡ false
      → left (terminal.getch e).1 < left e
  pub kept : (e : terminal.Env) → left (terminal.rand e).1 ≤ left e

-- The animation has ended, every frame that it has drawn meets `Q`, and its last state meets `P`.
abbrev pub Ends :
    {S E : Type 0}
    → (List Item → Type 0)
    → (S → Type 0)
    → Option (List (List Item) × S × E)
    → Type 0
Ends Q P none = ⊥
Ends Q P (some (frames, s, e)) = All Q frames × P s

add_frame-Ends :
    {S E : Type 0} (Q : List Item → Type 0) (P : S → Type 0) (drawn : List Item)
    (rest : Option (List (List Item) × S × E))
    → Q drawn
    → Ends Q P rest
    → Ends Q P (add_frame drawn rest)
add_frame-Ends Q P drawn none q h = h
add_frame-Ends Q P drawn (some (frames, s, e)) q h = ((q, h.0), h.1)

module _ (terminal : Terminal) {S : Type 0}
    (frame : S → terminal.Env → List Item × S × terminal.Env) (key : ℤ)
    (pressed : IsPressed terminal key) (Q : List Item → Type 0) (P : S → Type 0) where
  open terminal use {Env}

  pub animate-Ends :
      ((s : S) (e : Env) → P s → Q (frame s e).0 × P (frame s e).1)
      → ((s : S) (e : Env) → pressed.left (frame s e).2 ≤ pressed.left e)
      → (fuel : ℕ) (s : S) (e : Env) → pressed.left e < fuel
      → P s
      → Ends Q P (animate terminal frame fuel key s e)
  unfolding animate
  animate-Ends keep slow zero s e h p = elim h [ ]
  animate-Ends keep slow (suc fuel) s e h p = elim (Bool-cases (eqb_ℤ (terminal.getch e).0 key)) [
    | inl k ↦ rw k (tt, p)
    | inr k ↦
        let (drawn, kept) = keep s (terminal.getch e).1 p in
        rw k (
          add_frame-Ends Q P (frame s (terminal.getch e).1).0 _ drawn (
            animate-Ends keep slow fuel (frame s (terminal.getch e).1).1
              (frame s (terminal.getch e).1).2
              (omega (arith, pressed.closer e k, slow s (terminal.getch e).1)) kept))
  ]
