-- ===== src/Log/Filename.antt =====
-- The file name in a line.
use world_boss_raid.Base.{
  ℕ, ◌≡◌, ◌≢◌, refl, ap, ◌⊎◌, inl, inr, Bool, true, false, Option, none, some, List, [], ◌∷◌, ◌++◌,
  arith, ◌==◌, if◌then◌else◌, All,
}
use world_boss_raid.Log.{after_last_slash, get_filename}

abbrev pub HasNoSlash : List ℕ → Type 0
HasNoSlash = All (λ c. c ≢ b'/')

-- The last component of a path.
abbrev pub IsLastComponent : List ℕ → List ℕ → Type 0
IsLastComponent path name =
    HasNoSlash name × ((path ≡ name) ⊎ ((directory : List ℕ) × (path ≡ directory ++ (b'/' ∷ name))))

-- What the search for the last slash has found.
abbrev IsFound : List ℕ → Option (List ℕ) → Type 0
IsFound path none = HasNoSlash path
IsFound path (some name) =
    HasNoSlash name × ((directory : List ℕ) × (path ≡ directory ++ (b'/' ∷ name)))

after_last_slash-IsFound : (path : List ℕ) → IsFound path (after_last_slash path)
unfolding after_last_slash
after_last_slash-IsFound [] = tt
after_last_slash-IsFound (c ∷ cs) = go (after_last_slash cs) (after_last_slash-IsFound cs)
  where
    at_head :
        HasNoSlash cs
        → (b : Bool) → (c == b'/') ≡ b
        → IsFound (c ∷ cs) (if b then some cs else none)
    at_head h true e = (h, ([], ground arith))
    at_head h false e = (λ q. ground arith, h)

    go :
        (found : Option (List ℕ))
        → IsFound cs found
        → IsFound (c ∷ cs) (elim found as (λ _. Option (List ℕ)) [
          | some rest ↦ some rest
          | none ↦ if c == b'/' then some cs else none
        ])
    go none h = at_head h (c == b'/') refl
    go (some name) (h, (directory, e)) = (h, (c ∷ directory, ap (λ l. c ∷ l) e))

-- get_filename returns the last component of any path: it has no slash, and the path is the name
-- itself, or some directory, a slash and the name.
pub get_filename-IsLastComponent : (path : List ℕ) → IsLastComponent path (get_filename path)
unfolding get_filename
get_filename-IsLastComponent path = go (after_last_slash path) (after_last_slash-IsFound path)
  where
    go :
        (found : Option (List ℕ))
        → IsFound path found
        → IsLastComponent path (elim found as (λ _. List ℕ) [ some rest ↦ rest | none ↦ path ])
    go none h = (h, inl refl)
    go (some name) (h, found) = (h, inr found)
