-- ===== src/Base/CString.antt =====
-- The C library's string functions, on buffers of bytes. A buffer is the list of its bytes; the
-- string in it ends before its first zero byte.
use Prim.Native.Nat.{ℕ, zero, suc, ◌≤◌, ◌<◌}
use mathlib.Core.Path.{◌≡◌, refl, ap}
use mathlib.Core.Logic.{◌≢◌}
use mathlib.Core.Bool.{Bool, true, false, ◌&&◌}
use mathlib.Core.List.{List, [], ◌∷◌, ◌++◌}
use native.Mathlib.Omega.{arith}
use world_boss_raid.Base.Tests.{◌==◌}
use world_boss_raid.Base.Lists.{length, get_or, set, take, All}

-- The bytes before the first zero byte.
abbrev pub text : List ℕ → List ℕ
text [] = []
text (zero ∷ bs) = []
text (suc b ∷ bs) = suc b ∷ text bs

-- `strncpy(dst, src, n)`: exactly n bytes are written, and zeros behind the end of `src`.
abbrev pub strncpy : List ℕ → List ℕ → ℕ → List ℕ
strncpy dst src zero = dst
strncpy [] src (suc n) = []
strncpy (d ∷ dst) [] (suc n) = 0 ∷ strncpy dst [] n
strncpy (d ∷ dst) (zero ∷ src) (suc n) = 0 ∷ strncpy dst [] n
strncpy (d ∷ dst) (suc c ∷ src) (suc n) = suc c ∷ strncpy dst src n

-- `strcmp(a, b) == 0`
abbrev pub same_text : List ℕ → List ℕ → Bool
same_text [] [] = true
same_text [] (zero ∷ bs) = true
same_text [] (suc b ∷ bs) = false
same_text (zero ∷ as') [] = true
same_text (zero ∷ as') (zero ∷ bs) = true
same_text (zero ∷ as') (suc b ∷ bs) = false
same_text (suc a ∷ as') [] = false
same_text (suc a ∷ as') (zero ∷ bs) = false
same_text (suc a ∷ as') (suc b ∷ bs) = (a == b) && same_text as' bs

-- `strnlen(s, n)`
abbrev pub strnlen : List ℕ → ℕ → ℕ
strnlen bs zero = 0
strnlen [] (suc n) = 0
strnlen (zero ∷ bs) (suc n) = 0
strnlen (suc b ∷ bs) (suc n) = suc (strnlen bs n)

pub length-strncpy : (dst src : List ℕ) (n : ℕ) → length (strncpy dst src n) ≡ length dst
length-strncpy dst src zero = refl
length-strncpy [] src (suc n) = refl
length-strncpy (d ∷ dst) [] (suc n) = ap suc (length-strncpy dst [] n)
length-strncpy (d ∷ dst) (zero ∷ src) (suc n) = ap suc (length-strncpy dst [] n)
length-strncpy (d ∷ dst) (suc c ∷ src) (suc n) = ap suc (length-strncpy dst src n)

-- The bytes from `n` on stay.
pub get_or-strncpy :
    (dst src : List ℕ) (n i d : ℕ) → n ≤ i → get_or (strncpy dst src n) i d ≡ get_or dst i d
get_or-strncpy dst src zero i d h = refl
get_or-strncpy [] src (suc n) i d h = refl
get_or-strncpy (e ∷ dst) src (suc n) zero d h = absurd (omega arith)
get_or-strncpy (e ∷ dst) [] (suc n) (suc i) d h = get_or-strncpy dst [] n i d (omega arith)
get_or-strncpy (e ∷ dst) (zero ∷ src) (suc n) (suc i) d h =
    get_or-strncpy dst [] n i d (omega arith)
get_or-strncpy (e ∷ dst) (suc c ∷ src) (suc n) (suc i) d h =
    get_or-strncpy dst src n i d (omega arith)

pub same_text-eq : (a b : List ℕ) → same_text a b ≡ true → text a ≡ text b
same_text-eq [] [] h = refl
same_text-eq [] (zero ∷ bs) h = refl
same_text-eq [] (suc b ∷ bs) h = cc
same_text-eq (zero ∷ as') [] h = refl
same_text-eq (zero ∷ as') (zero ∷ bs) h = refl
same_text-eq (zero ∷ as') (suc b ∷ bs) h = cc
same_text-eq (suc a ∷ as') [] h = cc
same_text-eq (suc a ∷ as') (zero ∷ bs) h = cc
same_text-eq (suc a ∷ as') (suc b ∷ bs) h = ground (arith, same_text-eq as' bs)

pub same_text_of_eq : (a b : List ℕ) → text a ≡ text b → same_text a b ≡ true
same_text_of_eq [] [] h = refl
same_text_of_eq [] (zero ∷ bs) h = refl
same_text_of_eq [] (suc b ∷ bs) h = cc
same_text_of_eq (zero ∷ as') [] h = refl
same_text_of_eq (zero ∷ as') (zero ∷ bs) h = refl
same_text_of_eq (zero ∷ as') (suc b ∷ bs) h = cc
same_text_of_eq (suc a ∷ as') [] h = cc
same_text_of_eq (suc a ∷ as') (zero ∷ bs) h = cc
same_text_of_eq (suc a ∷ as') (suc b ∷ bs) h = ground (arith, same_text_of_eq as' bs)

text-strncpy_nil : (dst : List ℕ) (n : ℕ) → 0 < n → text (strncpy dst [] n) ≡ []
text-strncpy_nil dst zero h = elim h [ ]
text-strncpy_nil [] (suc n) h = refl
text-strncpy_nil (d ∷ dst) (suc n) h = refl

-- A text that fits, with the zero byte at `n`, is copied whole.
pub text-strncpy :
    (dst src : List ℕ) (n : ℕ)
    → length (text src) ≤ n
    → n < length dst
    → get_or dst n 1 ≡ 0
    → text (strncpy dst src n) ≡ text src
text-strncpy [] src n h k z = absurd (omega arith)
text-strncpy (zero ∷ dst) [] zero h k z = refl
text-strncpy (zero ∷ dst) (zero ∷ src) zero h k z = refl
text-strncpy (zero ∷ dst) (suc c ∷ src) zero h k z = absurd (omega arith)
text-strncpy (suc d ∷ dst) src zero h k z = absurd (omega arith)
text-strncpy (d ∷ dst) [] (suc n) h k z = refl
text-strncpy (d ∷ dst) (zero ∷ src) (suc n) h k z = refl
text-strncpy (d ∷ dst) (suc c ∷ src) (suc n) h k z =
    ap (λ bs. suc c ∷ bs) (text-strncpy dst src n (omega arith) (omega arith) z)

-- The copy that the program ends with `dst[n] = '\0'`.
pub text-set-strncpy :
    (dst src : List ℕ) (n : ℕ)
    → length (text src) ≤ n
    → n < length dst
    → text (set (strncpy dst src n) n 0) ≡ text src
text-set-strncpy [] src n h k = absurd (omega arith)
text-set-strncpy (d ∷ dst) [] zero h k = refl
text-set-strncpy (d ∷ dst) (zero ∷ src) zero h k = refl
text-set-strncpy (d ∷ dst) (suc c ∷ src) zero h k = absurd (omega arith)
text-set-strncpy (d ∷ dst) [] (suc n) h k = refl
text-set-strncpy (d ∷ dst) (zero ∷ src) (suc n) h k = refl
text-set-strncpy (d ∷ dst) (suc c ∷ src) (suc n) h k =
    ap (λ bs. suc c ∷ bs) (text-set-strncpy dst src n (omega arith) (omega arith))

-- A text that a zero byte follows.
-- The copy is the text of the first `n` bytes of the source.
pub text-set-strncpy-take :
    (dst src : List ℕ) (n : ℕ)
    → n < length dst
    → text (set (strncpy dst src n) n 0) ≡ text (take n src)
text-set-strncpy-take [] src n h = absurd (omega arith)
text-set-strncpy-take (d ∷ dst) src zero h = refl
text-set-strncpy-take (d ∷ dst) [] (suc n) h = refl
text-set-strncpy-take (d ∷ dst) (zero ∷ src) (suc n) h = refl
text-set-strncpy-take (d ∷ dst) (suc c ∷ src) (suc n) h =
    ap (λ l. suc c ∷ l) (text-set-strncpy-take dst src n (omega arith))

pub text_of_nonzero : (bs rest : List ℕ) → All (λ b. b ≢ 0) bs → text (bs ++ (0 ∷ rest)) ≡ bs
text_of_nonzero [] rest h = refl
text_of_nonzero (zero ∷ bs) rest h = absurd (h.0 refl)
text_of_nonzero (suc b ∷ bs) rest h = ap (λ l. suc b ∷ l) (text_of_nonzero bs rest h.1)
