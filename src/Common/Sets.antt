-- ===== src/Common/Sets.antt =====
-- `std::unordered_set` of hashes as a list without repetition; the order is not observed.
use Prim.Native.Nat.{ℕ}
use mathlib.Core.Path.{◌≡◌, refl}
use mathlib.Core.Bool.{Bool, true, false, ◌||◌}
use mathlib.Core.List.{List, [], ◌∷◌, ◌++◌}
use native.Mathlib.Omega.{arith}
use cbdc_forensics.Common.Tests.{◌==◌, if◌then◌else◌}

-- `find(x) != end()`
unfoldable pub member : ℕ → List ℕ → Bool
member x [] = false
member x (y ∷ s) = x == y || member x s

-- `emplace`, `insert`: an element that is there stays.
unfoldable pub emplace : ℕ → List ℕ → List ℕ
emplace x [] = x ∷ []
emplace x (y ∷ s) = let rest = emplace x s in if x == y then y ∷ s else y ∷ rest

-- `erase`
unfoldable pub erase : ℕ → List ℕ → List ℕ
erase x [] = []
erase x (y ∷ s) = let rest = erase x s in if x == y then rest else y ∷ rest

-- `insert(first, last)`
unfoldable pub emplace_all : List ℕ → List ℕ → List ℕ
emplace_all [] s = s
emplace_all (x ∷ xs) s = emplace_all xs (emplace x s)

pub member-emplace :
    (y x : ℕ) (s : List ℕ) → member y (emplace x s) ≡ (if y == x then true else member y s)
unfolding emplace member
member-emplace y x [] = ground arith
member-emplace y x (z ∷ s) = ground (arith, member-emplace y x s)

pub member-erase :
    (y x : ℕ) (s : List ℕ) → member y (erase x s) ≡ (if y == x then false else member y s)
unfolding erase member
member-erase y x [] = ground arith
member-erase y x (z ∷ s) = ground (arith, member-erase y x s)

pub member-append :
    (y : ℕ) (s t : List ℕ) → member y (s ++ t) ≡ (if member y s then true else member y t)
unfolding member
member-append y [] t = refl
member-append y (z ∷ s) t = ground (arith, member-append y s t)

pub member-emplace_all :
    (y : ℕ) (xs s : List ℕ)
    → member y (emplace_all xs s) ≡ (if member y xs then true else member y s)
unfolding emplace_all member
member-emplace_all y [] s = refl
member-emplace_all y (x ∷ xs) s =
    ground (arith, member-emplace_all y xs (emplace x s), member-emplace y x s)

-- No element is listed twice.
abbrev pub IsDistinct : List ℕ → Type 0
IsDistinct [] = Unit {0}
IsDistinct (x ∷ s) = (member x s ≡ false) × IsDistinct s

pub emplace-IsDistinct : (x : ℕ) (s : List ℕ) → IsDistinct s → IsDistinct (emplace x s)
unfolding emplace member
emplace-IsDistinct x [] h = (refl, tt)
emplace-IsDistinct x (y ∷ s) h = ground (arith, emplace-IsDistinct x s h.1, member-emplace y x s)

pub erase-IsDistinct : (x : ℕ) (s : List ℕ) → IsDistinct s → IsDistinct (erase x s)
unfolding erase member
erase-IsDistinct x [] h = tt
erase-IsDistinct x (y ∷ s) h = ground (arith, erase-IsDistinct x s h.1, member-erase y x s)

pub erase_absent : (x : ℕ) (s : List ℕ) → member x s ≡ false → erase x s ≡ s
unfolding erase member
erase_absent x [] h = refl
erase_absent x (y ∷ s) h = ground (arith, erase_absent x s)

-- Each side has the elements of the other.
abbrev pub SameSet : List ℕ → List ℕ → Type 0
SameSet s t = (x : ℕ) → member x s ≡ member x t

pub ruleset set_laws = (member-emplace, member-erase, member-append, member-emplace_all)
