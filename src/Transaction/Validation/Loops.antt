-- ===== src/Transaction/Validation/Loops.antt =====
-- The shape of the checks of src/uhs/transaction/validation.cpp: return the first error.
use cbdc_forensics.Common.{
  ℕ, suc, ◌+◌, ◌<◌, arith, subst, length, ◌≡◌, refl, ◌↔◌, Option, none, some, List, [], ◌∷◌, All,
}

-- `if(err) { return err; }`, then the checks that follow.
abbrev pub or_else : {E : Type 0} → Option E → Option E → Option E
or_else (some e) rest = some e
or_else none rest = rest

pub or_else-eq_none :
    {E : Type 0} (a b : Option E) → (or_else a b ≡ none) ↔ ((a ≡ none) × (b ≡ none))
or_else-eq_none none b = (λ h. (refl, h), λ h. h.1)
or_else-eq_none (some e) b = (λ h. cc, λ h. h.0)

-- `for(size_t idx = 0; …)` over the elements, from index `idx`.
unfoldable pub check_each : {A E : Type 0} → (ℕ → A → Option E) → ℕ → List A → Option E
check_each f idx [] = none
check_each f idx (x ∷ xs) = or_else (f idx x) (check_each f (suc idx) xs)

-- Every element passes, each at its index.
abbrev pub AllAt : {A : Type 0} → (ℕ → A → Type 0) → ℕ → List A → Type 0
AllAt P i [] = Unit {0}
AllAt P i (x ∷ xs) = P i x × AllAt P (suc i) xs

pub check_each-eq_none :
    {A E : Type 0} (f : ℕ → A → Option E) (i : ℕ) (xs : List A)
    → (check_each f i xs ≡ none) ↔ AllAt (λ j x. f j x ≡ none) i xs
unfolding check_each
check_each-eq_none f i [] = (λ h. tt, λ h. refl)
check_each-eq_none f i (x ∷ xs) =
    let both = or_else-eq_none (f i x) (check_each f (suc i) xs) in
    let rest = check_each-eq_none f (suc i) xs in
    (λ h. ((both.0 h).0, rest.0 (both.0 h).1), λ h. both.1 (h.0, rest.1 h.1))

pub AllAt-map :
    {A : Type 0} {P Q : ℕ → A → Type 0} (f : (i : ℕ) (x : A) → P i x → Q i x) (i : ℕ) (xs : List A)
    → AllAt P i xs
    → AllAt Q i xs
AllAt-map f i [] h = tt
AllAt-map f i (x ∷ xs) h = (f i x h.0, AllAt-map f (suc i) xs h.1)

pub All-AllAt :
    {A : Type 0} {P : A → Type 0} {Q : ℕ → A → Type 0} (f : (i : ℕ) (x : A) → P x → Q i x) (i : ℕ)
    (xs : List A)
    → All P xs
    → AllAt Q i xs
All-AllAt f i [] h = tt
All-AllAt f i (x ∷ xs) h = (f i x h.0, All-AllAt f (suc i) xs h.1)

pub AllAt-pointwise :
    {A : Type 0} (P : ℕ → Type 0) (k : ℕ) (xs : List A)
    → ((i : ℕ) → i < length xs → P (i + k))
    → AllAt (λ i x. P i) k xs
AllAt-pointwise P k [] h = tt
AllAt-pointwise P k (x ∷ xs) h = (
  subst P (omega arith) (h 0 (omega arith)),
  AllAt-pointwise P (suc k) xs (λ i lt. subst P (omega arith) (h (suc i) (omega (arith, lt)))),
)
