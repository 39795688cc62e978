-- ===== src/Transaction/Validation/Inputs.antt =====
-- src/uhs/transaction/validation.cpp, `check_input_set`: the outpoints of the inputs.
use cbdc_forensics.Common.{
  All, All-map, All-map_both, ◌≢◌, ℕ, suc, ◌≡◌, refl, ◌↔◌, false, inl, inr, List, [], ◌∷◌, ◌++◌,
  All-prefix, none, arith, Bool-cases,
}
use cbdc_forensics.Transaction.{OutPoint, Input, FullTx}
use cbdc_forensics.Transaction.Validation.{seen, check_input_set_from, check_input_set}

-- The list holds no out-point twice, nor one of those met before.
abbrev pub AreFresh : List OutPoint → List Input → Type 0
AreFresh met [] = Unit {0}
AreFresh met (inp ∷ rest) = (seen inp.prevout met ≡ false) × AreFresh (inp.prevout ∷ met) rest

pub check_input_set_from-eq_none :
    (met : List OutPoint) (idx : ℕ) (inps : List Input)
    → (check_input_set_from met idx inps ≡ none) ↔ AreFresh met inps
unfolding check_input_set_from
check_input_set_from-eq_none met idx [] = (λ h. tt, λ h. refl)
check_input_set_from-eq_none met idx (inp ∷ rest) =
    let more = check_input_set_from-eq_none (inp.prevout ∷ met) (suc idx) rest in
    elim (Bool-cases (seen inp.prevout met)) [
      | inl old ↦ (λ h. ground arith, λ h. ground arith)
      | inr new ↦ (λ h. (new, more.0 (rw new at h)), λ h. rw new (more.1 h.1))
    ]

-- No two inputs name the same output.
abbrev pub IsDistinctInputs : List Input → Type 0
IsDistinctInputs [] = Unit {0}
IsDistinctInputs (inp ∷ rest) =
    All (λ other. other.prevout ≢ inp.prevout) rest × IsDistinctInputs rest

seen_cons :
    (p q : OutPoint) (met : List OutPoint)
    → (seen p (q ∷ met) ≡ false) ↔ ((p ≢ q) × (seen p met ≡ false))
unfolding seen
seen_cons p q met = (λ h. (ground arith, ground arith), λ h. ground arith)

AreFresh-iff :
    (met : List OutPoint) (inps : List Input)
    → AreFresh met inps ↔ (All (λ inp. seen inp.prevout met ≡ false) inps × IsDistinctInputs inps)
AreFresh-iff met [] = (λ h. (tt, tt), λ h. tt)
AreFresh-iff met (inp ∷ rest) =
    let ih = AreFresh-iff (inp.prevout ∷ met) rest in
    let split = λ (b : Input). seen_cons b.prevout inp.prevout met in
    (
      λ h.
          let (apart, distinct) = ih.0 h.1 in
          (
            (h.0, All-map (λ b e. ((split b).0 e).1) rest apart),
            (All-map (λ b e. ((split b).0 e).0) rest apart, distinct),
          ),
      λ (all, distinct). (
        all.0,
        ih.1 (All-map_both (λ b e k. (split b).1 (e, k)) rest distinct.0 all.1, distinct.1),
      ),
    )

pub distinct_prefix : (xs ys : List Input) → IsDistinctInputs (xs ++ ys) → IsDistinctInputs xs
distinct_prefix [] ys h = tt
distinct_prefix (x ∷ xs) ys h =
    (All-prefix (λ other. other.prevout ≢ x.prevout) xs ys h.0, distinct_prefix xs ys h.1)

-- The check of the input set passes exactly when no two inputs name the same output.
pub check_input_set_iff : (tx : FullTx) → (check_input_set tx ≡ none) ↔ IsDistinctInputs tx.inputs
unfolding check_input_set seen
check_input_set_iff tx =
    let loop = check_input_set_from-eq_none [] 0 tx.inputs in
    let fresh = AreFresh-iff [] tx.inputs in
    (λ h. (fresh.0 (loop.0 h)).1, λ h. loop.1 (fresh.1 (none_seen tx.inputs, h)))
  where
    none_seen : (inps : List Input) → All (λ inp. seen inp.prevout [] ≡ false) inps
    none_seen [] = tt
    none_seen (inp ∷ rest) = (refl, none_seen rest)
