-- ===== src/Transaction/Validation/Values.antt =====
-- src/uhs/transaction/validation.cpp, `check_in_out_set`: the totals of 64 bits.
use native.Mathlib.Nat.{add_assoc}
use cbdc_forensics.Common.{
  ℕ, ◌+◌, ◌%◌, ◌^◌, ◌<◌, ◌≤◌, ◌≡◌, false, inl, inr, List, [], ◌∷◌, none, some, arith, All, sum_by,
  leb, Bool-cases, Option-cases,
}
use cbdc_forensics.Transaction.{FullTx}
use cbdc_forensics.Transaction.Validation.{add_values, check_in_out_set, input_value, output_value}

module _ {A : Type 0} (value : A → ℕ) where
  -- The test of the loop fails exactly when the value is not zero and the sum does not wrap.
  step_grows :
      (total v : ℕ)
      → total < 2 ^ 64
      → v < 2 ^ 64
      → leb ((total + v) % 2 ^ 64) total ≡ false
      → (1 ≤ v) × (total + v < 2 ^ 64) × ((total + v) % 2 ^ 64 ≡ total + v)
  step_grows total v ht hv h = (ground arith, ground arith, ground arith)

  step_fits :
      (total v : ℕ)
      → 1 ≤ v
      → total + v < 2 ^ 64
      → (leb ((total + v) % 2 ^ 64) total ≡ false) × ((total + v) % 2 ^ 64 ≡ total + v)
  step_fits total v hv h = (ground arith, omega arith)

  pub add_values-eq_some :
      (total : ℕ) (xs : List A) (t : ℕ)
      → total < 2 ^ 64
      → All (λ x. value x < 2 ^ 64) xs
      → add_values value total xs ≡ some t
      → All (λ x. 1 ≤ value x) xs × (t ≡ total + sum_by value xs) × (t < 2 ^ 64)
  unfolding add_values
  add_values-eq_some total [] t h hs e = (tt, ground arith, ground arith)
  add_values-eq_some total (x ∷ xs) t h hs e =
      elim (Bool-cases (leb ((total + value x) % 2 ^ 64) total)) [
        | inl overflow ↦ ground arith
        | inr fits ↦
            let (pos, below, same) = step_grows total (value x) h hs.0 fits in
            let e' : add_values value (total + value x) xs ≡ some t = rw (fits, same) at e in
            let (all, sum, lim) = add_values-eq_some (total + value x) xs t below hs.1 e' in
            ((pos, all), omega arith, lim)
      ]

  pub add_values_fits :
      (total : ℕ) (xs : List A)
      → All (λ x. 1 ≤ value x) xs
      → total + sum_by value xs < 2 ^ 64
      → add_values value total xs ≡ some (total + sum_by value xs)
  unfolding add_values
  add_values_fits total [] hs h = ground arith
  add_values_fits total (x ∷ xs) hs h =
      let (fits, same) = step_fits total (value x) hs.0 (omega arith) in
      rw (fits, same, ← add_assoc) (add_values_fits (total + value x) xs hs.1 (omega arith))

abbrev pub HasU64Values : FullTx → Type 0
HasU64Values tx =
    All (λ inp. input_value inp < 2 ^ 64) tx.inputs
    × All (λ out. output_value out < 2 ^ 64) tx.outputs

-- The totals are equal and fit in 64 bits, and no value is zero.
pub record IsBalanced (tx : FullTx) : Type 0 where
  pub inputs_positive : All (λ inp. 1 ≤ input_value inp) tx.inputs
  pub outputs_positive : All (λ out. 1 ≤ output_value out) tx.outputs
  pub equal : sum_by input_value tx.inputs ≡ sum_by output_value tx.outputs
  pub fits : sum_by input_value tx.inputs < 2 ^ 64

totals_balance :
    (tx : FullTx) (a b : ℕ)
    → HasU64Values tx
    → add_values input_value 0 tx.inputs ≡ some a
    → add_values output_value 0 tx.outputs ≡ some b
    → a ≡ b
    → IsBalanced tx
totals_balance tx a b h ea eb same =
    let (pin, sin, lin) = add_values-eq_some input_value 0 tx.inputs a (omega arith) h.0 ea in
    let (pout, sout, lout) = add_values-eq_some output_value 0 tx.outputs b (omega arith) h.1 eb in
    record {
      inputs_positive = pin;
      outputs_positive = pout;
      equal = omega arith;
      fits = omega arith;
    }

pub check_in_out_set-IsBalanced :
    (tx : FullTx) → HasU64Values tx → check_in_out_set tx ≡ none → IsBalanced tx
unfolding check_in_out_set
check_in_out_set-IsBalanced tx h e = elim (Option-cases (add_values input_value 0 tx.inputs)) [
  | inl over ↦ ground arith
  | inr (a, ea) ↦ elim (Option-cases (add_values output_value 0 tx.outputs)) [
    | inl over ↦ ground arith
    | inr (b, eb) ↦ totals_balance tx a b h ea eb (ground arith)
  ]
]

pub check_in_out_set_passes : (tx : FullTx) → IsBalanced tx → check_in_out_set tx ≡ none
unfolding check_in_out_set
check_in_out_set_passes tx h = ground (
  arith,
  add_values_fits input_value 0 tx.inputs h.inputs_positive (omega (arith, h.fits)),
  add_values_fits output_value 0 tx.outputs h.outputs_positive (omega (arith, h.fits, h.equal)),
  h.equal,
)
