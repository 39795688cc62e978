-- ===== src/Transaction/Validation/Accept.antt =====
-- src/uhs/transaction/validation.cpp, `check_tx`: which transactions pass.
use cbdc_forensics.Common.{ℕ, ◌≤◌, ◌≡◌, ◌≢◌, ◌↔◌, List, [], none, arith, length}
use cbdc_forensics.Transaction.{FullTx, Input, Output}
use cbdc_forensics.Transaction.Crypto.{Crypto}
use cbdc_forensics.Transaction.Ids.{tx_id}
use cbdc_forensics.Transaction.Validation.Loops.{
  or_else, or_else-eq_none, check_each, check_each-eq_none, AllAt, AllAt-map, All-AllAt,
}
use cbdc_forensics.Transaction.Validation.Values.{
  IsBalanced, HasU64Values, check_in_out_set-IsBalanced, check_in_out_set_passes,
}
use cbdc_forensics.Transaction.Validation.Inputs.{IsDistinctInputs, check_input_set_iff}
use cbdc_forensics.Transaction.Validation.Witness.{IsAuthorised, check_witness_iff}
use cbdc_forensics.Transaction.Validation.{
  check_tx, check_tx_structure, check_input_count, check_output_count, check_witness_count,
  check_input_set, check_input_at, check_output_at, check_witness_at, check_witness,
  check_in_out_set, witness_at, commitment_at, input_value, output_value,
}

module _ (c : Crypto) where
  -- What a transaction must be, said without the order of the checks.
  pub record IsValidTx (tx : FullTx) : Type 0 where
    pub has_inputs : tx.inputs ≢ []
    pub has_outputs : tx.outputs ≢ []
    pub witnessed : length tx.inputs ≡ length tx.witness
    pub distinct : IsDistinctInputs tx.inputs
    pub balanced : IsBalanced tx
    pub authorised :
        AllAt
          (λ i wit. IsAuthorised c (tx_id c tx) (commitment_at tx i) (witness_at tx i))
          0
          tx.witness

  structure_iff :
      (tx : FullTx)
      → (check_tx_structure tx ≡ none) ↔ (
          (check_input_count tx ≡ none)
          × (check_output_count tx ≡ none)
          × (check_witness_count tx ≡ none)
          × (check_input_set tx ≡ none))
  unfolding check_tx_structure
  structure_iff tx =
      let ins = check_input_count tx in
      let outs = check_output_count tx in
      let wits = check_witness_count tx in
      let set = check_input_set tx in
      let a = or_else-eq_none ins (or_else outs (or_else wits set)) in
      let b = or_else-eq_none outs (or_else wits set) in
      let d = or_else-eq_none wits set in
      (
        λ h.
            let (h₁, t₁) = a.0 h in
            let (h₂, t₂) = b.0 t₁ in let (h₃, h₄) = d.0 t₂ in (h₁, h₂, h₃, h₄),
        λ (h₁, h₂, h₃, h₄). a.1 (h₁, b.1 (h₂, d.1 (h₃, h₄))),
      )

  counts_iff :
      (tx : FullTx)
      → ((check_input_count tx ≡ none) ↔ (tx.inputs ≢ []))
        × ((check_output_count tx ≡ none) ↔ (tx.outputs ≢ []))
        × ((check_witness_count tx ≡ none) ↔ (length tx.inputs ≡ length tx.witness))
  unfolding check_input_count check_output_count check_witness_count
  counts_iff tx = (
    (λ h e. ground arith, λ h. ground arith),
    (λ h e. ground arith, λ h. ground arith),
    (λ h. ground arith, λ h. ground arith),
  )

  inputs_positive : (i : ℕ) (inp : Input) → (check_input_at i inp ≡ none) ↔ (1 ≤ input_value inp)
  unfolding check_input_at
  inputs_positive i inp = (λ h. ground arith, λ h. ground arith)

  outputs_positive :
      (i : ℕ) (out : Output) → (check_output_at i out ≡ none) ↔ (1 ≤ output_value out)
  unfolding check_output_at
  outputs_positive i out = (λ h. ground arith, λ h. ground arith)

  witness_authorised :
      (tx : FullTx) (i : ℕ) (wit : List ℕ)
      → (check_witness_at c tx i wit ≡ none) ↔ (check_witness c tx i ≡ none)
  unfolding check_witness_at
  witness_authorised tx i wit = (λ h. ground arith, λ h. ground arith)

  checks_iff :
      (tx : FullTx)
      → (check_tx c tx ≡ none) ↔ (
          (check_tx_structure tx ≡ none)
          × (check_each check_input_at 0 tx.inputs ≡ none)
          × (check_each check_output_at 0 tx.outputs ≡ none)
          × (check_in_out_set tx ≡ none)
          × (check_each (check_witness_at c tx) 0 tx.witness ≡ none))
  unfolding check_tx
  checks_iff tx =
      let structure = check_tx_structure tx in
      let ins = check_each check_input_at 0 tx.inputs in
      let outs = check_each check_output_at 0 tx.outputs in
      let set = check_in_out_set tx in
      let wits = check_each (check_witness_at c tx) 0 tx.witness in
      let a = or_else-eq_none structure (or_else ins (or_else outs (or_else set wits))) in
      let b = or_else-eq_none ins (or_else outs (or_else set wits)) in
      let d = or_else-eq_none outs (or_else set wits) in
      let e = or_else-eq_none set wits in
      (
        λ h.
            let (h₁, t₁) = a.0 h in
            let (h₂, t₂) = b.0 t₁ in
            let (h₃, t₃) = d.0 t₂ in let (h₄, h₅) = e.0 t₃ in (h₁, h₂, h₃, h₄, h₅),
        λ (h₁, h₂, h₃, h₄, h₅). a.1 (h₁, b.1 (h₂, d.1 (h₃, e.1 (h₄, h₅)))),
      )

  -- A transaction that passes every check is valid.
  pub check_tx-IsValidTx : (tx : FullTx) → HasU64Values tx → check_tx c tx ≡ none → IsValidTx tx
  check_tx-IsValidTx tx u64 h =
      let (structure, _, _, balance, wits) = (checks_iff tx).0 h in
      let (ins, outs, counts, set) = (structure_iff tx).0 structure in
      let (has_ins, has_outs, same) = counts_iff tx in
      record {
        has_inputs = has_ins.0 ins;
        has_outputs = has_outs.0 outs;
        witnessed = same.0 counts;
        distinct = (check_input_set_iff tx).0 set;
        balanced = check_in_out_set-IsBalanced tx u64 balance;
        authorised =
            AllAt-map (λ i wit e. (check_witness_iff c tx i).0 ((witness_authorised tx i wit).0 e))
              0 tx.witness ((check_each-eq_none (check_witness_at c tx) 0 tx.witness).0 wits);
      }

  -- Every valid transaction passes.
  pub IsValidTx-check_tx : (tx : FullTx) → IsValidTx tx → check_tx c tx ≡ none
  IsValidTx-check_tx tx v =
      let (has_ins, has_outs, same) = counts_iff tx in
      (checks_iff tx).1 (
        (structure_iff tx).1 (
          has_ins.1 v.has_inputs,
          has_outs.1 v.has_outputs,
          same.1 v.witnessed,
          (check_input_set_iff tx).1 v.distinct,
        ),
        (check_each-eq_none check_input_at 0 tx.inputs).1 (
            All-AllAt (λ i inp h. (inputs_positive i inp).1 h) 0 tx.inputs
              v.balanced.inputs_positive),
        (check_each-eq_none check_output_at 0 tx.outputs).1 (
            All-AllAt (λ i out h. (outputs_positive i out).1 h) 0 tx.outputs
              v.balanced.outputs_positive),
        check_in_out_set_passes tx v.balanced,
        (check_each-eq_none (check_witness_at c tx) 0 tx.witness).1 (
            AllAt-map (λ i wit a. (witness_authorised tx i wit).1 ((check_witness_iff c tx i).1 a))
              0 tx.witness v.authorised),
      )

  -- For a transaction whose values are 64-bit numbers, `check_tx` returns no error exactly when the
  -- transaction is valid: it has inputs and outputs and a witness for every input, no two inputs
  -- name the same output, no value is zero, the values of the inputs and of the outputs have the
  -- same sum and it fits in 64 bits, and every witness is a public key with the hash its output
  -- commits to and a signature by it of the transaction's identifier.
  pub check_tx_iff : (tx : FullTx) → HasU64Values tx → (check_tx c tx ≡ none) ↔ IsValidTx tx
  check_tx_iff tx u64 = (check_tx-IsValidTx tx u64, IsValidTx-check_tx tx)
