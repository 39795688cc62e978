-- ===== src/Transaction/Ids/Laws.antt =====
-- src/uhs/transaction/transaction.cpp: how the identifiers of outputs and of inputs fit together.
use native.Mathlib.Nat.{add-zero, zero-add}
use cbdc_forensics.Common.{
  Option-cases, inl, inr, ℕ, zero, suc, ◌+◌, ◌≡◌, ap, sym, ◌∙◌, List, [], ◌∷◌, some, arith,
  get_elem?, append_assoc,
}
use cbdc_forensics.Util.Serialization.{u64, hash_codec}
use cbdc_forensics.Transaction.{Output, Input, FullTx}
use cbdc_forensics.Transaction.Crypto.{Crypto}
use cbdc_forensics.Transaction.Messages.{encode_out_point, encode_input, encode_output}
use cbdc_forensics.Transaction.Ids.{
  input_hash, tx_id, input_from_tx, uhs_id_from_output, uhs_ids_from, compact_tx,
}

module _ (c : Crypto) where
  -- An input hashes to the identifier of the output that it names.
  input_hash-eq-uhs_id :
      (id i : ℕ) (out : Output)
      → input_hash c (record { prevout = record { tx_id = id; index = i }; prevout_data = out })
        ≡ uhs_id_from_output c id i out
  unfolding input_hash uhs_id_from_output encode_input encode_out_point
  input_hash-eq-uhs_id id i out =
      ap c.sha256 (append_assoc (hash_codec.encode id) (u64.encode i) (encode_output out))

  get_elem?-uhs_ids_from :
      (id i k : ℕ) (outs : List Output) (out : Output)
      → get_elem? outs k ≡ some out
      → get_elem? (uhs_ids_from c id i outs) k ≡ some (uhs_id_from_output c id (i + k) out)
  unfolding uhs_ids_from
  get_elem?-uhs_ids_from id i k [] out h = ground arith
  get_elem?-uhs_ids_from id i zero (o ∷ outs) out h =
      ground (arith, ap (λ k. uhs_id_from_output c id k o) (add-zero i))
  get_elem?-uhs_ids_from id i (suc k) (o ∷ outs) out h =
      let e : i + suc k ≡ suc i + k = omega arith in
      rw e (get_elem?-uhs_ids_from id (suc i) k outs out h)

  -- An input made from an output of a transaction hashes to the identifier under which the compact
  -- transaction creates that output.
  pub input_from_tx-uhs_outputs :
      (tx : FullTx) (i : ℕ) (inp : Input)
      → input_from_tx c tx i ≡ some inp
      → get_elem? (compact_tx c tx).uhs_outputs i ≡ some (input_hash c inp)
  unfolding input_from_tx compact_tx
  input_from_tx-uhs_outputs tx i inp h = elim (Option-cases (get_elem? tx.outputs i)) [
    | inl missing ↦ ground arith
    | inr (out, e) ↦
        let id = tx_id c tx in
        let made : Input = record {
          prevout = record { tx_id = id; index = i };
          prevout_data = out;
        } in
        let same : made ≡ inp = ground arith in
        get_elem?-uhs_ids_from id 0 i tx.outputs out e
        ∙ ap some (
            ap (λ k. uhs_id_from_output c id k out) (zero-add i)
            ∙ sym (input_hash-eq-uhs_id id i out)
            ∙ ap (input_hash c) same)
  ]
