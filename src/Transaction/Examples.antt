-- ===== src/Transaction/Examples.antt =====
-- Tests of the models of src/uhs/transaction, and the theorems at concrete inputs.
use cbdc_forensics.Common.{
  ℕ, ◌-◌, ◌^◌, ◌≡◌, refl, ◌↔◌, ◌⊎◌, true, [], ◌∷◌, ◌++◌, none, some, arith, get_elem?, member, find,
}
use cbdc_forensics.Util.Serialization.Bytes.{le_bytes, from_le}
use cbdc_forensics.Util.Serialization.{encode_vector, encode_items}
use cbdc_forensics.Transaction.{CompactTx}
use cbdc_forensics.Transaction.Payment.{payment_output, unsigned, payment}
use cbdc_forensics.Transaction.Toy.{toy, toy-IsSigner}
use cbdc_forensics.Transaction.Messages.{
  encode_input, encode_out_point, encode_output, encode_full_tx, decode_full_tx, encode_compact_tx,
  decode_compact_tx,
}
use cbdc_forensics.Transaction.Messages.Laws.{
  IsFullTx, IsCompactTx, decode-encode_full_tx, decode-encode_compact_tx,
}
use cbdc_forensics.Transaction.Ids.{tx_id, input_hash, input_from_tx, compact_tx}
use cbdc_forensics.Transaction.Ids.Laws.{input_from_tx-uhs_outputs}
use cbdc_forensics.Transaction.Ids.Collision.{Collision, tx_id-eq, uhs_id_from_output-eq}
use cbdc_forensics.Transaction.Ids.Attestation.{
  IsAttested, attest, check_attestations_iff, check_attestations-attest,
}
use cbdc_forensics.Transaction.Validation.{check_tx, check_attestations, tx_error, value_overflow}
use cbdc_forensics.Transaction.Validation.Loops.{check_each}
use cbdc_forensics.Transaction.Validation.Accept.{IsValidTx, check_tx_iff}

-- Two outputs whose sum wraps.
overflow_fails :
    check_tx toy (record payment { outputs = payment_output (2 ^ 64 - 1) ∷ payment_output 6 ∷ [] })
    ≡ some (tx_error value_overflow)
unfolding check_tx from_le check_each tx_id encode_vector encode_items encode_input encode_out_point
    encode_output le_bytes
overflow_fails = refl

check_tx_iff_example : (check_tx toy payment ≡ none) ↔ IsValidTx toy payment
check_tx_iff_example = check_tx_iff toy payment (omega arith)

input_from_tx-uhs_outputs_example :
    get_elem? (compact_tx toy payment).uhs_outputs 1
    ≡ some (
        input_hash toy
          (record { prevout = record { tx_id = 47; index = 1 }; prevout_data = payment_output 2 }))
unfolding input_from_tx tx_id encode_vector encode_items encode_input encode_out_point encode_output
    le_bytes
input_from_tx-uhs_outputs_example = input_from_tx-uhs_outputs toy payment 1 _ refl

payment-IsFullTx : IsFullTx payment
payment-IsFullTx = omega arith

decode-encode_full_tx_example :
    decode_full_tx (encode_full_tx payment ++ (1 ∷ [])) ≡ some (payment, 1 ∷ [])
decode-encode_full_tx_example = decode-encode_full_tx payment (1 ∷ []) payment-IsFullTx

-- A compact transaction that the sentinel with key 21 has attested.
abbrev settled : CompactTx
settled = record {
  id = 47;
  inputs = 21 ∷ [];
  uhs_outputs = 30 ∷ 31 ∷ [];
  attestations = (21, 160) ∷ [];
}

settled-IsCompactTx : IsCompactTx settled
unfolding find
settled-IsCompactTx = record {
  id = omega arith;
  inputs = omega arith;
  uhs_outputs = omega arith;
  attestations = (omega arith, omega arith, refl, tt);
  count = omega arith;
}

decode-encode_compact_tx_example :
    decode_compact_tx (encode_compact_tx settled ++ []) ≡ some (settled, [])
decode-encode_compact_tx_example = decode-encode_compact_tx settled [] settled-IsCompactTx

tx_id-eq_example :
    ((unsigned.inputs ≡ payment.inputs) × (unsigned.outputs ≡ payment.outputs)) ⊎ Collision toy
tx_id-eq_example =
    tx_id-eq toy unsigned payment (omega arith) payment-IsFullTx (unfold tx_id in refl)

uhs_id_from_output-eq_example :
    (((◌≡◌ {A = ℕ} 47 47) × (◌≡◌ {A = ℕ} 1 1) × (payment_output 2 ≡ payment_output 2)))
    ⊎ Collision toy
uhs_id_from_output-eq_example =
    uhs_id_from_output-eq toy 47 47 1 1 (payment_output 2) (payment_output 2) (omega arith)
      (omega arith) (omega arith) (omega arith) (omega arith) (omega arith) refl

check_attestations_iff_example :
    (check_attestations toy settled (21 ∷ []) 1 ≡ true) ↔ IsAttested toy settled (21 ∷ []) 1
check_attestations_iff_example = check_attestations_iff toy settled (21 ∷ []) 1

abbrev unattested : CompactTx
unattested = record settled { attestations = [] }

check_attestations-attest_example :
    check_attestations toy (attest toy unattested 21) (21 ∷ []) 1 ≡ true
unfolding check_attestations member find
check_attestations-attest_example =
    check_attestations-attest toy unattested 21 (21 ∷ []) 0 refl (toy-IsSigner 21 _) refl refl
