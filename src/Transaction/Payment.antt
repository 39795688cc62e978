-- ===== src/Transaction/Payment.antt =====
-- A payment as test data, with the stand-in for the cryptographic functions.
use cbdc_forensics.Common.{◌≡◌, refl, [], ◌∷◌, ◌++◌, ℕ, none, replicate}
use cbdc_forensics.Util.Serialization.Bytes.{le_bytes, from_le}
use cbdc_forensics.Util.Serialization.{encode_vector, encode_items}
use cbdc_forensics.Transaction.{Output, Input, FullTx}
use cbdc_forensics.Transaction.Toy.{toy}
use cbdc_forensics.Transaction.Messages.{encode_input, encode_out_point, encode_output}
use cbdc_forensics.Transaction.Ids.{tx_id}
use cbdc_forensics.Transaction.Validation.Loops.{check_each}
use cbdc_forensics.Transaction.Validation.{check_tx}

abbrev pub payment_output : ℕ → Output
payment_output v = record { witness_program_commitment = 9; value = v }

abbrev pub payment_input : Input
payment_input = record {
  prevout = record { tx_id = 7; index = 0 };
  prevout_data = payment_output 5;
}

-- Five units are split into three and two.
abbrev pub unsigned : FullTx
unsigned = record {
  inputs = payment_input ∷ [];
  outputs = payment_output 3 ∷ payment_output 2 ∷ [];
  witness = [];
}

-- The program (a type and the key 9) hashes to 9; the identifier is 47, so the signature is 56.
abbrev pub payment : FullTx
payment = record {
  inputs = unsigned.inputs;
  outputs = unsigned.outputs;
  witness = (0 ∷ ((9 ∷ replicate 31 0) ++ (56 ∷ replicate 63 0))) ∷ [];
}

payment_id : tx_id toy payment ≡ 47
unfolding tx_id encode_vector encode_items encode_input encode_out_point encode_output le_bytes
payment_id = refl

pub payment_passes : check_tx toy payment ≡ none
unfolding check_tx from_le check_each tx_id encode_vector encode_items encode_input encode_out_point
    encode_output le_bytes
payment_passes = refl
