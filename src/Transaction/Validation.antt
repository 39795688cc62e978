-- ===== src/Transaction/Validation.antt =====
-- src/uhs/transaction/validation.cpp: the checks of a transaction by itself. A check returns the
-- first error that it finds.
pub mod Loops
pub mod Values
pub mod Inputs
pub mod Witness
pub mod Accept
use cbdc_forensics.Common.{
  ℕ, zero, suc, ◌+◌, ◌%◌, ◌^◌, ◌≡◌, Bool, true, false, not, ◌&&◌, List, [], ◌∷◌, Option, none, some,
  length, get_or, take, drop, ltb, leb, ◌==◌, if◌then◌else◌, member, all_of,
}
use cbdc_forensics.Util.Serialization.Bytes.{from_le}
use cbdc_forensics.Util.Serialization.{hash_codec}
use cbdc_forensics.Transaction.{OutPoint, Output, Input, FullTx, CompactTx}
use cbdc_forensics.Transaction.Crypto.{Crypto}
use cbdc_forensics.Transaction.Ids.{tx_id, verify}
use Loops.{or_else, check_each}

pub data InputErrorCode : Type 0 where
  duplicate data_error : InputErrorCode

pub data OutputErrorCode : Type 0 where
  zero_value : OutputErrorCode

pub data WitnessErrorCode : Type 0 where
  missing_witness_program_type unknown_witness_program_type malformed : WitnessErrorCode
  program_mismatch invalid_public_key invalid_signature : WitnessErrorCode

pub data TxErrorCode : Type 0 where
  no_inputs no_outputs missing_witness asymmetric_values value_overflow : TxErrorCode

-- The `std::variant` of the source; an index comes last.
pub data TxError : Type 0 where
  input_error : InputErrorCode → Option OutputErrorCode → ℕ → TxError
  output_error : OutputErrorCode → ℕ → TxError
  witness_error : WitnessErrorCode → ℕ → TxError
  tx_error : TxErrorCode → TxError

abbrev pub p2pk_witness_prog_len : ℕ
p2pk_witness_prog_len = 33

abbrev pub p2pk_witness_len : ℕ
p2pk_witness_len = 97

abbrev is_empty {ℓ} : {A : Type ℓ} → List A → Bool
is_empty [] = true
is_empty (x ∷ xs) = false

unfoldable pub check_output_value : Output → Option OutputErrorCode
check_output_value out = if ltb out.value 1 then some zero_value else none

unfoldable pub check_input_structure : Input → Option (InputErrorCode × Option OutputErrorCode)
unfolding check_output_value
check_input_structure inp = elim (check_output_value inp.prevout_data) [
  | none ↦ none
  | some e ↦ some (data_error, some e)
]

unfoldable pub check_input_count : FullTx → Option TxError
check_input_count tx = if is_empty tx.inputs then some (tx_error no_inputs) else none

unfoldable pub check_output_count : FullTx → Option TxError
check_output_count tx = if is_empty tx.outputs then some (tx_error no_outputs) else none

unfoldable pub check_witness_count : FullTx → Option TxError
check_witness_count tx =
    if length tx.inputs == length tx.witness then none else some (tx_error missing_witness)

-- `out_point::operator==`, which the order of the `std::set` agrees with.
abbrev pub out_point_eq : OutPoint → OutPoint → Bool
out_point_eq a b = a.tx_id == b.tx_id && a.index == b.index

unfoldable pub seen : OutPoint → List OutPoint → Bool
seen p [] = false
seen p (q ∷ qs) = if out_point_eq p q then true else seen p qs

-- The loop of `check_input_set`: the outpoints met, and the index of the next input.
unfoldable pub check_input_set_from : List OutPoint → ℕ → List Input → Option TxError
unfolding seen
check_input_set_from inps idx [] = none
check_input_set_from inps idx (inp ∷ rest) =
    let more = check_input_set_from (inp.prevout ∷ inps) (suc idx) rest in
    if seen inp.prevout inps then some (input_error duplicate none idx) else more

unfoldable pub check_input_set : FullTx → Option TxError
unfolding check_input_set_from
check_input_set tx = check_input_set_from [] 0 tx.inputs

unfoldable pub check_tx_structure : FullTx → Option TxError
unfolding check_input_count check_output_count check_witness_count check_input_set
check_tx_structure tx =
    or_else (check_input_count tx)
      (or_else (check_output_count tx) (or_else (check_witness_count tx) (check_input_set tx)))

-- One of the two loops of `check_in_out_set`: the total of 64 bits, or none if it overflows.
unfoldable pub add_values : {A : Type 0} → (A → ℕ) → ℕ → List A → Option ℕ
add_values value total [] = some total
add_values value total (x ∷ xs) =
    let total' = (total + value x) % 2 ^ 64 in
    let rest = add_values value total' xs in if leb total' total then none else rest

abbrev pub input_value : Input → ℕ
input_value inp = inp.prevout_data.value

abbrev pub output_value : Output → ℕ
output_value out = out.value

unfoldable pub check_in_out_set : FullTx → Option TxError
unfolding add_values
check_in_out_set tx = elim (add_values input_value 0 tx.inputs) [
  | none ↦ some (tx_error value_overflow)
  | some input_total ↦ elim (add_values output_value 0 tx.outputs) [
    | none ↦ some (tx_error value_overflow)
    | some output_total ↦
        if input_total == output_total then none else some (tx_error asymmetric_values)
  ]
]

-- `m_witness[idx]` and `m_inputs[idx]`; reads out of range are undefined, and `check_witness_count`
-- rules them out.
abbrev pub witness_at : FullTx → ℕ → List ℕ
witness_at tx idx = get_or tx.witness idx []

abbrev no_output : Output
no_output = record { witness_program_commitment = 0; value = 0 }

abbrev pub no_input : Input
no_input = record { prevout = record { tx_id = 0; index = 0 }; prevout_data = no_output }

abbrev pub commitment_at : FullTx → ℕ → ℕ
commitment_at tx idx = (get_or tx.inputs idx no_input).prevout_data.witness_program_commitment

-- The bodies of the loops of `check_tx`.
unfoldable pub check_input_at : ℕ → Input → Option TxError
unfolding check_input_structure
check_input_at idx inp = elim (check_input_structure inp) [
  | none ↦ none
  | some (code, e) ↦ some (input_error code e idx)
]

unfoldable pub check_output_at : ℕ → Output → Option TxError
unfolding check_output_value
check_output_at idx out = elim (check_output_value out) [
  | none ↦ none
  | some e ↦ some (output_error e idx)
]

module _ (c : Crypto) where
  open c use {sha256}

  unfoldable pub check_p2pk_witness_len : FullTx → ℕ → Option WitnessErrorCode
  check_p2pk_witness_len tx idx =
      if length (witness_at tx idx) == p2pk_witness_len then none else some malformed

  unfoldable pub check_p2pk_witness_commitment : FullTx → ℕ → Option WitnessErrorCode
  check_p2pk_witness_commitment tx idx =
      if sha256 (take p2pk_witness_prog_len (witness_at tx idx)) == commitment_at tx idx
      then none
      else some program_mismatch

  unfoldable pub check_p2pk_witness_signature : FullTx → ℕ → Option WitnessErrorCode
  check_p2pk_witness_signature tx idx =
      elim (c.parse_pubkey (from_le (take 32 (drop 1 (witness_at tx idx))))) [
        | none ↦ some invalid_public_key
        | some pubkey ↦
            if c.schnorrsig_verify (from_le (take 64 (drop 33 (witness_at tx idx)))) (tx_id c tx)
              pubkey
            then none
            else some invalid_signature
      ]

  unfoldable pub check_p2pk_witness : FullTx → ℕ → Option WitnessErrorCode
  unfolding check_p2pk_witness_len check_p2pk_witness_commitment check_p2pk_witness_signature
  check_p2pk_witness tx idx =
      or_else (check_p2pk_witness_len tx idx)
        (or_else (check_p2pk_witness_commitment tx idx) (check_p2pk_witness_signature tx idx))

  -- The first byte is the type of the program, and `p2pk` is 0.
  unfoldable pub check_program : FullTx → ℕ → List ℕ → Option WitnessErrorCode
  unfolding check_p2pk_witness
  check_program tx idx [] = some missing_witness_program_type
  check_program tx idx (program_type ∷ rest) =
      if program_type == 0 then check_p2pk_witness tx idx else some unknown_witness_program_type

  unfoldable pub check_witness : FullTx → ℕ → Option WitnessErrorCode
  unfolding check_program
  check_witness tx idx = check_program tx idx (witness_at tx idx)

  unfoldable pub check_witness_at : FullTx → ℕ → List ℕ → Option TxError
  unfolding check_witness
  check_witness_at tx idx wit = elim (check_witness tx idx) [
    | none ↦ none
    | some e ↦ some (witness_error e idx)
  ]

  unfoldable pub check_tx : FullTx → Option TxError
  unfolding check_tx_structure check_input_at check_output_at check_in_out_set check_witness_at
  check_tx tx = or_else (check_tx_structure tx) (
      or_else (check_each check_input_at 0 tx.inputs) (
        or_else (check_each check_output_at 0 tx.outputs)
          (or_else (check_in_out_set tx) (check_each (check_witness_at tx) 0 tx.witness))))

  -- `get_p2pk_witness_commitment`
  unfoldable pub get_p2pk_witness_commitment : ℕ → ℕ
  get_p2pk_witness_commitment payee = sha256 (0 ∷ hash_codec.encode payee)

  unfoldable pub check_attestations : CompactTx → List ℕ → ℕ → Bool
  check_attestations tx pubkeys threshold =
      if ltb (length tx.attestations) threshold
      then false
      else all_of (λ att. member att.0 pubkeys && verify c tx att) tx.attestations
