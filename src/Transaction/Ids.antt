-- ===== src/Transaction/Ids.antt =====
-- src/uhs/transaction/transaction.cpp: the identifiers of transactions, inputs and outputs, the
-- compact form of a transaction and its attestations.
pub mod Laws
pub mod Collision
pub mod Attestation
use cbdc_forensics.Common.{
  ℕ, suc, Bool, false, List, [], ◌∷◌, ◌++◌, Option, none, some, map, get_elem?,
}
use cbdc_forensics.Util.Serialization.{u64, hash_codec, vector}
use cbdc_forensics.Transaction.{OutPoint, Output, Input, FullTx, CompactTx}
use cbdc_forensics.Transaction.Crypto.{Crypto}
use cbdc_forensics.Transaction.Messages.{
  input_codec, output_codec, encode_input, encode_output, encode_compact_tx,
}

-- The overload that is given the transaction's identifier.
unfoldable pub input_from_output : FullTx → ℕ → ℕ → Option Input
input_from_output tx i txid = elim (get_elem? tx.outputs i) [
  | none ↦ none
  | some out ↦ some (record { prevout = record { tx_id = txid; index = i }; prevout_data = out })
]

module _ (c : Crypto) where
  open c use {sha256}

  -- `input::hash`
  unfoldable pub input_hash : Input → ℕ
  input_hash inp = sha256 (encode_input inp)

  unfoldable pub tx_id : FullTx → ℕ
  tx_id tx =
      sha256 ((vector input_codec).encode tx.inputs ++ (vector output_codec).encode tx.outputs)

  -- The overload that computes the identifier.
  unfoldable pub input_from_tx : FullTx → ℕ → Option Input
  unfolding input_from_output tx_id
  input_from_tx tx i = input_from_output tx i (tx_id tx)

  unfoldable pub uhs_id_from_output : ℕ → ℕ → Output → ℕ
  uhs_id_from_output entropy i out =
      sha256 (hash_codec.encode entropy ++ (u64.encode i ++ encode_output out))

  -- The loop over the outputs, from index `i`.
  unfoldable pub uhs_ids_from : ℕ → ℕ → List Output → List ℕ
  unfolding uhs_id_from_output
  uhs_ids_from id i [] = []
  uhs_ids_from id i (out ∷ outs) = uhs_id_from_output id i out ∷ uhs_ids_from id (suc i) outs

  -- The constructor of `compact_tx`.
  unfoldable pub compact_tx : FullTx → CompactTx
  unfolding tx_id input_hash uhs_ids_from
  compact_tx tx = record {
    id = tx_id tx;
    inputs = map input_hash tx.inputs;
    uhs_outputs = uhs_ids_from (tx_id tx) 0 tx.outputs;
    attestations = [];
  }

  -- `compact_tx::hash`: without the attestations.
  unfoldable pub compact_tx_hash : CompactTx → ℕ
  compact_tx_hash tx = sha256 (encode_compact_tx (record tx { attestations = [] }))

  -- `compact_tx::sign`
  unfoldable pub sign : CompactTx → ℕ → ℕ × ℕ
  unfolding compact_tx_hash
  sign tx key = (c.pubkey_from_privkey key, c.schnorrsig_sign (compact_tx_hash tx) key)

  -- `compact_tx::verify`
  unfoldable pub verify : CompactTx → ℕ × ℕ → Bool
  unfolding compact_tx_hash
  verify tx (key, sig) = elim (c.parse_pubkey key) [
    | none ↦ false
    | some pubkey ↦ c.schnorrsig_verify sig (compact_tx_hash tx) pubkey
  ]
