-- ===== src/Transaction/Messages/Laws.antt =====
-- src/uhs/transaction/messages.cpp: reading back what was written.
use cbdc_forensics.Common.{ℕ, ◌^◌, ◌<◌, ◌≡◌, List, ◌++◌, All, length, append_assoc, some}
use cbdc_forensics.Util.Serialization.{u64, hash_codec, byte, vector, map_codec}
use cbdc_forensics.Util.Serialization.Laws.{
  IsRoundTrip, IsEntries, raw-IsRoundTrip, vector-IsRoundTrip, map-IsRoundTrip,
}
use cbdc_forensics.Transaction.{OutPoint, Output, Input, FullTx, CompactTx}
use cbdc_forensics.Transaction.Messages.{
  encode_out_point, decode_out_point, out_point_codec, encode_output, decode_output, output_codec,
  encode_input, decode_input, input_codec, witness_codec, encode_full_tx, decode_full_tx,
  full_tx_codec, signature_codec, encode_compact_tx, decode_compact_tx, compact_tx_codec,
}

-- The values fit in the fields of the source's types.
pub record IsOutPoint (op : OutPoint) : Type 0 where
  pub tx_id : op.tx_id < 256 ^ 32
  pub index : op.index < 256 ^ 8

pub record IsOutput (out : Output) : Type 0 where
  pub commitment : out.witness_program_commitment < 256 ^ 32
  pub value : out.value < 256 ^ 8

pub record IsInput (inp : Input) : Type 0 where
  pub prevout : IsOutPoint inp.prevout
  pub prevout_data : IsOutput inp.prevout_data

-- The vector's elements have `P`, and its size fits in 64 bits.
abbrev pub IsVector : {A : Type 0} → (A → Type 0) → List A → Type 0
IsVector P xs = All P xs × (length xs < 256 ^ 8)

abbrev pub IsBytes : List ℕ → Type 0
IsBytes = IsVector (λ b. b < 256 ^ 1)

pub record IsFullTx (tx : FullTx) : Type 0 where
  pub inputs : IsVector IsInput tx.inputs
  pub outputs : IsVector IsOutput tx.outputs
  pub witness : IsVector IsBytes tx.witness

abbrev pub IsHash : ℕ → Type 0
IsHash h = h < 256 ^ 32

pub record IsCompactTx (tx : CompactTx) : Type 0 where
  pub id : IsHash tx.id
  pub inputs : IsVector IsHash tx.inputs
  pub uhs_outputs : IsVector IsHash tx.uhs_outputs
  pub attestations : IsEntries (λ s. s < 256 ^ 64) tx.attestations
  pub count : length tx.attestations < 256 ^ 8

out_point_codec-IsRoundTrip : IsRoundTrip out_point_codec IsOutPoint
unfolding encode_out_point decode_out_point
out_point_codec-IsRoundTrip op rest h = rw (
  append_assoc,
  raw-IsRoundTrip 32 op.tx_id (u64.encode op.index ++ rest) h.tx_id,
  raw-IsRoundTrip 8 op.index rest h.index,
)

pub output_codec-IsRoundTrip : IsRoundTrip output_codec IsOutput
unfolding encode_output decode_output
output_codec-IsRoundTrip out rest h = rw (
  append_assoc,
  raw-IsRoundTrip 32 out.witness_program_commitment (u64.encode out.value ++ rest) h.commitment,
  raw-IsRoundTrip 8 out.value rest h.value,
)

pub input_codec-IsRoundTrip : IsRoundTrip input_codec IsInput
unfolding encode_input decode_input
input_codec-IsRoundTrip inp rest h = rw (
  append_assoc,
  out_point_codec-IsRoundTrip inp.prevout (encode_output inp.prevout_data ++ rest) h.prevout,
  output_codec-IsRoundTrip inp.prevout_data rest h.prevout_data,
)

pub inputs-IsRoundTrip : IsRoundTrip (vector input_codec) (IsVector IsInput)
inputs-IsRoundTrip = vector-IsRoundTrip input_codec input_codec-IsRoundTrip

pub outputs-IsRoundTrip : IsRoundTrip (vector output_codec) (IsVector IsOutput)
outputs-IsRoundTrip = vector-IsRoundTrip output_codec output_codec-IsRoundTrip

witnesses-IsRoundTrip : IsRoundTrip (vector witness_codec) (IsVector IsBytes)
witnesses-IsRoundTrip =
    vector-IsRoundTrip witness_codec (vector-IsRoundTrip byte (raw-IsRoundTrip 1))

hashes-IsRoundTrip : IsRoundTrip (vector hash_codec) (IsVector IsHash)
hashes-IsRoundTrip = vector-IsRoundTrip hash_codec (raw-IsRoundTrip 32)

pub full_tx_codec-IsRoundTrip : IsRoundTrip full_tx_codec IsFullTx
unfolding encode_full_tx decode_full_tx
full_tx_codec-IsRoundTrip tx rest h =
    let wit = (vector witness_codec).encode tx.witness ++ rest in
    simp append_assoc (
      rw (
        inputs-IsRoundTrip tx.inputs ((vector output_codec).encode tx.outputs ++ wit) h.inputs,
        outputs-IsRoundTrip tx.outputs wit h.outputs,
        witnesses-IsRoundTrip tx.witness rest h.witness,
      ))

pub compact_tx_codec-IsRoundTrip : IsRoundTrip compact_tx_codec IsCompactTx
unfolding encode_compact_tx decode_compact_tx
compact_tx_codec-IsRoundTrip tx rest h =
    let atts = (map_codec signature_codec).encode tx.attestations ++ rest in
    let outs = (vector hash_codec).encode tx.uhs_outputs ++ atts in
    simp append_assoc (
      rw (
        raw-IsRoundTrip 32 tx.id ((vector hash_codec).encode tx.inputs ++ outs) h.id,
        hashes-IsRoundTrip tx.inputs outs h.inputs,
        hashes-IsRoundTrip tx.uhs_outputs atts h.uhs_outputs,
        map-IsRoundTrip (λ s. s < 256 ^ 64) signature_codec (raw-IsRoundTrip 64) tx.attestations
            rest (h.attestations, h.count),
      ))

-- A full transaction whose fields fit in their types is read back as it was written, whatever
-- follows it in the stream.
pub decode-encode_full_tx :
    (tx : FullTx) (rest : List ℕ)
    → IsFullTx tx
    → decode_full_tx (encode_full_tx tx ++ rest) ≡ some (tx, rest)
decode-encode_full_tx tx rest h = full_tx_codec-IsRoundTrip tx rest h

-- A compact transaction whose fields fit in their types, and whose attestations are by distinct
-- keys, is read back as it was written, whatever follows it in the stream.
pub decode-encode_compact_tx :
    (tx : CompactTx) (rest : List ℕ)
    → IsCompactTx tx
    → decode_compact_tx (encode_compact_tx tx ++ rest) ≡ some (tx, rest)
decode-encode_compact_tx tx rest h = compact_tx_codec-IsRoundTrip tx rest h
