-- ===== src/Transaction/Messages.antt =====
-- src/uhs/transaction/messages.cpp: the operators << and >> of transactions.
pub mod Laws
use cbdc_forensics.Common.{ℕ, List, ◌++◌, some, ◌>>=◌}
use cbdc_forensics.Util.Serialization.{
  Codec, Decoder, u64, hash_codec, byte, raw, vector, map_codec,
}
use cbdc_forensics.Transaction.{OutPoint, Output, Input, FullTx, CompactTx}

unfoldable pub encode_out_point : OutPoint → List ℕ
encode_out_point op = hash_codec.encode op.tx_id ++ u64.encode op.index

unfoldable pub decode_out_point : Decoder OutPoint
decode_out_point bs = do
  (tx_id, bs) ← hash_codec.decode bs
  (index, bs) ← u64.decode bs
  some (record { tx_id = tx_id; index = index }, bs)

abbrev pub out_point_codec : Codec OutPoint
out_point_codec = record { encode = encode_out_point; decode = decode_out_point }

unfoldable pub encode_output : Output → List ℕ
encode_output out = hash_codec.encode out.witness_program_commitment ++ u64.encode out.value

unfoldable pub decode_output : Decoder Output
decode_output bs = do
  (commitment, bs) ← hash_codec.decode bs
  (value, bs) ← u64.decode bs
  some (record { witness_program_commitment = commitment; value = value }, bs)

abbrev pub output_codec : Codec Output
output_codec = record { encode = encode_output; decode = decode_output }

unfoldable pub encode_input : Input → List ℕ
encode_input inp = encode_out_point inp.prevout ++ encode_output inp.prevout_data

unfoldable pub decode_input : Decoder Input
decode_input bs = do
  (prevout, bs) ← decode_out_point bs
  (prevout_data, bs) ← decode_output bs
  some (record { prevout = prevout; prevout_data = prevout_data }, bs)

abbrev pub input_codec : Codec Input
input_codec = record { encode = encode_input; decode = decode_input }

-- `witness_t` is a vector of bytes.
abbrev pub witness_codec : Codec (List ℕ)
witness_codec = vector byte

unfoldable pub encode_full_tx : FullTx → List ℕ
encode_full_tx tx =
    (vector input_codec).encode tx.inputs
    ++ ((vector output_codec).encode tx.outputs ++ (vector witness_codec).encode tx.witness)

unfoldable pub decode_full_tx : Decoder FullTx
decode_full_tx bs = do
  (inputs, bs) ← (vector input_codec).decode bs
  (outputs, bs) ← (vector output_codec).decode bs
  (witness, bs) ← (vector witness_codec).decode bs
  some (record { inputs = inputs; outputs = outputs; witness = witness }, bs)

abbrev pub full_tx_codec : Codec FullTx
full_tx_codec = record { encode = encode_full_tx; decode = decode_full_tx }

-- `signature_t`
abbrev pub signature_codec : Codec ℕ
signature_codec = raw 64

unfoldable pub encode_compact_tx : CompactTx → List ℕ
encode_compact_tx tx =
    hash_codec.encode tx.id
    ++ ((vector hash_codec).encode tx.inputs
        ++ ((vector hash_codec).encode tx.uhs_outputs
            ++ (map_codec signature_codec).encode tx.attestations))

unfoldable pub decode_compact_tx : Decoder CompactTx
decode_compact_tx bs = do
  (id, bs) ← hash_codec.decode bs
  (inputs, bs) ← (vector hash_codec).decode bs
  (uhs_outputs, bs) ← (vector hash_codec).decode bs
  (attestations, bs) ← (map_codec signature_codec).decode bs
  some (
    record { id = id; inputs = inputs; uhs_outputs = uhs_outputs; attestations = attestations },
    bs,
  )

abbrev pub compact_tx_codec : Codec CompactTx
compact_tx_codec = record { encode = encode_compact_tx; decode = decode_compact_tx }
