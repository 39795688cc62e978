-- ===== src/Transaction/Ids/Collision.antt =====
-- src/uhs/transaction/transaction.cpp: transactions and outputs that share an identifier, and
-- collisions of SHA256.
use cbdc_forensics.Common.{ℕ, ◌^◌, ◌<◌, ◌≡◌, ◌≢◌, ◌⊎◌, inl, inr, List, ℕ_discrete}
use cbdc_forensics.Util.Serialization.{u64, hash_codec, vector}
use cbdc_forensics.Util.Serialization.Laws.{
  raw-IsRoundTrip, encode-injective, encode-injective_last,
}
use cbdc_forensics.Transaction.{Output, FullTx}
use cbdc_forensics.Transaction.Crypto.{Crypto}
use cbdc_forensics.Transaction.Messages.{input_codec, output_codec, encode_output}
use cbdc_forensics.Transaction.Messages.Laws.{
  IsOutput, IsFullTx, inputs-IsRoundTrip, outputs-IsRoundTrip, output_codec-IsRoundTrip,
}
use cbdc_forensics.Transaction.Ids.{tx_id, uhs_id_from_output}

bytes_discrete : Discrete (List ℕ)
bytes_discrete = hlevel ℕ_discrete

module _ (c : Crypto) where
  open c use {sha256}

  -- Two byte strings with one hash.
  abbrev pub Collision : Type 0
  Collision = (x : List ℕ) × (y : List ℕ) × (x ≢ y) × (sha256 x ≡ sha256 y)

  sha256-eq : (x y : List ℕ) → sha256 x ≡ sha256 y → (x ≡ y) ⊎ Collision
  sha256-eq x y e = elim (bytes_discrete x y) [
    | yes same ↦ inl same
    | no other ↦ inr (x, y, other, e)
  ]

  -- Two full transactions whose fields fit in their types and that share an identifier have the
  -- same inputs and outputs, or there is a collision of the hash.
  pub tx_id-eq :
      (s t : FullTx)
      → IsFullTx s
      → IsFullTx t
      → tx_id c s ≡ tx_id c t
      → ((s.inputs ≡ t.inputs) × (s.outputs ≡ t.outputs)) ⊎ Collision
  unfolding tx_id
  tx_id-eq s t hs ht e = elim (sha256-eq _ _ e) [
    | inl same ↦
        let (ins, outs) =
          encode-injective (vector input_codec) inputs-IsRoundTrip s.inputs t.inputs
            ((vector output_codec).encode s.outputs) ((vector output_codec).encode t.outputs)
            hs.inputs ht.inputs same in
        inl (
          ins,
          encode-injective_last (vector output_codec) outputs-IsRoundTrip s.outputs t.outputs
              hs.outputs ht.outputs outs,
        )
    | inr x ↦ inr x
  ]

  -- Outputs that share a UHS identifier, with hashes, positions and fields that fit in their types,
  -- agree in transaction, position and content, or there is a collision of the hash.
  pub uhs_id_from_output-eq :
      (id id' i i' : ℕ) (out out' : Output)
      → id < 256 ^ 32
      → id' < 256 ^ 32
      → i < 256 ^ 8
      → i' < 256 ^ 8
      → IsOutput out
      → IsOutput out'
      → uhs_id_from_output c id i out ≡ uhs_id_from_output c id' i' out'
      → ((id ≡ id') × (i ≡ i') × (out ≡ out')) ⊎ Collision
  unfolding uhs_id_from_output
  uhs_id_from_output-eq id id' i i' out out' hid hid' hi hi' ho ho' e = elim (sha256-eq _ _ e) [
    | inl same ↦
        let (ids, rest) =
          encode-injective hash_codec (raw-IsRoundTrip 32) id id' _ _ hid hid' same in
        let (is, outs) =
          encode-injective u64 (raw-IsRoundTrip 8) i i' (encode_output out) (encode_output out') hi
            hi' rest in
        inl (
          ids,
          is,
          encode-injective_last output_codec output_codec-IsRoundTrip out out' ho ho' outs,
        )
    | inr x ↦ inr x
  ]
