-- ===== src/Transaction/Validation/Witness.antt =====
-- src/uhs/transaction/validation.cpp, `check_witness`: what a witness that passes shows.
use cbdc_forensics.Transaction.Validation.Loops.{or_else, or_else-eq_none}
use cbdc_forensics.Common.{
  Option-cases, ℕ, ◌≡◌, ◌↔◌, true, inl, inr, List, [], ◌∷◌, none, some, arith, length, get_or, take,
  drop,
}
use cbdc_forensics.Util.Serialization.Bytes.{from_le}
use cbdc_forensics.Transaction.{FullTx}
use cbdc_forensics.Transaction.Crypto.{Crypto}
use cbdc_forensics.Transaction.Ids.{tx_id}
use cbdc_forensics.Transaction.Validation.{
  check_p2pk_witness_len, check_p2pk_witness_commitment, check_p2pk_witness_signature,
  check_p2pk_witness, check_program, check_witness, witness_at, commitment_at,
}

module _ (c : Crypto) where
  -- The 97 bytes of a witness are the program of the output being spent, a type and a key, with a
  -- signature of the hash by that key.
  pub record IsAuthorised (sighash commitment : ℕ) (wit : List ℕ) : Type 0 where
    pub pubkey : ℕ
    pub len : length wit ≡ 97
    pub p2pk : get_or wit 0 1 ≡ 0
    pub program : c.sha256 (take 33 wit) ≡ commitment
    pub key : c.parse_pubkey (from_le (take 32 (drop 1 wit))) ≡ some pubkey
    pub signature : c.schnorrsig_verify (from_le (take 64 (drop 33 wit))) sighash pubkey ≡ true

  check_program_iff :
      (tx : FullTx) (i : ℕ) (wit : List ℕ)
      → (check_program c tx i wit ≡ none)
        ↔ ((get_or wit 0 1 ≡ 0) × (check_p2pk_witness c tx i ≡ none))
  unfolding check_program
  check_program_iff tx i [] = (λ h. cc, λ h. absurd (omega (arith, h.0)))
  check_program_iff tx i (t ∷ wit) = (λ h. (ground arith, ground arith), λ h. ground arith)

  check_len_iff :
      (tx : FullTx) (i : ℕ)
      → (check_p2pk_witness_len c tx i ≡ none) ↔ (length (witness_at tx i) ≡ 97)
  unfolding check_p2pk_witness_len
  check_len_iff tx i = (λ h. ground arith, λ h. ground arith)

  check_commitment_iff :
      (tx : FullTx) (i : ℕ)
      → (check_p2pk_witness_commitment c tx i ≡ none)
        ↔ (c.sha256 (take 33 (witness_at tx i)) ≡ commitment_at tx i)
  unfolding check_p2pk_witness_commitment
  check_commitment_iff tx i = (λ h. ground arith, λ h. ground arith)

  check_signature :
      (tx : FullTx) (i : ℕ)
      → check_p2pk_witness_signature c tx i ≡ none
      → (pubkey : ℕ) × (c.parse_pubkey (from_le (take 32 (drop 1 (witness_at tx i)))) ≡ some pubkey)
        × (c.schnorrsig_verify (from_le (take 64 (drop 33 (witness_at tx i)))) (tx_id c tx) pubkey
            ≡ true)
  unfolding check_p2pk_witness_signature
  check_signature tx i h =
      elim (Option-cases (c.parse_pubkey (from_le (take 32 (drop 1 (witness_at tx i)))))) [
        | inl invalid ↦ ground arith
        | inr (pubkey, e) ↦ (pubkey, e, ground arith)
      ]

  check_signature_passes :
      (tx : FullTx) (i pubkey : ℕ)
      → c.parse_pubkey (from_le (take 32 (drop 1 (witness_at tx i)))) ≡ some pubkey
      → c.schnorrsig_verify (from_le (take 64 (drop 33 (witness_at tx i)))) (tx_id c tx) pubkey
        ≡ true
      → check_p2pk_witness_signature c tx i ≡ none
  unfolding check_p2pk_witness_signature
  check_signature_passes tx i pubkey e h = ground arith

  -- A witness passes exactly when it authorises the spending of its input.
  pub check_witness_iff :
      (tx : FullTx) (i : ℕ)
      → (check_witness c tx i ≡ none)
        ↔ IsAuthorised (tx_id c tx) (commitment_at tx i) (witness_at tx i)
  unfolding check_witness check_p2pk_witness
  check_witness_iff tx i =
      let commitment = check_p2pk_witness_commitment c tx i in
      let signature = check_p2pk_witness_signature c tx i in
      let program = check_program_iff tx i (witness_at tx i) in
      let after_len =
        or_else-eq_none (check_p2pk_witness_len c tx i) (or_else commitment signature) in
      let after_commitment = or_else-eq_none commitment signature in
      (
        λ h.
            let (p2pk, all) = program.0 h in
            let (len, rest) = after_len.0 all in
            let (committed, sig) = after_commitment.0 rest in
            let (pubkey, parsed, verified) = check_signature tx i sig in
            record {
              pubkey = pubkey;
              len = (check_len_iff tx i).0 len;
              p2pk = p2pk;
              program = (check_commitment_iff tx i).0 committed;
              key = parsed;
              signature = verified;
            },
        λ a. program.1 (
          a.p2pk,
          after_len.1 (
            (check_len_iff tx i).1 a.len,
            after_commitment.1 (
              (check_commitment_iff tx i).1 a.program,
              check_signature_passes tx i a.pubkey a.key a.signature,
            ),
          ),
        ),
      )
