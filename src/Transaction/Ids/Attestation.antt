-- ===== src/Transaction/Ids/Attestation.antt =====
-- src/uhs/transaction: attestations by sentinels, `compact_tx::sign`, `compact_tx::verify` and
-- `check_attestations`.
use cbdc_forensics.Common.{
  ℕ, zero, suc, ap, inl, inr, subst, sym, ◌∙◌, ◌==◌, Bool-cases, Option-cases, get_elem?, ◌≤◌, ◌≡◌,
  refl, ◌↔◌, Bool, true, ◌&&◌, List, [], ◌∷◌, ◌++◌, none, some, arith, All, length, length-append,
  All-append, all_of, member, Map, find, put, put_new,
}
use cbdc_forensics.Transaction.{CompactTx}
use cbdc_forensics.Transaction.Crypto.{Crypto}
use cbdc_forensics.Util.Serialization.Bytes.{le_bytes}
use cbdc_forensics.Util.Serialization.{vector, hash_codec, encode_map, encode_vector, encode_items}
use cbdc_forensics.Transaction.Messages.{encode_compact_tx}
use cbdc_forensics.Transaction.Ids.{sign, verify, compact_tx_hash}
use cbdc_forensics.Transaction.Validation.{check_attestations}

all_of_iff :
    {A : Type 0} (p : A → Bool) (xs : List A) → (all_of p xs ≡ true) ↔ All (λ x. p x ≡ true) xs
all_of_iff p [] = (λ h. tt, λ h. refl)
all_of_iff p (x ∷ xs) =
    let ih = all_of_iff p xs in
    (λ h. (ground arith, ih.0 (ground arith)), λ h. ground (arith, ih.1 h.1))

position_of : (x : ℕ) (xs : List ℕ) → member x xs ≡ true → (i : ℕ) × (get_elem? xs i ≡ some x)
unfolding member
position_of x [] h = ground arith
position_of x (y ∷ xs) h = elim (Bool-cases (x == y)) [
  | inl same ↦ (0, ap some (ground (arith, same)))
  | inr other ↦ let (i, at) = position_of x xs (ground (arith, h, other)) in (suc i, at)
]

member_at : (x : ℕ) (xs : List ℕ) (i : ℕ) → get_elem? xs i ≡ some x → member x xs ≡ true
unfolding member
member_at x [] i h = cc
member_at x (y ∷ xs) zero h = ground (arith, h)
member_at x (y ∷ xs) (suc i) h = ground (arith, member_at x xs i h)

module _ {A : Type 0} (P : A → Type 0) where
  All-get_elem? : (xs : List A) (i : ℕ) {x : A} → get_elem? xs i ≡ some x → All P xs → P x
  All-get_elem? [] i h all = absurd cc
  All-get_elem? (y ∷ xs) zero h all = subst P (ap (λ o. elim o [ none ↦ y | some z ↦ z ]) h) all.0
  All-get_elem? (y ∷ xs) (suc i) h all = All-get_elem? xs i h all.1

  All-each : (xs : List A) → ((i : ℕ) (x : A) → get_elem? xs i ≡ some x → P x) → All P xs
  All-each [] h = tt
  All-each (x ∷ xs) h = (h 0 x refl, All-each xs λ i y at. h (suc i) y at)

module _ (c : Crypto) where
  -- The check, attestation by attestation.
  pub check_attestations-All :
      (tx : CompactTx) (pubkeys : List ℕ) (threshold : ℕ)
      → (check_attestations c tx pubkeys threshold ≡ true) ↔ (
          (threshold ≤ length tx.attestations)
          × All (λ att. (member att.0 pubkeys && verify c tx att) ≡ true) tx.attestations)
  unfolding check_attestations
  check_attestations-All tx pubkeys threshold =
      let each = all_of_iff (λ att. member att.0 pubkeys && verify c tx att) tx.attestations in
      (λ h. (ground arith, each.0 (ground arith)), λ h. ground (arith, each.1 h.1))

  -- What is signed: the identifier, the inputs, the outputs, and a count of 0 attestations.
  abbrev pub signed_bytes : CompactTx → List ℕ
  signed_bytes tx =
      le_bytes 32 tx.id
      ++ ((vector hash_codec).encode tx.inputs
          ++ ((vector hash_codec).encode tx.uhs_outputs ++ le_bytes 8 0))

  -- The key is one of the known, and one that parses, for which the signature is valid.
  pub record IsAttestation (tx : CompactTx) (pubkeys : List ℕ) (att : ℕ × ℕ) : Type 0 where
    pub position : ℕ
    pub known : get_elem? pubkeys position ≡ some att.0
    pub pubkey : ℕ
    pub parses : c.parse_pubkey att.0 ≡ some pubkey
    pub signs : c.schnorrsig_verify att.1 (c.sha256 (signed_bytes tx)) pubkey ≡ true

  abbrev pub IsAttested : CompactTx → List ℕ → ℕ → Type 0
  IsAttested tx pubkeys threshold =
      (threshold ≤ length tx.attestations)
      × ((i : ℕ) (att : ℕ × ℕ)
          → get_elem? tx.attestations i ≡ some att
          → IsAttestation tx pubkeys att)

  compact_tx_hash_lem : (tx : CompactTx) → compact_tx_hash c tx ≡ c.sha256 (signed_bytes tx)
  unfolding compact_tx_hash encode_compact_tx encode_map encode_vector encode_items le_bytes
  compact_tx_hash_lem tx = refl

  verify-eq_true :
      (tx : CompactTx) (key sig : ℕ)
      → verify c tx (key, sig) ≡ true
      → (pubkey : ℕ) × (c.parse_pubkey key ≡ some pubkey)
        × (c.schnorrsig_verify sig (c.sha256 (signed_bytes tx)) pubkey ≡ true)
  unfolding verify
  verify-eq_true tx key sig h = elim (Option-cases (c.parse_pubkey key)) [
    | inl no_key ↦ absurd (ground (arith, h, no_key))
    | inr (pubkey, parsed) ↦
        let signs : c.schnorrsig_verify sig (compact_tx_hash c tx) pubkey ≡ true =
          ground (arith, h, parsed) in
        (
          pubkey,
          parsed,
          sym (ap (λ m. c.schnorrsig_verify sig m pubkey) (compact_tx_hash_lem tx)) ∙ signs,
        )
  ]

  IsAttestation-iff :
      (tx : CompactTx) (pubkeys : List ℕ) (att : ℕ × ℕ)
      → ((member att.0 pubkeys && verify c tx att) ≡ true) ↔ IsAttestation tx pubkeys att
  unfolding verify
  IsAttestation-iff tx pubkeys (key, sig) = (
    λ h.
        let (i, at) = position_of key pubkeys (ground (arith, h)) in
        let (pubkey, parses, signs) = verify-eq_true tx key sig (ground (arith, h)) in
        record { position = i; known = at; pubkey = pubkey; parses = parses; signs = signs },
    λ a.
        let signs : c.schnorrsig_verify sig (compact_tx_hash c tx) a.pubkey ≡ true =
          ap (λ m. c.schnorrsig_verify sig m a.pubkey) (compact_tx_hash_lem tx) ∙ a.signs in
        let verified : verify c tx (key, sig) ≡ true = ground (arith, a.parses, signs) in
        ground (arith, member_at key pubkeys a.position a.known, verified),
  )

  -- The check of the attestations passes exactly when they are at least as many as the threshold,
  -- and each has a key that is one of the known and parses, for which its signature is valid on the
  -- hash of the identifier, the inputs, the outputs and a count of 0 attestations.
  pub check_attestations_iff :
      (tx : CompactTx) (pubkeys : List ℕ) (threshold : ℕ)
      → (check_attestations c tx pubkeys threshold ≡ true) ↔ IsAttested tx pubkeys threshold
  check_attestations_iff tx pubkeys threshold =
      let all = check_attestations-All tx pubkeys threshold in
      (
        λ h.
            let (enough, each) = all.0 h in
            (
              enough,
              λ i att at.
                  (IsAttestation-iff tx pubkeys att).0 (All-get_elem? _ tx.attestations i at each),
            ),
        λ h. all.1 (
          h.0,
          All-each _ tx.attestations
              λ i att at. (IsAttestation-iff tx pubkeys att).1 (h.1 i att at),
        ),
      )

  -- A sentinel adds its attestation: `tx.m_attestations.insert(tx.sign(ctx, key))`.
  unfoldable pub attest : CompactTx → ℕ → CompactTx
  unfolding sign
  attest tx key =
      let (pubkey, sig) = sign c tx key in
      record tx { attestations = put pubkey sig tx.attestations }

  -- The library verifies what it signs: the key parses, and its signature of the hash holds.
  pub record IsSigner (key msg : ℕ) : Type 0 where
    pub pubkey : ℕ
    pub parsed : c.parse_pubkey (c.pubkey_from_privkey key) ≡ some pubkey
    pub verifies : c.schnorrsig_verify (c.schnorrsig_sign msg key) msg pubkey ≡ true

  -- Attestations do not enter the hash that is signed.
  pub verify-attestations :
      (tx : CompactTx) (atts : Map ℕ) (att : ℕ × ℕ)
      → verify c (record tx { attestations = atts }) att ≡ verify c tx att
  unfolding verify compact_tx_hash
  verify-attestations tx atts (key, sig) = refl

  pub verify-sign :
      (tx : CompactTx) (key : ℕ)
      → IsSigner key (compact_tx_hash c tx)
      → verify c tx (sign c tx key) ≡ true
  unfolding verify sign
  verify-sign tx key s = ground (arith, s.parsed, s.verifies)

  -- When a transaction meets a threshold, and a signer whose key is known and whose signatures
  -- verify has not attested it yet, then with the attestation of that signer it meets the threshold
  -- that is one higher.
  pub check_attestations-attest :
      (tx : CompactTx) (key : ℕ) (pubkeys : List ℕ) (threshold : ℕ)
      → check_attestations c tx pubkeys threshold ≡ true
      → IsSigner key (compact_tx_hash c tx)
      → member (c.pubkey_from_privkey key) pubkeys ≡ true
      → find (c.pubkey_from_privkey key) tx.attestations ≡ none
      → check_attestations c (attest tx key) pubkeys (suc threshold) ≡ true
  unfolding attest verify compact_tx_hash
  check_attestations-attest tx key pubkeys threshold h s known new =
      let (enough, each) = (check_attestations-All tx pubkeys threshold).0 h in
      let att = sign c tx key in
      let added : put att.0 att.1 tx.attestations ≡ tx.attestations ++ (att ∷ []) =
        put_new att.0 att.1 tx.attestations new in
      let good : (member att.0 pubkeys && verify c tx att) ≡ true =
        rw (known, verify-sign tx key s) in
      (check_attestations-All (attest tx key) pubkeys (suc threshold)).1 (
        rw added (omega (arith, length-append tx.attestations (att ∷ []))),
        rw added (All-append _ tx.attestations (att ∷ []) each (good, tt)),
      )
