-- ===== src/Transaction/Wallet/Signing.antt =====
-- src/uhs/transaction/wallet.cpp, `sign`: the witness of an input with a key of the wallet's is one
-- that `check_witness` accepts.
use cbdc_forensics.Common.{
  ℕ, zero, suc, ◌-◌, ◌^◌, ◌<◌, ◌≡◌, refl, sym, ap, subst, inl, inr, true, List, [], ◌∷◌, ◌++◌, some,
  arith, length, length-append, length-take, length-replicate, take-append, drop-append, append-nil,
  take, drop, All, get_or, replicate, find, Option-cases,
}
use cbdc_forensics.Util.Serialization.Bytes.{le_bytes, from_le-le_bytes, length-le_bytes}
use cbdc_forensics.Transaction.{Input, FullTx}
use cbdc_forensics.Transaction.Crypto.{Crypto}
use cbdc_forensics.Transaction.Ids.{tx_id}
use cbdc_forensics.Transaction.Ids.Attestation.{IsSigner}
use cbdc_forensics.Transaction.Validation.{get_p2pk_witness_commitment, no_input}
use cbdc_forensics.Transaction.Validation.Witness.{IsAuthorised}
use cbdc_forensics.Transaction.Wallet.{
  Wallet, is_spendable, resize, p2pk_witness, sign_input, sign_inputs, sign,
}

-- libsecp256k1: keys are 32 bytes, signatures 64, and it verifies what it signs.
pub record IsSignatureScheme (c : Crypto) : Type 0 where
  pub pubkey_bytes : (key : ℕ) → c.pubkey_from_privkey key < 256 ^ 32
  pub sig_bytes : (msg key : ℕ) → c.schnorrsig_sign msg key < 256 ^ 64
  pub signer : (key msg : ℕ) → IsSigner c key msg

take_exact : (n : ℕ) (xs ys : List ℕ) → length xs ≡ n → take n (xs ++ ys) ≡ xs
take_exact n xs ys h = subst (λ k. take k (xs ++ ys) ≡ xs) h (take-append xs ys)

drop_exact : (n : ℕ) (xs ys : List ℕ) → length xs ≡ n → drop n (xs ++ ys) ≡ ys
drop_exact n xs ys h = subst (λ k. drop k (xs ++ ys) ≡ ys) h (drop-append xs ys)

take_all : (n : ℕ) (xs : List ℕ) → length xs ≡ n → take n xs ≡ xs
take_all n xs h = subst (λ ys. take n ys ≡ xs) (append-nil xs) (take_exact n xs [] h)

module _ (c : Crypto) where
  p2pk_witness-IsAuthorised :
      (seckey sighash : ℕ)
      → IsSignatureScheme c
      → let pubkey = c.pubkey_from_privkey seckey in
        IsAuthorised c sighash
          (get_p2pk_witness_commitment c pubkey)
          (p2pk_witness c pubkey seckey sighash)
  unfolding p2pk_witness get_p2pk_witness_commitment
  p2pk_witness-IsAuthorised seckey sighash law =
      let pk = c.pubkey_from_privkey seckey in
      let sig = c.schnorrsig_sign sighash seckey in
      let s : IsSigner c seckey sighash = law.signer seckey sighash in
      let key : take 32 (le_bytes 32 pk ++ le_bytes 64 sig) ≡ le_bytes 32 pk =
        take_exact 32 (le_bytes 32 pk) (le_bytes 64 sig) (length-le_bytes 32 pk) in
      let tail : drop 32 (le_bytes 32 pk ++ le_bytes 64 sig) ≡ le_bytes 64 sig =
        drop_exact 32 (le_bytes 32 pk) (le_bytes 64 sig) (length-le_bytes 32 pk) in
      record {
        pubkey = s.pubkey;
        len = omega (
          arith,
          length-append (le_bytes 32 pk) (le_bytes 64 sig),
          length-le_bytes 32 pk,
          length-le_bytes 64 sig,
        );
        p2pk = refl;
        program = ap (λ bs. c.sha256 (0 ∷ bs)) key;
        key = rw (key, from_le-le_bytes 32 pk (law.pubkey_bytes seckey)) s.parsed;
        signature =
            rw
              (
                tail,
                take_all 64 (le_bytes 64 sig) (length-le_bytes 64 sig),
                from_le-le_bytes 64 sig (law.sig_bytes sighash seckey),
              )
              s.verifies;
      }

  -- Every key of the wallet's is of its private key, and a commitment that the wallet knows is of
  -- one of these keys.
  pub record HasKeys (w : Wallet) : Type 0 where
    pub of_private :
        (pubkey seckey : ℕ)
        → find pubkey w.keys ≡ some seckey
        → pubkey ≡ c.pubkey_from_privkey seckey
    pub known :
        (commitment pubkey : ℕ)
        → find commitment w.witness_programs ≡ some pubkey
        → (commitment ≡ get_p2pk_witness_commitment c pubkey)
          × (seckey : ℕ) × (find pubkey w.keys ≡ some seckey)

  sign_input_known :
      (sighash pubkey seckey : ℕ) (w : Wallet) (inp : Input) (wit : List ℕ)
      → find inp.prevout_data.witness_program_commitment w.witness_programs ≡ some pubkey
      → find pubkey w.keys ≡ some seckey
      → sign_input c sighash w inp wit ≡ some (p2pk_witness c pubkey seckey sighash)
  unfolding sign_input
  sign_input_known sighash pubkey seckey w inp wit e k = ground (arith, e, k)

  witness_of_known :
      (sighash commitment pubkey seckey : ℕ)
      → IsSignatureScheme c
      → commitment ≡ get_p2pk_witness_commitment c pubkey
      → pubkey ≡ c.pubkey_from_privkey seckey
      → IsAuthorised c sighash commitment (p2pk_witness c pubkey seckey sighash)
  witness_of_known sighash commitment pubkey seckey law is_hash same =
      subst (λ p. IsAuthorised c sighash p (p2pk_witness c pubkey seckey sighash)) (sym is_hash)
        (subst
          (λ k.
            IsAuthorised c sighash (get_p2pk_witness_commitment c k)
              (p2pk_witness c k seckey sighash))
          (sym same) (p2pk_witness-IsAuthorised seckey sighash law))

  sign_input-eq :
      (sighash : ℕ) (w : Wallet) (inp : Input) (wit : List ℕ)
      → IsSignatureScheme c
      → HasKeys w
      → is_spendable inp w ≡ true
      → (wit' : List ℕ) × (sign_input c sighash w inp wit ≡ some wit')
        × IsAuthorised c sighash inp.prevout_data.witness_program_commitment wit'
  unfolding sign_input is_spendable
  sign_input-eq sighash w inp wit law keys ours =
      let commitment = inp.prevout_data.witness_program_commitment in
      elim (Option-cases (find commitment w.witness_programs)) [
        | inl unknown ↦ absurd (ground arith)
        | inr (pubkey, e) ↦
            let (is_hash, seckey, k) = keys.known commitment pubkey e in
            (
              p2pk_witness c pubkey seckey sighash,
              sign_input_known sighash pubkey seckey w inp wit e k,
              witness_of_known sighash commitment pubkey seckey law is_hash
                  (keys.of_private pubkey seckey k),
            )
      ]

  -- What `sign_inputs` gives: a witness for each input.
  abbrev pub AllSigned : ℕ → List Input → List (List ℕ) → Type 0
  AllSigned sighash inps wits =
      (length wits ≡ length inps)
      × ((i : ℕ)
          → i < length inps
          → IsAuthorised c sighash (get_or inps i no_input).prevout_data.witness_program_commitment
              (get_or wits i []))

  AllSigned-cons :
      (sighash : ℕ) (inp : Input) (inps : List Input) (wit : List ℕ) (wits : List (List ℕ))
      → IsAuthorised c sighash inp.prevout_data.witness_program_commitment wit
      → AllSigned sighash inps wits
      → AllSigned sighash (inp ∷ inps) (wit ∷ wits)
  AllSigned-cons sighash inp inps wit wits a (len, rest) = (ap suc len, at)
    where
      at :
          (i : ℕ)
          → i < suc (length inps)
          → IsAuthorised c sighash
              (get_or (inp ∷ inps) i no_input).prevout_data.witness_program_commitment
              (get_or (wit ∷ wits) i [])
      at zero lt = a
      at (suc i) lt = rest i (omega (arith, lt))

  sign_inputs-eq :
      (sighash : ℕ) (w : Wallet) (inps : List Input) (wits : List (List ℕ))
      → IsSignatureScheme c
      → HasKeys w
      → All (λ inp. is_spendable inp w ≡ true) inps
      → length wits ≡ length inps
      → (wits' : List (List ℕ)) × (sign_inputs c sighash w inps wits ≡ some wits')
        × AllSigned sighash inps wits'
  unfolding sign_inputs
  sign_inputs-eq sighash w [] wits law keys ours len =
      ([], refl, (refl, λ i lt. absurd (omega (arith, lt))))
  sign_inputs-eq sighash w (inp ∷ inps) [] law keys ours len = absurd (omega (arith, len))
  sign_inputs-eq sighash w (inp ∷ inps) (wit ∷ wits) law keys ours len =
      let (wit', e, good) = sign_input-eq sighash w inp wit law keys ours.0 in
      let (wits', es, all) =
        sign_inputs-eq sighash w inps wits law keys ours.1 (omega (arith, len)) in
      (wit' ∷ wits', rw (e, es) refl, AllSigned-cons sighash inp inps wit' wits' good all)

  length-resize : (n : ℕ) (xs : List (List ℕ)) → length (resize n xs) ≡ n
  unfolding resize
  length-resize n xs = omega (
    arith,
    length-append (take n xs) (replicate (n - length xs) []),
    length-replicate {A = List ℕ} (n - length xs) [],
    length-take n xs,
  )

  -- A wallet with the keys of all the inputs signs, and the witnesses are ones that pass.
  pub sign-AllSigned :
      (tx : FullTx) (w : Wallet)
      → IsSignatureScheme c
      → HasKeys w
      → All (λ inp. is_spendable inp w ≡ true) tx.inputs
      → (wits : List (List ℕ)) × (sign c tx w ≡ some (record tx { witness = wits }))
        × AllSigned (tx_id c tx) tx.inputs wits
  unfolding sign
  sign-AllSigned tx w law keys ours =
      let n = length tx.inputs in
      let (wits, e, all) =
        sign_inputs-eq (tx_id c tx) w tx.inputs (resize n tx.witness) law keys ours
          (length-resize n tx.witness) in
      (wits, rw e refl, all)
