-- ===== src/Sentinel/Enough.antt =====
-- A sentinel that asks enough others gathers enough attestations.
use cbdc_forensics.Common.{
  ℕ, suc, ◌+◌, ◌≤◌, ◌<◌, ◌≡◌, ap, ◌∙◌, inl, inr, false, List, [], ◌∷◌, none, some, arith, length,
  length-append, ltb, ◌==◌, Bool-cases, member, emplace, member-emplace, find, find-put, put_new,
}
use cbdc_forensics.Transaction.{FullTx, CompactTx}
use cbdc_forensics.Transaction.Crypto.{Crypto}
use cbdc_forensics.Transaction.Ids.{compact_tx, sign}
use cbdc_forensics.Transaction.Validation.{check_tx}
use cbdc_forensics.Sentinel.{
  valid_answer, validate_transaction, Round, Gathered, refused, complete, unfinished,
  insert_attestation, validate_result_handler, gather_attestations,
}
use cbdc_forensics.Sentinel.Gather.{asked, IsNetwork, Answers}

abbrev pub IsComplete : Gathered → Type 0
IsComplete refused = ⊥
IsComplete unfinished = ⊥
IsComplete (complete ctx) = Unit {0}

module _ (c : Crypto) (tx : FullTx) (n : ℕ) (keys : ℕ → ℕ) where
  -- No sentinel that was not asked has attested the transaction.
  abbrev pub IsFresh : List ℕ → CompactTx → Type 0
  IsFresh requested ctx =
      (i : ℕ)
      → i < n
      → member i requested ≡ false
      → find (c.pubkey_from_privkey (keys i)) ctx.attestations ≡ none

  validate_transaction_valid :
      (i : ℕ)
      → check_tx c tx ≡ none
      → validate_transaction c (keys i) tx ≡ some (sign c (compact_tx c tx) (keys i))
  unfolding validate_transaction valid_answer
  validate_transaction_valid i valid = rw valid

  length-insert_attestation :
      (i : ℕ) (requested : List ℕ) (ctx : CompactTx)
      → IsFresh requested ctx
      → i < n
      → member i requested ≡ false
      → length (insert_attestation (sign c (compact_tx c tx) (keys i)) ctx).attestations
        ≡ suc (length ctx.attestations)
  unfolding insert_attestation sign
  length-insert_attestation i requested ctx fresh lt new =
      let (k, v) = sign c (compact_tx c tx) (keys i) in
      ap length (put_new k v ctx.attestations (fresh i lt new))
      ∙ omega (arith, length-append ctx.attestations ((k, v) ∷ []))

  insert_attestation-IsFresh :
      (i : ℕ) (requested : List ℕ) (ctx : CompactTx)
      → ((j : ℕ) → j < n → c.pubkey_from_privkey (keys j) ≡ c.pubkey_from_privkey (keys i) → j ≡ i)
      → IsFresh requested ctx
      → IsFresh (emplace i requested) (insert_attestation (sign c (compact_tx c tx) (keys i)) ctx)
  unfolding insert_attestation sign
  insert_attestation-IsFresh i requested ctx distinct fresh j lt new =
      let (k, v) = sign c (compact_tx c tx) (keys i) in
      let other : member j requested ≡ false = ground (arith, member-emplace j i requested, new) in
      let apart : (j == i) ≡ false = ground (arith, member-emplace j i requested, new) in
      let differ : (c.pubkey_from_privkey (keys j) == k) ≡ false =
        ground (arith, distinct j lt, apart) in
      ground (
        arith,
        find-put (c.pubkey_from_privkey (keys j)) k v ctx.attestations,
        differ,
        fresh j lt other,
      )

  pub gather_attestations-IsComplete :
      (pubkeys : List ℕ) (threshold : ℕ) (ctx : CompactTx) (requested : List ℕ)
      (rounds : List Round)
      → IsNetwork c tx pubkeys n keys
      → check_tx c tx ≡ none
      → Answers c tx n keys rounds
      → IsFresh requested ctx
      → threshold ≤ length ctx.attestations + length (asked requested rounds)
      → IsComplete (gather_attestations threshold ctx requested rounds)
  unfolding gather_attestations asked
  gather_attestations-IsComplete pubkeys threshold ctx requested [] net valid answers fresh enough =
      let met : ltb (length ctx.attestations) threshold ≡ false = ground (arith, enough) in
      rw met tt
  gather_attestations-IsComplete pubkeys threshold ctx requested (r ∷ rounds) net valid answers
        fresh enough =
      let same =
        gather_attestations-IsComplete pubkeys threshold ctx requested rounds net valid answers.1
          fresh in
      elim (Bool-cases (ltb (length ctx.attestations) threshold)) [
        | inr met ↦ rw met tt
        | inl few ↦ elim (Bool-cases (member r.sentinel_id requested)) [
          | inl old ↦ rw (few, old) (same (rw old at enough))
          | inr new ↦ elim (Bool-cases r.sent) [
            | inr unsent ↦ rw (few, new, unsent) (same (rw (new, unsent) at enough))
            | inl sent ↦
                let i = r.sentinel_id in
                let att = sign c (compact_tx c tx) (keys i) in
                let answer : r.answer ≡ some att =
                  answers.0.1 ∙ validate_transaction_valid i valid in
                let apart = λ (j : ℕ) (lt : j < n). net.distinct j i lt answers.0.0 in
                let left : threshold
                    ≤ length ctx.attestations + suc (length (asked (emplace i requested) rounds)) =
                  rw (new, sent) at enough in
                let rest =
                  gather_attestations-IsComplete pubkeys threshold (insert_attestation att ctx)
                    (emplace i requested) rounds net valid answers.1
                    (insert_attestation-IsFresh i requested ctx apart fresh)
                    (omega (
                      arith,
                      left,
                      length-insert_attestation i requested ctx fresh answers.0.0 new,
                    )) in
                rw (few, new, sent, answer, validate_result_handler) rest
          ]
        ]
      ]
