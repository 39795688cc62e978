-- ===== src/TwoPhase/Sentinel/Attested.antt =====
-- What a sentinel of the two-phase architecture forwards to its coordinator.
use cbdc_forensics.Common.{
  ℕ, suc, ◌+◌, ◌≤◌, ◌<◌, ◌≡◌, ◌≢◌, refl, ap, subst, ◌∙◌, inl, inr, Bool, true, false, List, [], ◌∷◌,
  none, some, arith, length, ltb, Bool-cases, Option-cases, find, put, member,
}
use cbdc_forensics.Transaction.{FullTx, CompactTx}
use cbdc_forensics.Transaction.Crypto.{Crypto}
use cbdc_forensics.Transaction.Ids.{compact_tx, compact_tx_hash, sign}
use cbdc_forensics.Transaction.Ids.Attestation.{IsSigner}
use cbdc_forensics.Transaction.Validation.{check_tx, check_attestations}
use cbdc_forensics.Sentinel.{
  Round, Gathered, refused, complete, unfinished, insert_attestation, gather_attestations,
}
use cbdc_forensics.Sentinel.Gather.{
  asked, IsNetwork, Answers, Carries, Sound, compact_tx-Carries, insert_attestation-Carries,
  sign-IsGood, Carries-check_attestations, gather_attestations-Sound,
}
use cbdc_forensics.Sentinel.Enough.{IsFresh, IsComplete, gather_attestations-IsComplete}
use cbdc_forensics.TwoPhase.Sentinel.{
  forwarded, send_compact_tx, forward, own_attestation, execute_checked, execute_transaction,
}

-- The coordinator takes the transaction at some call.
abbrev pub Takes : List Bool → Type 0
Takes [] = ⊥
Takes (true ∷ calls) = Unit {0}
Takes (false ∷ calls) = Takes calls

send_compact_tx_forwards :
    (ctx : CompactTx) (calls : List Bool) → Takes calls → send_compact_tx ctx calls ≡ forwarded ctx
unfolding send_compact_tx
send_compact_tx_forwards ctx [] h = absurd h
send_compact_tx_forwards ctx (true ∷ calls) h = refl
send_compact_tx_forwards ctx (false ∷ calls) h = send_compact_tx_forwards ctx calls h

send_compact_tx-eq :
    (ctx ctx' : CompactTx) (calls : List Bool)
    → send_compact_tx ctx calls ≡ forwarded ctx'
    → ctx ≡ ctx'
unfolding send_compact_tx
send_compact_tx-eq ctx ctx' [] e = cc
send_compact_tx-eq ctx ctx' (true ∷ calls) e = cc
send_compact_tx-eq ctx ctx' (false ∷ calls) e = send_compact_tx-eq ctx ctx' calls e

module _ (c : Crypto) (tx : FullTx) (pubkeys : List ℕ) (n : ℕ) (keys : ℕ → ℕ) (privkey : ℕ) where
  own_attestation-Carries :
      (threshold : ℕ)
      → IsSigner c privkey (compact_tx_hash c (compact_tx c tx))
      → member (c.pubkey_from_privkey privkey) pubkeys ≡ true
      → Carries c tx pubkeys (own_attestation c privkey threshold tx)
  unfolding own_attestation
  own_attestation-Carries threshold s known = elim (Bool-cases (ltb 0 threshold)) [
    | inl wanted ↦ rw wanted (
        insert_attestation-Carries c tx pubkeys (compact_tx c tx) (sign c (compact_tx c tx) privkey)
          (compact_tx-Carries c tx pubkeys) (sign-IsGood c tx pubkeys privkey s known))
    | inr unwanted ↦ rw unwanted (compact_tx-Carries c tx pubkeys)
  ]

  own_attestation-IsFresh :
      (threshold : ℕ)
      → ((i : ℕ) → i < n → c.pubkey_from_privkey (keys i) ≢ c.pubkey_from_privkey privkey)
      → IsFresh c tx n keys [] (own_attestation c privkey threshold tx)
  unfolding own_attestation insert_attestation compact_tx sign find put
  own_attestation-IsFresh threshold apart i lt new = ground (arith, apart i lt)

  own_attestation_count :
      (threshold k : ℕ)
      → threshold ≤ suc k
      → threshold ≤ length (own_attestation c privkey threshold tx).attestations + k
  unfolding own_attestation insert_attestation compact_tx sign put
  own_attestation_count threshold k h = ground arith

  forward-Sound :
      (threshold : ℕ) (g : Gathered) (ctx : CompactTx) (calls : List Bool)
      → Sound c tx pubkeys threshold g
      → forward calls g ≡ forwarded ctx
      → Carries c tx pubkeys ctx × (threshold ≤ length ctx.attestations)
  unfolding forward Sound
  forward-Sound threshold refused ctx calls s e = cc
  forward-Sound threshold unfinished ctx calls s e = cc
  forward-Sound threshold (complete ctx') ctx calls s e =
      subst (λ t. Carries c tx pubkeys t × (threshold ≤ length t.attestations))
        (send_compact_tx-eq ctx' ctx calls e) s

  -- The sentinel and the remote sentinels, which answer by `validate_transaction`, sign validly by
  -- known keys. When a sentinel forwards a compact transaction, `check_tx` has accepted the full
  -- transaction, the compact one is that of the full one with attestations, and
  -- `check_attestations`, by which the shards check it, passes.
  pub forwarded_is_attested :
      (threshold : ℕ) (rounds : List Round) (calls : List Bool) (ctx : CompactTx)
      → IsSigner c privkey (compact_tx_hash c (compact_tx c tx))
      → member (c.pubkey_from_privkey privkey) pubkeys ≡ true
      → IsNetwork c tx pubkeys n keys
      → Answers c tx n keys rounds
      → execute_transaction c privkey threshold tx rounds calls ≡ forwarded ctx
      → (check_tx c tx ≡ none)
        × (record ctx { attestations = [] } ≡ compact_tx c tx)
        × (check_attestations c ctx pubkeys threshold ≡ true)
  unfolding execute_transaction execute_checked
  forwarded_is_attested threshold rounds calls ctx s known net answers e =
      elim (Option-cases (check_tx c tx)) [
        | inr (err, invalid) ↦
            let other : execute_checked c privkey threshold tx rounds calls (some err)
                ≡ forwarded ctx =
              rw invalid at e in
            cc
        | inl valid ↦
            let own = own_attestation c privkey threshold tx in
            let sound =
              gather_attestations-Sound c tx pubkeys n keys threshold own [] rounds net answers
                (own_attestation-Carries threshold s known) in
            let (carries, enough) =
              forward-Sound threshold (gather_attestations threshold own [] rounds) ctx calls sound
                (rw valid at e) in
            (
              valid,
              carries.body,
              Carries-check_attestations c tx pubkeys ctx threshold carries enough,
            )
      ]

  forward-IsComplete :
      (g : Gathered) (calls : List Bool)
      → IsComplete g
      → Takes calls
      → (ctx : CompactTx) × (forward calls g ≡ forwarded ctx)
  unfolding forward
  forward-IsComplete refused calls h t = absurd h
  forward-IsComplete unfinished calls h t = absurd h
  forward-IsComplete (complete ctx) calls h t = (ctx, send_compact_tx_forwards ctx calls t)

  -- A sentinel executes a valid transaction. The remote sentinels answer by `validate_transaction`,
  -- and they and it sign validly by known keys, all different. When the rounds ask enough of them
  -- for the threshold, the sentinel's own attestation counted, and the coordinator takes a
  -- transaction at some call, the sentinel forwards a compact transaction.
  pub execute_transaction_forwards :
      (threshold : ℕ) (rounds : List Round) (calls : List Bool)
      → check_tx c tx ≡ none
      → IsNetwork c tx pubkeys n keys
      → ((i : ℕ) → i < n → c.pubkey_from_privkey (keys i) ≢ c.pubkey_from_privkey privkey)
      → Answers c tx n keys rounds
      → threshold ≤ suc (length (asked [] rounds))
      → Takes calls
      → (ctx : CompactTx) × (execute_transaction c privkey threshold tx rounds calls
          ≡ forwarded ctx)
  unfolding execute_transaction execute_checked
  execute_transaction_forwards threshold rounds calls valid net apart answers enough taken =
      let own = own_attestation c privkey threshold tx in
      let done =
        gather_attestations-IsComplete c tx n keys pubkeys threshold own [] rounds net valid answers
          (own_attestation-IsFresh threshold apart)
          (own_attestation_count threshold (length (asked [] rounds)) enough) in
      let (ctx, e) =
        forward-IsComplete (gather_attestations threshold own [] rounds) calls done taken in
      (ctx, ap (execute_checked c privkey threshold tx rounds calls) valid ∙ e)
