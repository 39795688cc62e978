-- ===== src/Atomizer/Shard/Attest.antt =====
-- src/uhs/atomizer/shard/shard.cpp, `digest_transaction`: what a shard attests.
use cbdc_forensics.Common.{
  ℕ, zero, suc, ◌+◌, ◌<◌, ◌≡◌, ◌≢◌, refl, ap, ◌∙◌, inl, inr, ◌⊎◌, ◌↔◌, Bool, true, false, not, ◌&&◌,
  Option, none, some, List, [], ◌∷◌, ◌++◌, append_assoc, append-nil, arith, ◌==◌, if◌then◌else◌,
  Bool-cases, member, All, All,
}
use cbdc_forensics.Transaction.{CompactTx}
use cbdc_forensics.Atomizer.{TxError, tx_error_sync, tx_error_inputs_dne}
use cbdc_forensics.Atomizer.Leveldb.{Leveldb, IsStore, output_key}
use cbdc_forensics.Atomizer.Shard.{
  Shard, notify_request, tx_error, TxNotifyRequest, is_output_on_shard, Checked, check_input,
  check_inputs, answer, digest_inputs, digest_transaction,
}
use cbdc_forensics.Atomizer.Shard.Refine.{is_found, Represents}

List-cases : (xs : List ℕ) → (xs ≡ []) ⊎ ((x : ℕ) × (ys : List ℕ) × (xs ≡ x ∷ ys))
List-cases [] = inl refl
List-cases (x ∷ ys) = inr (x, ys, refl)

module _ (l : Leveldb) where
  -- The inputs of the shard's range that are not in the set, and the indices of those that are, from
  -- index `i`.
  unfoldable pub missing : Shard l → (ℕ → Bool) → List ℕ → List ℕ
  missing s u [] = []
  missing s u (inp ∷ inps) =
      let rest = missing s u inps in
      if is_output_on_shard l inp s && not (u inp) then inp ∷ rest else rest

  unfoldable pub attested : Shard l → (ℕ → Bool) → ℕ → List ℕ → List ℕ
  attested s u i [] = []
  attested s u i (inp ∷ inps) =
      let rest = attested s u (suc i) inps in
      if is_output_on_shard l inp s && u inp then i ∷ rest else rest

  check_input-eq :
      (i inp : ℕ) (v : Option (List ℕ)) (k : Checked)
      → check_input i inp v k ≡ (
          if is_found v
          then record k { attestations = k.attestations ++ (i ∷ []) }
          else record k { dne_inputs = k.dne_inputs ++ (inp ∷ []) })
  unfolding check_input
  check_input-eq i inp none k = refl
  check_input-eq i inp (some v) k = refl

  snapshot_found :
      (law : IsStore l) (s : Shard l) (u : ℕ → Bool) (h : ℕ)
      → Represents l s u
      → is_output_on_shard l h s ≡ true
      → is_found (l.get_at (output_key h) s.snp) ≡ u h
  snapshot_found law s u h r mine =
      rw (r.current, law.get_at-get_snapshot (output_key h) s.db) (r.stored h mine)

  check_inputs-eq :
      (law : IsStore l) (s : Shard l) (u : ℕ → Bool) (i : ℕ) (inps : List ℕ) (k : Checked)
      → Represents l s u
      → check_inputs l i inps s k ≡ record {
        attestations = k.attestations ++ attested s u i inps;
        dne_inputs = k.dne_inputs ++ missing s u inps;
      }
  unfolding check_inputs attested missing
  check_inputs-eq law s u i [] k r = rw (append-nil k.attestations, append-nil k.dne_inputs) refl
  check_inputs-eq law s u i (inp ∷ inps) k r = elim (Bool-cases (is_output_on_shard l inp s)) [
    | inl mine ↦
        let v = l.get_at (output_key inp) s.snp in
        let found : is_found v ≡ u inp = snapshot_found law s u inp r mine in
        let step = check_input-eq i inp v k in
        elim (Bool-cases (u inp)) [
          | inl there ↦
              rw (mine, step, found, there, check_inputs-eq law s u (suc i) inps _ r, append_assoc)
                refl
          | inr gone ↦
              rw (mine, step, found, gone, check_inputs-eq law s u (suc i) inps _ r, append_assoc)
                refl
        ]
    | inr foreign ↦ rw foreign (check_inputs-eq law s u (suc i) inps k r)
  ]

  attested_above :
      (s : Shard l) (u : ℕ → Bool) (j i : ℕ) (inps : List ℕ)
      → j < i
      → member j (attested s u i inps) ≡ false
  unfolding attested member
  attested_above s u j i [] lt = refl
  attested_above s u j i (inp ∷ inps) lt =
      ground (arith, attested_above s u j (suc i) inps (omega (arith, lt)))

  -- Whether there is an input of the shard's range at an index, and whether it is unspent too.
  unfoldable pub own_at : Shard l → List ℕ → ℕ → Bool
  own_at s [] j = false
  own_at s (inp ∷ inps) zero = is_output_on_shard l inp s
  own_at s (inp ∷ inps) (suc j) = own_at s inps j

  unspent_at : Shard l → (ℕ → Bool) → List ℕ → ℕ → Bool
  unspent_at s u [] j = false
  unspent_at s u (inp ∷ inps) zero = is_output_on_shard l inp s && u inp
  unspent_at s u (inp ∷ inps) (suc j) = unspent_at s u inps j

  member-attested :
      (s : Shard l) (u : ℕ → Bool) (i j : ℕ) (inps : List ℕ)
      → member (j + i) (attested s u i inps) ≡ unspent_at s u inps j
  unfolding attested member unspent_at
  member-attested s u i j [] = refl
  member-attested s u i zero (inp ∷ inps) =
      let above = attested_above s u i (suc i) inps (omega arith) in
      let start : 0 + i ≡ i = omega arith in
      rw start (elim (Bool-cases (is_output_on_shard l inp s && u inp)) [
        | inl ours ↦ ground (arith, ours)
        | inr other ↦ ground (arith, other, above)
      ])
  member-attested s u i (suc j) (inp ∷ inps) =
      let rest = member-attested s u (suc i) j inps in
      let later : suc j + i ≡ j + suc i = omega arith in
      rw later (elim (Bool-cases (is_output_on_shard l inp s && u inp)) [
        | inl ours ↦ ground (arith, ours, rest)
        | inr other ↦ ground (arith, other, rest)
      ])

  -- Every input of the shard's range is unspent.
  abbrev pub HasInputs : Shard l → (ℕ → Bool) → List ℕ → Type 0
  HasInputs s u inps = All (λ inp. (is_output_on_shard l inp s && not (u inp)) ≡ false) inps

  missing-eq_nil :
      (s : Shard l) (u : ℕ → Bool) (inps : List ℕ) → (missing s u inps ≡ []) ↔ HasInputs s u inps
  unfolding missing
  missing-eq_nil s u [] = (λ e. tt, λ h. refl)
  missing-eq_nil s u (inp ∷ inps) =
      let rest = missing-eq_nil s u inps in
      elim (Bool-cases (is_output_on_shard l inp s && not (u inp))) [
        | inl gone ↦
            (λ e. absurd (ground (arith, e, gone)), λ h. absurd (ground (arith, h.0, gone)))
        | inr fine ↦ (λ e. (fine, rest.0 (rw fine at e)), λ h. rw fine (rest.1 h.1))
      ]

  unspent_at-own_at :
      (s : Shard l) (u : ℕ → Bool) (inps : List ℕ) (j : ℕ)
      → HasInputs s u inps
      → unspent_at s u inps j ≡ own_at s inps j
  unfolding unspent_at own_at
  unspent_at-own_at s u [] j h = refl
  unspent_at-own_at s u (inp ∷ inps) zero h = ground (arith, h.0)
  unspent_at-own_at s u (inp ∷ inps) (suc j) h = unspent_at-own_at s u inps j h.1

  -- What a transaction needs for a notification: the shard has digested a block, the transaction has
  -- inputs, and those of the shard's range are unspent.
  abbrev pub IsAttestable : Shard l → (ℕ → Bool) → CompactTx → Type 0
  IsAttestable s u tx = (s.best_block_height ≢ 0) × (tx.inputs ≢ []) × HasInputs s u tx.inputs

  -- A notification with the shard's height, of exactly the inputs of its range.
  abbrev pub Attests : Shard l → CompactTx → Type 0
  Attests s tx =
      (r : TxNotifyRequest) × (digest_transaction l tx s ≡ notify_request r)
      × (r.tx ≡ tx)
      × (r.block_height ≡ s.best_block_height)
      × ((i : ℕ) → member i r.attestations ≡ own_at s tx.inputs i)

  abbrev pub Refuses : Shard l → CompactTx → Type 0
  Refuses s tx = (e : TxError) × (digest_transaction l tx s ≡ tx_error e) × (e.tx_id ≡ tx.id)

  digest_inputs_lem :
      (law : IsStore l) (s : Shard l) (u : ℕ → Bool) (tx : CompactTx)
      → Represents l s u
      → tx.inputs ≢ []
      → digest_inputs l tx tx.inputs s
        ≡ answer l tx s (attested s u 0 tx.inputs) (missing s u tx.inputs)
  unfolding digest_inputs
  digest_inputs_lem law s u tx r some_inputs = from_cons tx.inputs some_inputs
    where
      from_cons :
          (inps : List ℕ)
          → inps ≢ []
          → digest_inputs l tx inps s ≡ answer l tx s (attested s u 0 inps) (missing s u inps)
      from_cons [] h = absurd (h refl)
      from_cons (inp ∷ inps) h =
          ap (λ k. answer l tx s k.attestations k.dne_inputs)
            (check_inputs-eq law s u 0 (inp ∷ inps) (record { attestations = []; dne_inputs = [] })
              r)

  answered :
      (law : IsStore l) (s : Shard l) (u : ℕ → Bool) (tx : CompactTx)
      → Represents l s u
      → s.best_block_height ≢ 0
      → tx.inputs ≢ []
      → digest_transaction l tx s ≡ answer l tx s (attested s u 0 tx.inputs) (missing s u tx.inputs)
  unfolding digest_transaction
  answered law s u tx r h some_inputs =
      let synced : (s.snp_height == 0) ≡ false = ground (arith, r.snp_current, h) in
      rw synced (digest_inputs_lem law s u tx r some_inputs)

  attests :
      (law : IsStore l) (s : Shard l) (u : ℕ → Bool) (tx : CompactTx)
      → Represents l s u
      → IsAttestable s u tx
      → Attests s tx
  unfolding answer
  attests law s u tx r (h, some_inputs, has) =
      let none_missing : missing s u tx.inputs ≡ [] = (missing-eq_nil s u tx.inputs).1 has in
      (
        record { tx = tx; attestations = attested s u 0 tx.inputs; block_height = s.snp_height },
        answered law s u tx r h some_inputs ∙ (rw none_missing refl),
        refl,
        r.snp_current,
        λ i.
            ap (λ k. member k (attested s u 0 tx.inputs)) {x = i} {y = i + 0} (omega arith)
            ∙ member-attested s u 0 i tx.inputs
            ∙ unspent_at-own_at s u tx.inputs i has,
      )

  refuses :
      (tx : CompactTx) (s : Shard l) (atts : List ℕ) (inp : ℕ) (dne : List ℕ)
      → digest_transaction l tx s ≡ answer l tx s atts (inp ∷ dne)
      → Refuses s tx
  unfolding answer
  refuses tx s atts inp dne e =
      (record { tx_id = tx.id; info = tx_error_inputs_dne (inp ∷ dne) }, e, refl)

  -- A shard that represents a set of unspent outputs answers a transaction by a notification with
  -- its height, that attests exactly the inputs of its range by their indices, when it has digested
  -- a block and the transaction has inputs of which those in its range are unspent; and otherwise,
  -- exactly, by an error with the transaction's identifier.
  pub digest_transaction_lem :
      (law : IsStore l) (s : Shard l) (u : ℕ → Bool) (tx : CompactTx)
      → Represents l s u
      → (IsAttestable s u tx × Attests s tx) ⊎ ((IsAttestable s u tx → ⊥) × Refuses s tx)
  unfolding digest_transaction digest_inputs
  digest_transaction_lem law s u tx r = elim (Bool-cases (s.best_block_height == 0)) [
    | inl fresh ↦
        let sync : (s.snp_height == 0) ≡ true = ground (arith, r.snp_current, fresh) in
        inr (
          λ ok. ok.0 (ground (arith, fresh)),
          (record { tx_id = tx.id; info = tx_error_sync }, rw sync refl, refl),
        )
    | inr synced ↦ elim (List-cases tx.inputs) [
      | inl empty ↦
          let old : (s.snp_height == 0) ≡ false = ground (arith, r.snp_current, synced) in
          inr (
            λ ok. ok.1 empty,
            (record { tx_id = tx.id; info = tx_error_inputs_dne [] }, rw (old, empty) refl, refl),
          )
      | inr (x, xs, is_cons) ↦
          let height : s.best_block_height ≢ 0 = λ e. ground (arith, e, synced) in
          let some_inputs : tx.inputs ≢ [] = λ e. cc in
          elim (List-cases (missing s u tx.inputs)) [
            | inl all ↦
                let ok : IsAttestable s u tx =
                  (height, some_inputs, (missing-eq_nil s u tx.inputs).0 all) in
                inl (ok, attests law s u tx r ok)
            | inr (inp, dne, gone) ↦
                let bad : missing s u tx.inputs ≢ [] = λ e. cc in
                inr (
                  λ ok. bad ((missing-eq_nil s u tx.inputs).1 ok.2),
                  refuses tx s (attested s u 0 tx.inputs) inp dne (
                      answered law s u tx r height some_inputs
                      ∙ ap (answer l tx s (attested s u 0 tx.inputs)) gone),
                )
          ]
    ]
  ]
