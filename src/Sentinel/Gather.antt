-- ===== src/Sentinel/Gather.antt =====
-- What the attestations that a sentinel gathers amount to, when the remote sentinels answer by
-- `validate_transaction`.
use cbdc_forensics.Common.{
  ℕ, ◌≤◌, ◌<◌, ◌≡◌, refl, ap, subst, ◌∙◌, sym, inl, inr, Bool, true, false, ◌&&◌, List, [], ◌∷◌,
  Option, none, some, arith, length, ltb, ◌==◌, if◌then◌else◌, Bool-cases, Option-cases, All,
  All-map, member, emplace, Map, put,
}
use cbdc_forensics.Transaction.{FullTx, CompactTx}
use cbdc_forensics.Transaction.Crypto.{Crypto}
use cbdc_forensics.Transaction.Ids.{compact_tx, compact_tx_hash, sign, verify}
use cbdc_forensics.Transaction.Ids.Attestation.{
  IsSigner, verify-sign, verify-attestations, check_attestations-All,
}
use cbdc_forensics.Transaction.Validation.{check_tx, check_attestations}
use cbdc_forensics.Sentinel.{
  valid_answer, validate_transaction, Round, Gathered, refused, complete, unfinished,
  insert_attestation, validate_result_handler, gather_attestations,
}

All-put : (P : ℕ × ℕ → Type 0) (k v : ℕ) (m : Map ℕ) → All P m → P (k, v) → All P (put k v m)
unfolding put
All-put P k v [] all new = (new, tt)
All-put P k v ((j, w) ∷ m) all new = elim (Bool-cases (k == j)) [
  | inl same ↦ rw same all
  | inr other ↦ rw other (all.0, All-put P k v m all.1 new)
]

-- The sentinels that are asked in these rounds, if the threshold is not met before.
unfoldable pub asked : List ℕ → List Round → List ℕ
asked requested [] = []
asked requested (r ∷ rounds) =
    let more = r.sentinel_id ∷ asked (emplace r.sentinel_id requested) rounds in
    let same = asked requested rounds in
    if member r.sentinel_id requested then same else if r.sent then more else same

-- `n` remote sentinels by the numbers of their clients, with their private keys: each signs the
-- transaction validly by a known key, and no two have the same.
pub record IsNetwork (c : Crypto) (tx : FullTx) (pubkeys : List ℕ) (n : ℕ) (keys : ℕ → ℕ)
    : Type 0 where
  pub signs : (i : ℕ) → i < n → IsSigner c (keys i) (compact_tx_hash c (compact_tx c tx))
  pub known : (i : ℕ) → i < n → member (c.pubkey_from_privkey (keys i)) pubkeys ≡ true
  pub distinct :
      (i j : ℕ)
      → i < n
      → j < n
      → c.pubkey_from_privkey (keys i) ≡ c.pubkey_from_privkey (keys j)
      → i ≡ j

-- The answers are those of `validate_transaction`.
abbrev pub Answers : Crypto → FullTx → ℕ → (ℕ → ℕ) → List Round → Type 0
Answers c tx n keys =
    All (λ r. (r.sentinel_id < n) × (r.answer ≡ validate_transaction c (keys r.sentinel_id) tx))

module _ (c : Crypto) (tx : FullTx) (pubkeys : List ℕ) where
  abbrev IsGood : ℕ × ℕ → Type 0
  IsGood att = (member att.0 pubkeys && verify c (compact_tx c tx) att) ≡ true

  -- The compact form of the transaction, with valid attestations by known keys.
  pub record Carries (ctx : CompactTx) : Type 0 where
    pub body : record ctx { attestations = [] } ≡ compact_tx c tx
    pub each : All IsGood ctx.attestations

  pub compact_tx-Carries : Carries (compact_tx c tx)
  unfolding compact_tx
  compact_tx-Carries = record { body = refl; each = tt }

  pub insert_attestation-Carries :
      (ctx : CompactTx) (att : ℕ × ℕ)
      → Carries ctx
      → IsGood att
      → Carries (insert_attestation att ctx)
  unfolding insert_attestation
  insert_attestation-Carries ctx (k, v) h good = record {
    body = h.body;
    each = All-put IsGood k v ctx.attestations h.each good;
  }

  pub sign-IsGood :
      (key : ℕ)
      → IsSigner c key (compact_tx_hash c (compact_tx c tx))
      → member (c.pubkey_from_privkey key) pubkeys ≡ true
      → IsGood (sign c (compact_tx c tx) key)
  unfolding sign
  sign-IsGood key s known = rw (known, verify-sign c (compact_tx c tx) key s)

  pub Carries-check_attestations :
      (ctx : CompactTx) (threshold : ℕ)
      → Carries ctx
      → threshold ≤ length ctx.attestations
      → check_attestations c ctx pubkeys threshold ≡ true
  Carries-check_attestations ctx threshold h enough =
      let same : (att : ℕ × ℕ) → verify c ctx att ≡ verify c (compact_tx c tx) att = λ att.
        verify-attestations c (record ctx { attestations = [] }) ctx.attestations att
        ∙ ap (λ t. verify c t att) h.body in
      (check_attestations-All c ctx pubkeys threshold).1 (
        enough,
        All-map (λ att good. ap (λ b. member att.0 pubkeys && b) (same att) ∙ good) ctx.attestations
            h.each,
      )

  validate_transaction-IsGood :
      (n : ℕ) (keys : ℕ → ℕ) (i : ℕ) (att : ℕ × ℕ)
      → IsNetwork c tx pubkeys n keys
      → i < n
      → some att ≡ validate_transaction c (keys i) tx
      → IsGood att
  unfolding validate_transaction valid_answer
  validate_transaction-IsGood n keys i att net lt e = elim (Option-cases (check_tx c tx)) [
    | inl valid ↦
        let same : some att ≡ some (sign c (compact_tx c tx) (keys i)) = rw valid at e in
        let is : att ≡ sign c (compact_tx c tx) (keys i) = cc in
        subst IsGood (sym is) (sign-IsGood (keys i) (net.signs i lt) (net.known i lt))
    | inr (err, invalid) ↦ let nothing : some att ≡ none = rw invalid at e in cc
  ]

  -- What is complete is valid and has enough attestations.
  unfoldable pub Sound : ℕ → Gathered → Type 0
  Sound threshold refused = Unit {0}
  Sound threshold unfinished = Unit {0}
  Sound threshold (complete ctx) = Carries ctx × (threshold ≤ length ctx.attestations)

  Sound-if :
      (threshold : ℕ) (b : Bool) (x y : Gathered)
      → Sound threshold x
      → Sound threshold y
      → Sound threshold (if b then x else y)
  Sound-if threshold true x y p q = p
  Sound-if threshold false x y p q = q

  Sound-validate_result_handler :
      (threshold : ℕ) (answer : Option (ℕ × ℕ)) (gather : ℕ × ℕ → Gathered)
      → ((att : ℕ × ℕ) → answer ≡ some att → Sound threshold (gather att))
      → Sound threshold (validate_result_handler answer gather)
  unfolding validate_result_handler Sound
  Sound-validate_result_handler threshold none gather h = tt
  Sound-validate_result_handler threshold (some att) gather h = h att refl

  enough_or :
      (threshold : ℕ) (ctx : CompactTx) (g : Gathered)
      → Carries ctx
      → Sound threshold g
      → Sound threshold (if ltb (length ctx.attestations) threshold then g else complete ctx)
  unfolding Sound
  enough_or threshold ctx g h s = elim (Bool-cases (ltb (length ctx.attestations) threshold)) [
    | inl few ↦ rw few s
    | inr enough ↦ rw enough (h, ground arith)
  ]

  pub gather_attestations-Sound :
      (n : ℕ) (keys : ℕ → ℕ) (threshold : ℕ) (ctx : CompactTx) (requested : List ℕ)
      (rounds : List Round)
      → IsNetwork c tx pubkeys n keys
      → Answers c tx n keys rounds
      → Carries ctx
      → Sound threshold (gather_attestations threshold ctx requested rounds)
  unfolding gather_attestations Sound
  gather_attestations-Sound n keys threshold ctx requested [] net answers h =
      enough_or threshold ctx unfinished h tt
  gather_attestations-Sound n keys threshold ctx requested (r ∷ rounds) net answers h =
      let again = gather_attestations-Sound n keys threshold ctx requested rounds net answers.1 h in
      let asks =
        Sound-validate_result_handler threshold r.answer
          (λ att.
            gather_attestations threshold (insert_attestation att ctx)
              (emplace r.sentinel_id requested) rounds)
          (λ att e.
            gather_attestations-Sound n keys threshold (insert_attestation att ctx)
              (emplace r.sentinel_id requested) rounds net answers.1
              (insert_attestation-Carries ctx att h (
                validate_transaction-IsGood n keys r.sentinel_id att net answers.0.0
                  (sym e ∙ answers.0.1)))) in
      enough_or threshold ctx _ h (
        Sound-if threshold (member r.sentinel_id requested) _ _ again
          (Sound-if threshold r.sent _ _ asks again))
