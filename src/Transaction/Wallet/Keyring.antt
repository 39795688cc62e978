-- ===== src/Transaction/Wallet/Keyring.antt =====
-- src/uhs/transaction/wallet.cpp: the keys that a wallet has, it keeps.
use cbdc_forensics.Common.{
  ℕ, ◌≡◌, ap, subst, ◌∙◌, ◌⊎◌, inl, inr, true, List, some, arith, length, ltb, find, put, find-put,
  find-put-some, ◌==◌, Bool-cases, Option-cases,
}
use cbdc_forensics.Transaction.{Input}
use cbdc_forensics.Transaction.Crypto.{Crypto}
use cbdc_forensics.Transaction.Validation.{get_p2pk_witness_commitment}
use cbdc_forensics.Transaction.Wallet.{Wallet, Draw, is_spendable, add_key, generate_key}
use cbdc_forensics.Transaction.Wallet.Spend.{change}
use cbdc_forensics.Transaction.Wallet.Ledger.{KeepsRest}
use cbdc_forensics.Transaction.Wallet.Signing.{HasKeys}

-- A later wallet spends what an earlier one did.
abbrev pub Extends : Wallet → Wallet → Type 0
Extends w w' = (inp : Input) → is_spendable inp w ≡ true → is_spendable inp w' ≡ true

-- What a map has after `put`.
find-put-cases :
    (j k v : ℕ) (m : List (ℕ × ℕ)) (x : ℕ)
    → find j (put k v m) ≡ some x
    → (find j m ≡ some x) ⊎ ((j ≡ k) × (v ≡ x))
find-put-cases j k v m x h = elim (Option-cases (find k m)) [
  | inl new ↦ elim (Bool-cases (j == k)) [
    | inl same ↦ inr (ground arith, ground (arith, find-put j k v m, h, same, new))
    | inr other ↦ inl (ground (arith, find-put j k v m, h, other))
  ]
  | inr (y, old) ↦ elim (Bool-cases (j == k)) [
    | inl same ↦
        let key : j ≡ k = ground arith in
        inl (rw key (ground (arith, find-put j k v m, h, same, old)))
    | inr other ↦ inl (ground (arith, find-put j k v m, h, other))
  ]
]

find-put_there : (k v : ℕ) (m : List (ℕ × ℕ)) → (x : ℕ) × (find k (put k v m) ≡ some x)
find-put_there k v m =
    let self : (k == k) ≡ true = ground arith in
    elim (Option-cases (find k m)) [
      | inl new ↦ (v, ground (arith, find-put k k v m, self, new))
      | inr (x, old) ↦ (x, ground (arith, find-put k k v m, self, old))
    ]

module _ (c : Crypto) where
  add_key-HasKeys :
      (seckey : ℕ) (w : Wallet)
      → HasKeys c w
      → HasKeys c (add_key c (c.pubkey_from_privkey seckey) seckey w)
  unfolding add_key
  add_key-HasKeys seckey w h = record {
    of_private = λ k s e. elim (find-put-cases k (c.pubkey_from_privkey seckey) seckey w.keys s e) [
      | inl old ↦ h.of_private k s old
      | inr (key, sec) ↦ key ∙ ap c.pubkey_from_privkey sec
    ];
    known = known;
  }
    where
      pubkey : ℕ
      pubkey = c.pubkey_from_privkey seckey

      known :
          (commitment pk : ℕ)
          → find commitment (put (get_p2pk_witness_commitment c pubkey) pubkey w.witness_programs)
            ≡ some pk
          → (commitment ≡ get_p2pk_witness_commitment c pk)
            × (s : ℕ) × (find pk (put pubkey seckey w.keys) ≡ some s)
      known commitment pk e =
          elim (find-put-cases commitment (get_p2pk_witness_commitment c pubkey) pubkey
            w.witness_programs pk e) [
              | inl old ↦
                  let (is_hash, s, k) = h.known commitment pk old in
                  (is_hash, s, find-put-some pk pubkey seckey w.keys s k)
              | inr (key, same) ↦
                  let (s, k) = find-put_there pubkey seckey w.keys in
                  (
                    key ∙ ap (get_p2pk_witness_commitment c) same,
                    s,
                    subst (λ q. find q (put pubkey seckey w.keys) ≡ some s) same k,
                  )
            ]

  add_key-Extends : (pubkey seckey : ℕ) (w : Wallet) → Extends w (add_key c pubkey seckey w)
  unfolding add_key is_spendable
  add_key-Extends pubkey seckey w inp h =
      let p = inp.prevout_data.witness_program_commitment in
      elim (Option-cases (find p w.witness_programs)) [
        | inl unknown ↦ absurd (ground arith)
        | inr (x, e) ↦ ground (
          arith,
          find-put-some p (get_p2pk_witness_commitment c pubkey) pubkey w.witness_programs x e,
        )
      ]

  pub generate_key-HasKeys :
      (draw : Draw) (w : Wallet)
      → HasKeys c w
      → HasKeys c (generate_key c draw w).1 × Extends w (generate_key c draw w).1
  unfolding generate_key
  generate_key-HasKeys draw w h = elim (Bool-cases (ltb 10000 (length w.keys))) [
    | inl full ↦ rw full (h, λ inp e. e)
    | inr room ↦ rw room (
      add_key-HasKeys draw.seckey w h,
      add_key-Extends (c.pubkey_from_privkey draw.seckey) draw.seckey w,
    )
  ]

  pub change-HasKeys :
      (total amount : ℕ) (draw : Draw) (w : Wallet)
      → HasKeys c w
      → HasKeys c (change c total amount draw w).1 × Extends w (change c total amount draw w).1
  unfolding change
  change-HasKeys total amount draw w h = elim (Bool-cases (ltb amount total)) [
    | inl over ↦ rw over (generate_key-HasKeys draw w h)
    | inr exact ↦ rw exact (h, λ inp e. e)
  ]

  pub KeepsRest-HasKeys : (w w' : Wallet) → KeepsRest w w' → HasKeys c w → HasKeys c w'
  KeepsRest-HasKeys w w' k h = record {
    of_private = λ p s e. h.of_private p s (rw k.keys at e);
    known = λ a p e.
        let (is_hash, s, f) = h.known a p (rw k.witness_programs at e) in (is_hash, s, rw k.keys f);
  }

  pub KeepsRest-Extends : (w w' : Wallet) → KeepsRest w w' → Extends w w'
  unfolding is_spendable
  KeepsRest-Extends w w' k inp h = rw k.witness_programs h
