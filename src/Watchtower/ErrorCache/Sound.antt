-- ===== src/Watchtower/ErrorCache/Sound.antt =====
-- src/uhs/atomizer/watchtower/error_cache.cpp: that an answer is about what was asked, and the bound.
use cbdc_forensics.Common.{
  ℕ, ◌≤◌, ◌≡◌, refl, sym, ap, ◌∙◌, subst, ◌⊎◌, inl, inr, Bool, true, false, none, some, List, [],
  ◌∷◌, arith, ◌==◌, ==_iff, length, length-append, if◌then◌else◌, Bool-cases, Option-cases,
  Option-cases, member, Map, find, put, remove, find-put, find-remove,
}
use cbdc_forensics.Atomizer.{TxError}
use cbdc_forensics.Watchtower.ErrorCache.{
  ErrorCache, new, input_uhs_ids, erase_errs, insert_errs, pop_error, is_full, add_error,
  push_errors, check_tx_id, check_uhs_id,
}

-- Every entry of a map fits its key.
abbrev Fits : (ℕ → TxError → Bool) → Map TxError → Type 0
Fits P m = (id : ℕ) (e : TxError) → find id m ≡ some e → P id e ≡ true

remove-Fits : (P : ℕ → TxError → Bool) (k : ℕ) (m : Map TxError) → Fits P m → Fits P (remove k m)
remove-Fits P k m h id e f = elim (Bool-cases (id == k)) [
  | inl same ↦ let no : none ≡ some e = rw (sym f) (ground (arith, same, find-remove id k m)) in cc
  | inr other ↦ h id e (ground (arith, other, find-remove id k m, f))
]

put_fresh :
    (id k : ℕ) (v : TxError) (m : Map TxError)
    → (id == k) ≡ true
    → find k m ≡ none
    → find id (put k v m) ≡ some v
put_fresh id k v m same fresh = find-put id k v m ∙ simp (same, fresh)

put_old :
    (id k : ℕ) (v w : TxError) (m : Map TxError)
    → (id == k) ≡ true
    → find k m ≡ some w
    → find id (put k v m) ≡ find id m
put_old id k v w m same old =
    let answer : find id (put k v m) ≡ some w = find-put id k v m ∙ simp (same, old) in
    let here : find id m ≡ find k m = ap (λ i. find i m) ((==_iff id k).0 same) in
    answer ∙ sym (here ∙ old)

-- What `emplace` answers for a key, by cases.
find-put_cases :
    (id k : ℕ) (v e : TxError) (m : Map TxError)
    → find id (put k v m) ≡ some e
    → (find id m ≡ some e) ⊎ (((id == k) ≡ true) × (v ≡ e))
find-put_cases id k v e m f = elim (Bool-cases (id == k)) [
  | inr other ↦ inl (ground (arith, other, find-put id k v m, f))
  | inl same ↦ elim (Option-cases (find k m)) [
    | inl fresh ↦
        let is : some v ≡ some e = sym (put_fresh id k v m same fresh) ∙ f in inr (same, cc)
    | inr (w, old) ↦ inl (sym (put_old id k v w m same old) ∙ f)
  ]
]

put-Fits :
    (P : ℕ → TxError → Bool) (k : ℕ) (v : TxError) (m : Map TxError)
    → P k v ≡ true
    → Fits P m
    → Fits P (put k v m)
put-Fits P k v m p h id e f = elim (find-put_cases id k v e m f) [
  | inl old ↦ h id e old
  | inr (same, is) ↦
      subst (λ w. P id w ≡ true) is (subst (λ i. P i v ≡ true) (sym ((==_iff id k).0 same)) p)
]

erase_errs-Fits :
    (P : ℕ → TxError → Bool) (ids : List ℕ) (m : Map TxError) → Fits P m → Fits P (erase_errs ids m)
unfolding erase_errs
erase_errs-Fits P [] m h = h
erase_errs-Fits P (id ∷ ids) m h = erase_errs-Fits P ids (remove id m) (remove-Fits P id m h)

insert_errs-Fits :
    (P : ℕ → TxError → Bool) (v : TxError) (ids : List ℕ) (m : Map TxError)
    → ((id : ℕ) → member id ids ≡ true → P id v ≡ true)
    → Fits P m
    → Fits P (insert_errs v ids m)
unfolding insert_errs member
insert_errs-Fits P v [] m p h = h
insert_errs-Fits P v (id ∷ ids) m p h =
    insert_errs-Fits P v ids (put id v m) (λ i k. p i (ground (arith, k)))
      (put-Fits P id v m (p id (ground arith)) h)

abbrev names_tx : ℕ → TxError → Bool
names_tx id e = e.tx_id == id

abbrev names_uhs : ℕ → TxError → Bool
names_uhs id e = member id (input_uhs_ids e.info)

-- An error found by a key is about that key, and a bounded cache is within its bound.
pub record IsSound (c : ErrorCache) : Type 0 where
  pub tx_ids : (id : ℕ) (e : TxError) → check_tx_id id c ≡ some e → (e.tx_id == id) ≡ true
  pub uhs_ids :
      (id : ℕ) (e : TxError) → check_uhs_id id c ≡ some e → member id (input_uhs_ids e.info) ≡ true
  pub bounded : (c.k_errs == 0) ≡ false → length c.errs ≤ c.k_errs

pub new-IsSound : (k : ℕ) → IsSound (new k)
unfolding new check_tx_id check_uhs_id find
new-IsSound k = record { tx_ids = λ id e h. cc; uhs_ids = λ id e h. cc; bounded = λ h. omega arith }

-- What `add_error` needs: room for one more.
pop_error-IsSound :
    (q : List TxError) (c : ErrorCache) → c.errs ≡ q → IsSound c → IsSound (pop_error q c)
unfolding pop_error check_tx_id check_uhs_id
pop_error-IsSound [] c e s = s
pop_error-IsSound (old ∷ errs) c e s = record {
  tx_ids = remove-Fits names_tx old.tx_id c.tx_id_errs s.tx_ids;
  uhs_ids = erase_errs-Fits names_uhs (input_uhs_ids old.info) c.uhs_errs s.uhs_ids;
  bounded = λ k. omega (arith, s.bounded k, ap length e);
}

add_error-IsSound :
    (err : TxError) (c : ErrorCache) → IsSound c → is_full c ≡ false → IsSound (add_error err c)
unfolding add_error check_tx_id check_uhs_id
add_error-IsSound err c s room = record {
  tx_ids = put-Fits names_tx err.tx_id err c.tx_id_errs (ground arith) s.tx_ids;
  uhs_ids =
      insert_errs-Fits names_uhs err (input_uhs_ids err.info) c.uhs_errs (λ id h. h) s.uhs_ids;
  bounded = λ k. ground (arith, length-append c.errs (err ∷ []), s.bounded k, k, room);
}

-- A full cache that has let its oldest error go is not full.
pop_error_room :
    (q : List TxError) (c : ErrorCache)
    → c.errs ≡ q
    → is_full c ≡ true
    → is_full (pop_error q c) ≡ false
unfolding pop_error
pop_error_room [] c e f = ground (arith, ap length e, f)
pop_error_room (old ∷ errs) c e f = ground (arith, ap length e, f)

-- Pushing errors keeps an error cache sound: the error found for a transaction is about that
-- transaction, the error found for an output names that output, and a cache with a bound other than
-- 0 holds no more errors than its bound.
pub push_errors-IsSound :
    (errs : List TxError) (c : ErrorCache) → IsSound c → IsSound (push_errors errs c)
unfolding push_errors
push_errors-IsSound [] c s = s
push_errors-IsSound (err ∷ errs) c s = elim (Bool-cases (is_full c)) [
  | inl full ↦
      push_errors-IsSound errs (add_error err (if is_full c then pop_error c.errs c else c)) (
        rw full (
          add_error-IsSound err (pop_error c.errs c) (pop_error-IsSound c.errs c refl s)
            (pop_error_room c.errs c refl full)))
  | inr room ↦
      push_errors-IsSound errs (add_error err (if is_full c then pop_error c.errs c else c))
        (rw room (add_error-IsSound err c s room))
]
