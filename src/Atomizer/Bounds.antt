-- ===== src/Atomizer/Bounds.antt =====
-- src/uhs/atomizer/atomizer/atomizer.cpp: when `insert` stays within the bounds of `m_txs`.
use cbdc_forensics.Common.{
  ℕ, suc, ◌<◌, ◌≡◌, ◌↔◌, refl, Bool, true, false, not, ◌&&◌, Option, none, some, List, [], ◌∷◌,
  arith, length, ltb, if◌then◌else◌,
}
use cbdc_forensics.Transaction.{CompactTx}
use cbdc_forensics.Atomizer.{
  TxError, tx_error_stxo_range, Atomizer, get_notification_offset, check_notification_offset,
  is_empty, insert_at, insert,
}

is_empty_iff : (xs : List ℕ) → (is_empty xs ≡ true) ↔ (xs ≡ [])
is_empty_iff [] = (λ h. refl, λ h. refl)
is_empty_iff (x ∷ xs) = (λ h. cc, λ h. cc)

absurd_bool : false ≡ true → ⊥
absurd_bool h = cc

-- `insert` after the offset is known.
within :
    (far empty fits : Bool) (err : TxError) (s : Atomizer) (q : Option TxError × Atomizer)
    → not far ≡ fits
    → (elim (if far && not empty then some err else none)
          as (λ o. Option (Option TxError × Atomizer)) [
            | some e ↦ some (some e, s)
            | none ↦ if fits then some q else none
          ]
        ≡ none)
      ↔ ((empty ≡ true) × (far ≡ true))
within true true false err s q e = (λ h. (refl, refl), λ h. refl)
within true true true err s q e = cc
within true false fits err s q e = (λ h. cc, λ h. absurd (absurd_bool h.0))
within false empty true err s q e = (λ h. cc, λ h. absurd (absurd_bool h.1))
within false empty false err s q e = cc

-- In an atomizer that has a map of notifications for every offset up to the depth, `insert` goes
-- out of the bounds of `m_txs` exactly when the transaction has no inputs and the offset of its
-- height is more than the depth.
pub insert_out_of_bounds_iff :
    (block_height : ℕ) (tx : CompactTx) (attestations : List ℕ) (s : Atomizer)
    → length s.txs ≡ suc s.spent_cache_depth
    → (insert block_height tx attestations s ≡ none)
      ↔ ((tx.inputs ≡ []) × (s.spent_cache_depth < get_notification_offset block_height s))
unfolding insert check_notification_offset
insert_out_of_bounds_iff block_height tx attestations s deep =
    let o = get_notification_offset block_height s in
    let fits : not (ltb s.spent_cache_depth o) ≡ ltb o (length s.txs) = ground (arith, deep) in
    let w =
      within (ltb s.spent_cache_depth o) (is_empty tx.inputs) (ltb o (length s.txs))
        (record { tx_id = tx.id; info = tx_error_stxo_range }) s (insert_at o tx attestations s)
        fits in
    (
      λ h. ((is_empty_iff tx.inputs).0 (w.0 h).0, ground (arith, (w.0 h).1)),
      λ h. w.1 ((is_empty_iff tx.inputs).1 h.0, ground (arith, h.1)),
    )
