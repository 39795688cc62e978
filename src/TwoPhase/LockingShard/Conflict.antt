-- ===== src/TwoPhase/LockingShard/Conflict.antt =====
-- src/uhs/twophase/locking_shard/locking_shard.cpp: where `apply_outputs` goes wrong. It releases
-- the inputs of an aborted transaction without asking whether that transaction had locked them.
use cbdc_forensics.Common.{
  ℕ, ◌≤◌, ◌≡◌, refl, ap, ◌∙◌, Bool, true, false, ◌&&◌, some, List, [], ◌∷◌, arith, if◌then◌else◌,
  member, find,
}
use cbdc_forensics.Util.CacheSet.Laws.{IsValid, contains-add}
use cbdc_forensics.Transaction.{CompactTx}
use cbdc_forensics.Transaction.Crypto.{Crypto}
use cbdc_forensics.TwoPhase.Outcome.{ok}
use cbdc_forensics.TwoPhase.LockingShard.Loops.{touches}
use cbdc_forensics.TwoPhase.LockingShard.Lock.{
  check_and_lock_tx-locked, check_and_lock_tx-range, lock_txs-range,
}
use cbdc_forensics.TwoPhase.LockingShard.Apply.{apply_tx-uhs, apply_tx-locked}
use cbdc_forensics.TwoPhase.LockingShard.Dtx.{
  apply_outputs_found, apply_prepared-uhs, apply_prepared-locked,
}
use cbdc_forensics.TwoPhase.LockingShard.{
  LockingShard, PreparedDtx, hash_in_shard_range, apply_tx, apply_txs, apply_prepared,
  apply_outputs, check_and_lock_tx, lock_txs, check_tx_id,
}

-- A running shard aborts a prepared dtx of one transaction that could not be locked: an input of it
-- that is locked, by another dtx, becomes unspent, and the lock is gone.
pub abort_frees_foreign_lock :
    (tx : CompactTx) (dtx_id : ℕ) (s : LockingShard) (x : ℕ)
    → s.running ≡ true
    → find dtx_id s.prepared_dtxs ≡ some (record { txs = tx ∷ []; results = false ∷ [] })
    → touches s.output_range tx.inputs x ≡ true
    → member x s.locked ≡ true
    → (s' : LockingShard) × (apply_outputs (false ∷ []) dtx_id s ≡ ok (true, s'))
      × (member x s'.uhs ≡ true)
      × (member x s'.locked ≡ false)
unfolding apply_txs
abort_frees_foreign_lock tx dtx_id s x run old t l =
    let p : PreparedDtx = record { txs = tx ∷ []; results = false ∷ [] } in
    let none_done : List Bool = false ∷ [] in
    (
      apply_prepared p none_done dtx_id s,
      apply_outputs_found none_done dtx_id s p run old refl,
      apply_prepared-uhs p none_done dtx_id s x ∙ ground (arith, apply_tx-uhs tx false s x),
      apply_prepared-locked p none_done dtx_id s x ∙ ground (arith, apply_tx-locked tx false s x),
    )

if_both : (a b d : Bool) → a ≡ true → b ≡ true → (if a && b then true else d) ≡ true
if_both a b d p q = ground arith

-- The first transaction is aborted, the second completed, and the input of the first was locked.
apply_pair :
    (a b : CompactTx) (s : LockingShard) (x : ℕ)
    → touches s.output_range a.inputs x ≡ true
    → member x s.locked ≡ true
    → member x (apply_txs (a ∷ b ∷ []) (false ∷ true ∷ []) s).uhs ≡ true
apply_pair a b s x t l =
    unfold apply_txs in
    (apply_tx-uhs b true (apply_tx a false s) x ∙ kept (apply_tx-uhs a false s x))
  where
    kept :
        member x (apply_tx a false s).uhs ≡ (
          if touches s.output_range a.inputs x && member x s.locked
          then true
          else if touches s.output_range a.uhs_outputs x && false
          then true
          else member x s.uhs)
        → (if touches (apply_tx a false s).output_range b.uhs_outputs x && true
            then true
            else member x (apply_tx a false s).uhs)
          ≡ true
    kept e = ground arith

module _ (c : Crypto) where
  lock_pair :
      (a b : CompactTx) (s : LockingShard) (x : ℕ)
      → (lock_txs c (a ∷ b ∷ []) s).0 ≡ false ∷ true ∷ []
      → touches s.output_range b.inputs x ≡ true
      → member x (lock_txs c (a ∷ b ∷ []) s).1.locked ≡ true
  lock_pair a b s x h t =
      unfold lock_txs in
      (check_and_lock_tx-locked c b s' x
        ∙ if_both (check_and_lock_tx c b s').0 (touches s'.output_range b.inputs x)
            (member x s'.locked) (second (unfold lock_txs in h))
            (ap (λ (r : ℕ × ℕ). touches r b.inputs x) (check_and_lock_tx-range c a s) ∙ t))
    where
      s' : LockingShard
      s' = (check_and_lock_tx c a s).1

      second :
          ◌≡◌ {A = List Bool}
            ((check_and_lock_tx c a s).0 ∷ (check_and_lock_tx c b s').0 ∷ [])
            (false ∷ true ∷ [])
          → (check_and_lock_tx c b s').0 ≡ true
      second e = cc

  -- Two transactions of one batch share an input of this shard, the first could not be locked and
  -- the second could: after the first has been aborted and the second completed, their input is
  -- unspent again.
  pub double_spend_in_batch :
      (a b : CompactTx) (s : LockingShard) (x : ℕ)
      → (lock_txs c (a ∷ b ∷ []) s).0 ≡ false ∷ true ∷ []
      → touches s.output_range a.inputs x ≡ true
      → touches s.output_range b.inputs x ≡ true
      → member x (apply_txs (a ∷ b ∷ []) (false ∷ true ∷ []) (lock_txs c (a ∷ b ∷ []) s).1).uhs
        ≡ true
  double_spend_in_batch a b s x h ta tb =
      apply_pair a b (lock_txs c (a ∷ b ∷ []) s).1 x
        (ap (λ (r : ℕ × ℕ). touches r a.inputs x) (lock_txs-range c (a ∷ b ∷ []) s) ∙ ta)
        (lock_pair a b s x h tb)

-- On a shard whose cache of completed transactions is well formed and has a bound of two or more,
-- applying reports the identifier of a transaction in the shard's range as completed, although the
-- transaction was aborted.
pub aborted_tx_is_reported :
    (tx : CompactTx) (s : LockingShard)
    → IsValid s.completed_txs
    → 2 ≤ s.completed_txs.max_size
    → hash_in_shard_range s.output_range tx.id ≡ true
    → check_tx_id tx.id (apply_tx tx false s) ≡ some true
unfolding check_tx_id apply_tx
aborted_tx_is_reported tx s valid room here =
    ap some (rw here (contains-add tx.id s.completed_txs valid room))
