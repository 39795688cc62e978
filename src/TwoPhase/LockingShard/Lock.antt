-- ===== src/TwoPhase/LockingShard/Lock.antt =====
-- src/uhs/twophase/locking_shard/locking_shard.cpp: `check_and_lock_tx` and the loop of
-- `lock_outputs`.
use cbdc_forensics.Common.{
  ℕ, suc, ◌∙◌, ◌+◌, ◌≤◌, ◌≡◌, refl, ◌↔◌, Bool, true, false, not, ◌&&◌, List, [], ◌∷◌, arith,
  if◌then◌else◌, member, length, ap,
}
use cbdc_forensics.Transaction.{CompactTx}
use cbdc_forensics.Transaction.Crypto.{Crypto}
use cbdc_forensics.Transaction.Validation.{check_attestations}
use cbdc_forensics.TwoPhase.LockingShard.Loops.{
  touches, AreUnspent, has_inputs_iff, has_inputs_touches, lock_inputs-uhs, lock_inputs-locked,
}
use cbdc_forensics.TwoPhase.LockingShard.{LockingShard, outputs_of, check_and_lock_tx, lock_txs}

-- No output is both unspent and locked.
abbrev pub IsDisjoint : LockingShard → Type 0
IsDisjoint s = (x : ℕ) → (member x s.uhs && member x s.locked) ≡ false

abbrev pub as_one : Bool → ℕ
as_one b = if b then 1 else 0

module _ (c : Crypto) where
  abbrev pub is_attested : CompactTx → LockingShard → Bool
  is_attested tx s = check_attestations c tx s.sentinel_public_keys s.attestation_threshold

  -- A transaction is locked exactly when it is attested and its inputs in the range of the shard
  -- are unspent.
  pub check_and_lock_tx_result :
      (tx : CompactTx) (s : LockingShard)
      → ((check_and_lock_tx c tx s).0 ≡ true)
        ↔ ((is_attested tx s ≡ true) × AreUnspent s.output_range s.uhs tx.inputs)
  unfolding check_and_lock_tx
  check_and_lock_tx_result tx s =
      let unspent = has_inputs_iff s.output_range s.uhs tx.inputs in
      (λ h. (ground arith, unspent.0 (ground arith)), λ h. ground (arith, unspent.1 h.1))

  -- The body of the loop on one output: it is moved from the unspent to the locked if the
  -- transaction is locked and touches it.
  pub check_and_lock_tx-uhs :
      (tx : CompactTx) (s : LockingShard) (x : ℕ)
      → let (success, s') = check_and_lock_tx c tx s in
        member x s'.uhs
        ≡ (if success && touches s.output_range tx.inputs x then false else member x s.uhs)
  unfolding check_and_lock_tx
  check_and_lock_tx-uhs tx s x =
      ground (arith, lock_inputs-uhs s.output_range tx.inputs (outputs_of s) x)

  pub check_and_lock_tx-locked :
      (tx : CompactTx) (s : LockingShard) (x : ℕ)
      → let (success, s') = check_and_lock_tx c tx s in
        member x s'.locked
        ≡ (if success && touches s.output_range tx.inputs x then true else member x s.locked)
  unfolding check_and_lock_tx
  check_and_lock_tx-locked tx s x =
      ground (arith, lock_inputs-locked s.output_range tx.inputs (outputs_of s) x)

  pub check_and_lock_tx-unspent :
      (tx : CompactTx) (s : LockingShard) (x : ℕ)
      → (check_and_lock_tx c tx s).0 ≡ true
      → touches s.output_range tx.inputs x ≡ true
      → member x s.uhs ≡ true
  unfolding check_and_lock_tx
  check_and_lock_tx-unspent tx s x h t =
      ground (arith, has_inputs_touches s.output_range s.uhs tx.inputs x)

  check_and_lock_tx-hit :
      (tx : CompactTx) (s : LockingShard) (x : ℕ)
      → (((check_and_lock_tx c tx s).0 && touches s.output_range tx.inputs x)
          && not (member x s.uhs))
        ≡ false
  check_and_lock_tx-hit tx s x = ground (arith, check_and_lock_tx-unspent tx s x)

  -- What locking leaves alone.
  pub check_and_lock_tx-range :
      (tx : CompactTx) (s : LockingShard)
      → (check_and_lock_tx c tx s).1.output_range ≡ s.output_range
  unfolding check_and_lock_tx
  check_and_lock_tx-range tx s = ground arith

  pub check_and_lock_tx-IsDisjoint :
      (tx : CompactTx) (s : LockingShard) → IsDisjoint s → IsDisjoint (check_and_lock_tx c tx s).1
  check_and_lock_tx-IsDisjoint tx s h x =
      ground (arith, h x, check_and_lock_tx-uhs tx s x, check_and_lock_tx-locked tx s x)

-- How many of the locked transactions touch an output.
unfoldable pub lockers : ℕ × ℕ → ℕ → List CompactTx → List Bool → ℕ
lockers range x (tx ∷ txs) (r ∷ rs) =
    as_one (r && touches range tx.inputs x) + lockers range x txs rs
lockers range x [] rs = 0
lockers range x (tx ∷ txs) [] = 0

-- One round of the count: a hit moves the output.
count_step :
    (hit u u' l l' : Bool) (n m k : ℕ)
    → u' ≡ (if hit then false else u)
    → l' ≡ (if hit then true else l)
    → (hit && not u) ≡ false
    → (u && l) ≡ false
    → m ≡ n + as_one l'
    → k + n ≡ as_one u'
    → (m ≡ as_one hit + n + as_one l) × (k + (as_one hit + n) ≡ as_one u)
count_step true u u' l l' n m k hu hl hit d em ek = ground arith
count_step false u u' l l' n m k hu hl hit d em ek = ground arith

module _ (c : Crypto) where
  pub length-lock_txs :
      (txs : List CompactTx) (s : LockingShard) → length (lock_txs c txs s).0 ≡ length txs
  unfolding lock_txs
  length-lock_txs [] s = refl
  length-lock_txs (tx ∷ txs) s = ap suc (length-lock_txs txs (check_and_lock_tx c tx s).1)

  -- Locking a batch keeps the unspent and the locked outputs of the shard disjoint.
  pub lock_txs-IsDisjoint :
      (txs : List CompactTx) (s : LockingShard) → IsDisjoint s → IsDisjoint (lock_txs c txs s).1
  unfolding lock_txs
  lock_txs-IsDisjoint [] s h = h
  lock_txs-IsDisjoint (tx ∷ txs) s h =
      lock_txs-IsDisjoint txs (check_and_lock_tx c tx s).1 (check_and_lock_tx-IsDisjoint c tx s h)

  pub lock_txs-range :
      (txs : List CompactTx) (s : LockingShard) → (lock_txs c txs s).1.output_range ≡ s.output_range
  unfolding lock_txs
  lock_txs-range [] s = refl
  lock_txs-range (tx ∷ txs) s =
      lock_txs-range txs (check_and_lock_tx c tx s).1 ∙ check_and_lock_tx-range c tx s

  -- Each locked transaction that touches an output moves it once from the unspent to the locked.
  pub lock_txs_moves :
      (txs : List CompactTx) (s : LockingShard) (x : ℕ)
      → IsDisjoint s
      → let (results, s') = lock_txs c txs s in
        (as_one (member x s'.locked)
          ≡ lockers s.output_range x txs results + as_one (member x s.locked))
        × (as_one (member x s'.uhs) + lockers s.output_range x txs results
            ≡ as_one (member x s.uhs))
  unfolding lock_txs lockers
  lock_txs_moves [] s x h = (omega arith, omega arith)
  lock_txs_moves (tx ∷ txs) s x h =
      let s' = (check_and_lock_tx c tx s).1 in
      let ih = lock_txs_moves txs s' x (check_and_lock_tx-IsDisjoint c tx s h) in
      let ih' = rw (check_and_lock_tx-range c tx s) at ih in
      let hit = (check_and_lock_tx c tx s).0 && touches s.output_range tx.inputs x in
      count_step hit (member x s.uhs) (member x s'.uhs) (member x s.locked) (member x s'.locked)
        (lockers s.output_range x txs (lock_txs c txs s').0) _ _ (check_and_lock_tx-uhs c tx s x)
        (check_and_lock_tx-locked c tx s x) (check_and_lock_tx-hit c tx s x) (h x) ih'.0 ih'.1

  -- When no output is both unspent and locked, the transactions of a batch that are locked on an
  -- input, and the lock the input had before, are at most one.
  pub lock_txs_exclusive :
      (txs : List CompactTx) (s : LockingShard) (x : ℕ)
      → IsDisjoint s
      → lockers s.output_range x txs (lock_txs c txs s).0 + as_one (member x s.locked) ≤ 1
  lock_txs_exclusive txs s x h = ground (arith, (lock_txs_moves txs s x h).0)
