-- ===== src/TwoPhase/LockingShard/Cycle.antt =====
-- src/uhs/twophase/locking_shard/locking_shard.cpp: a dtx from `lock_outputs` to `apply_outputs`.
use cbdc_forensics.Common.{
  ℕ, ◌+◌, ◌≤◌, ◌≡◌, refl, Bool, true, false, not, ◌&&◌, ◌||◌, List, [], ◌∷◌, arith, if◌then◌else◌,
  member, subst,
}
use cbdc_forensics.Transaction.{CompactTx}
use cbdc_forensics.Transaction.Crypto.{Crypto}
use cbdc_forensics.TwoPhase.LockingShard.Loops.{touches}
use cbdc_forensics.TwoPhase.LockingShard.Lock.{
  as_one, lockers, IsDisjoint, lock_txs_moves, lock_txs_exclusive, lock_txs-range,
}
use cbdc_forensics.TwoPhase.LockingShard.Apply.{
  apply_tx-uhs, apply_tx-locked, any_tx, created, spent, failed_touches, released, Agree,
  lockers_split,
}
use cbdc_forensics.TwoPhase.LockingShard.{LockingShard, apply_tx, apply_txs, lock_txs}

module _ (ti to r b l u l' u' ft : Bool) (n : ℕ) where
  -- What one transaction does to an output leaves the conditions of the loop to the rest.
  step_keeps :
      l' ≡ (if ti then false else l)
      → as_one (r && ti) + n ≤ as_one l
      → (l && ((not r && ti) || ft)) ≡ false
      → (n ≤ as_one l') × ((l' && ft) ≡ false)
  step_keeps el h f = (ground arith, ground arith)

  step_adds :
      (cr rl v : Bool) (m : ℕ)
      → u' ≡ (if not b && (ti && l) then true else if to && b then true else u)
      → l' ≡ (if ti then false else l)
      → as_one (r && ti) + n ≤ as_one l
      → (l && ((not r && ti) || ft)) ≡ false
      → (b && not r) ≡ false
      → v ≡ (cr || (rl || u'))
      → m + n ≡ as_one l'
      → (v ≡ (((b && to) || cr) || ((((r && not b) && ti) || rl) || u)))
        × (m + (as_one (r && ti) + n) ≡ as_one l)
  step_adds cr rl v m eu el h f a ev em = (ground arith, ground arith)

module _ (x : ℕ) where
  -- The loop of `apply_outputs` on one output that no failed transaction touches while it is locked.
  pub apply_txs_lem :
      (txs : List CompactTx) (rs bs : List Bool) (s : LockingShard)
      → Agree txs rs bs
      → lockers s.output_range x txs rs ≤ as_one (member x s.locked)
      → (member x s.locked && failed_touches s.output_range x txs rs) ≡ false
      → (member x (apply_txs txs bs s).uhs ≡ (
          created s.output_range x txs bs
          || (released s.output_range x txs rs bs || member x s.uhs)))
        × (as_one (member x (apply_txs txs bs s).locked) + lockers s.output_range x txs rs
            ≡ as_one (member x s.locked))
  unfolding apply_txs any_tx released lockers
  apply_txs_lem [] [] [] s a h f = (refl, omega arith)
  apply_txs_lem [] [] (b ∷ bs) s a h f = absurd a
  apply_txs_lem [] (r ∷ rs) bs s a h f = absurd a
  apply_txs_lem (tx ∷ txs) [] bs s a h f = absurd a
  apply_txs_lem (tx ∷ txs) (r ∷ rs) [] s a h f = absurd a
  apply_txs_lem (tx ∷ txs) (r ∷ rs) (b ∷ bs) s a h f =
      let range = s.output_range in
      let s' = apply_tx tx b s in
      let ti = touches range tx.inputs x in
      let to = touches range tx.uhs_outputs x in
      let l = member x s.locked in
      let u = member x s.uhs in
      let l' = member x s'.locked in
      let u' = member x s'.uhs in
      let ft = failed_touches range x txs rs in
      let n = lockers range x txs rs in
      let (h', f') = step_keeps ti to r b l u l' u' ft n (apply_tx-locked tx b s x) h f in
      let (uhs, locked) = apply_txs_lem txs rs bs s' a.1 h' f' in
      step_adds ti to r b l u l' u' ft n (created range x txs bs) (released range x txs rs bs)
        (member x (apply_txs txs bs s').uhs) (as_one (member x (apply_txs txs bs s').locked))
        (apply_tx-uhs tx b s x) (apply_tx-locked tx b s x) h f a.0 uhs locked

  -- The same, where the range of the shard is known by an equation.
  apply_txs_at :
      (range : ℕ × ℕ) (txs : List CompactTx) (rs bs : List Bool) (s : LockingShard)
      → s.output_range ≡ range
      → Agree txs rs bs
      → lockers range x txs rs ≤ as_one (member x s.locked)
      → (member x s.locked && failed_touches range x txs rs) ≡ false
      → (member x (apply_txs txs bs s).uhs
          ≡ (created range x txs bs || (released range x txs rs bs || member x s.uhs)))
        × (as_one (member x (apply_txs txs bs s).locked) + lockers range x txs rs
            ≡ as_one (member x s.locked))
  apply_txs_at range txs rs bs s e a =
      subst
        (λ (g : ℕ × ℕ).
          lockers g x txs rs ≤ as_one (member x s.locked)
          → (member x s.locked && failed_touches g x txs rs) ≡ false
          → (member x (apply_txs txs bs s).uhs
              ≡ (created g x txs bs || (released g x txs rs bs || member x s.uhs)))
            × (as_one (member x (apply_txs txs bs s).locked) + lockers g x txs rs
                ≡ as_one (member x s.locked)))
        e (apply_txs_lem txs rs bs s a)

-- The answer of the shard for one output: what the dtx creates is unspent, what it spends is not,
-- and every other output is as it was before the locking.
conclude :
    (cr rl sp u u' v l l' l'' : Bool) (n : ℕ)
    → v ≡ (cr || (rl || u'))
    → as_one rl + as_one sp ≡ n
    → as_one u' + n ≡ as_one u
    → as_one l' ≡ n + as_one l
    → as_one l'' + n ≡ as_one l'
    → (v ≡ (cr || (u && not sp))) × (l'' ≡ l)
conclude cr rl sp u u' v l l' l'' n ev e eu el el' = (ground arith, ground arith)

module _ (c : Crypto) where
  -- Locking a batch and then applying it changes one output as the completed transactions say, and
  -- leaves the locks of other dtxs, provided that no transaction of the batch that could not be
  -- locked has the output among its inputs while the output is locked.
  pub lock_apply :
      (txs : List CompactTx) (bs : List Bool) (s : LockingShard) (x : ℕ)
      → IsDisjoint s
      → Agree txs (lock_txs c txs s).0 bs
      → (member x (lock_txs c txs s).1.locked
          && failed_touches s.output_range x txs (lock_txs c txs s).0)
        ≡ false
      → let s' = apply_txs txs bs (lock_txs c txs s).1 in
        (member x s'.uhs ≡ (
          created s.output_range x txs bs
          || (member x s.uhs && not (spent s.output_range x txs bs))))
        × (member x s'.locked ≡ member x s.locked)
  lock_apply txs bs s x d a f =
      let range = s.output_range in
      let rs = (lock_txs c txs s).0 in
      let s₁ = (lock_txs c txs s).1 in
      let (locked, moved) = lock_txs_moves c txs s x d in
      let fits : lockers range x txs rs ≤ as_one (member x s₁.locked) = omega (arith, locked) in
      let once : lockers range x txs rs ≤ 1 = omega (arith, lock_txs_exclusive c txs s x d) in
      let (uhs, after) = apply_txs_at x range txs rs bs s₁ (lock_txs-range c txs s) a fits f in
      conclude (created range x txs bs) (released range x txs rs bs) (spent range x txs bs)
        (member x s.uhs) (member x s₁.uhs) (member x (apply_txs txs bs s₁).uhs) (member x s.locked)
        (member x s₁.locked) (member x (apply_txs txs bs s₁).locked) (lockers range x txs rs) uhs
        (lockers_split range x txs rs bs a once) moved locked after
