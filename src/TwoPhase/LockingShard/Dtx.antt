-- ===== src/TwoPhase/LockingShard/Dtx.antt =====
-- src/uhs/twophase/locking_shard/locking_shard.cpp: calls about one dtx, their order and repetition.
use cbdc_forensics.Common.{
  ℕ, suc, ◌≡◌, refl, ap, ◌∙◌, inl, inr, Bool, true, false, not, ◌&&◌, ◌||◌, none, some, List, [],
  ◌∷◌, arith, if◌then◌else◌, ◌==◌, member, length, Map, find, put, find-put, find-remove,
  member-emplace, Option-cases, Bool-cases, ==_iff,
}
use cbdc_forensics.Transaction.{CompactTx}
use cbdc_forensics.Transaction.Crypto.{Crypto}
use cbdc_forensics.TwoPhase.Outcome.{fatal, ok}
use cbdc_forensics.TwoPhase.LockingShard.Lock.{IsDisjoint}
use cbdc_forensics.TwoPhase.LockingShard.Apply.{created, spent, failed_touches, Agree}
use cbdc_forensics.TwoPhase.LockingShard.Cycle.{lock_apply}
use cbdc_forensics.TwoPhase.LockingShard.{
  LockingShard, PreparedDtx, apply_tx, apply_txs, apply_prepared, apply_outputs, check_and_lock_tx,
  lock_txs, lock_outputs,
}

-- The fields that applying transactions leaves alone.
apply_txs-frame :
    (txs : List CompactTx) (bs : List Bool) (s : LockingShard) (m : Map PreparedDtx)
    → apply_txs txs bs (record s { prepared_dtxs = m })
      ≡ record (apply_txs txs bs s) { prepared_dtxs = m }
unfolding apply_txs
apply_txs-frame [] bs s m = refl
apply_txs-frame (tx ∷ txs) [] s m = refl
apply_txs-frame (tx ∷ txs) (b ∷ bs) s m = apply_txs-frame txs bs (apply_tx tx b s) m

apply_txs-dtxs :
    (txs : List CompactTx) (bs : List Bool) (s : LockingShard)
    → ((apply_txs txs bs s).running ≡ s.running)
      × ((apply_txs txs bs s).prepared_dtxs ≡ s.prepared_dtxs)
      × ((apply_txs txs bs s).applied_dtxs ≡ s.applied_dtxs)
unfolding apply_txs
apply_txs-dtxs [] bs s = (refl, refl, refl)
apply_txs-dtxs (tx ∷ txs) [] s = (refl, refl, refl)
apply_txs-dtxs (tx ∷ txs) (b ∷ bs) s = apply_txs-dtxs txs bs (apply_tx tx b s)

Agree-length : (txs : List CompactTx) (rs bs : List Bool) → Agree txs rs bs → length bs ≡ length txs
Agree-length [] [] [] a = refl
Agree-length [] [] (b ∷ bs) a = absurd a
Agree-length [] (r ∷ rs) bs a = absurd a
Agree-length (tx ∷ txs) [] bs a = absurd a
Agree-length (tx ∷ txs) (r ∷ rs) [] a = absurd a
Agree-length (tx ∷ txs) (r ∷ rs) (b ∷ bs) a = ap suc (Agree-length txs rs bs a.1)

pub apply_outputs_found :
    (bs : List Bool) (dtx_id : ℕ) (s : LockingShard) (p : PreparedDtx)
    → s.running ≡ true
    → find dtx_id s.prepared_dtxs ≡ some p
    → length bs ≡ length p.txs
    → apply_outputs bs dtx_id s ≡ ok (true, apply_prepared p bs dtx_id s)
unfolding apply_outputs
apply_outputs_found bs dtx_id s p run old same =
    let e = (==_iff (length bs) (length p.txs)).1 same in simp (run, old, e)

-- The dtx is no longer prepared, and it is applied.
apply_prepared-dtxs :
    (p : PreparedDtx) (bs : List Bool) (dtx_id : ℕ) (s : LockingShard)
    → (find dtx_id (apply_prepared p bs dtx_id s).prepared_dtxs ≡ none)
      × (member dtx_id (apply_prepared p bs dtx_id s).applied_dtxs ≡ true)
unfolding apply_prepared
apply_prepared-dtxs p bs dtx_id s = (
  ground (arith, find-remove dtx_id dtx_id (apply_txs p.txs bs s).prepared_dtxs),
  ground (arith, member-emplace dtx_id dtx_id (apply_txs p.txs bs s).applied_dtxs),
)

pub apply_prepared-uhs :
    (p : PreparedDtx) (bs : List Bool) (dtx_id : ℕ) (s : LockingShard) (x : ℕ)
    → member x (apply_prepared p bs dtx_id s).uhs ≡ member x (apply_txs p.txs bs s).uhs
unfolding apply_prepared
apply_prepared-uhs p bs dtx_id s x = refl

pub apply_prepared-locked :
    (p : PreparedDtx) (bs : List Bool) (dtx_id : ℕ) (s : LockingShard) (x : ℕ)
    → member x (apply_prepared p bs dtx_id s).locked ≡ member x (apply_txs p.txs bs s).locked
unfolding apply_prepared
apply_prepared-locked p bs dtx_id s x = refl

apply_prepared-running :
    (p : PreparedDtx) (bs : List Bool) (dtx_id : ℕ) (s : LockingShard)
    → (apply_prepared p bs dtx_id s).running ≡ s.running
unfolding apply_prepared
apply_prepared-running p bs dtx_id s = (apply_txs-dtxs p.txs bs s).0

apply_outputs_done :
    (bs : List Bool) (dtx_id : ℕ) (s : LockingShard)
    → s.running ≡ true
    → find dtx_id s.prepared_dtxs ≡ none
    → member dtx_id s.applied_dtxs ≡ true
    → apply_outputs bs dtx_id s ≡ ok (true, s)
unfolding apply_outputs
apply_outputs_done bs dtx_id s run new old = simp (run, new, old)

apply_outputs_stopped :
    (bs : List Bool) (dtx_id : ℕ) (s : LockingShard)
    → s.running ≡ false
    → apply_outputs bs dtx_id s ≡ ok (false, s)
unfolding apply_outputs
apply_outputs_stopped bs dtx_id s run = simp run

-- Without the dtx the process ends, unless the dtx was applied before.
apply_outputs_absent :
    (bs : List Bool) (dtx_id : ℕ) (s : LockingShard)
    → s.running ≡ true
    → find dtx_id s.prepared_dtxs ≡ none
    → apply_outputs bs dtx_id s ≡ (if member dtx_id s.applied_dtxs then ok (true, s) else fatal)
unfolding apply_outputs
apply_outputs_absent bs dtx_id s run new = simp (run, new)

apply_outputs_present :
    (bs : List Bool) (dtx_id : ℕ) (s : LockingShard) (p : PreparedDtx)
    → s.running ≡ true
    → find dtx_id s.prepared_dtxs ≡ some p
    → apply_outputs bs dtx_id s
      ≡ (if length bs == length p.txs then ok (true, apply_prepared p bs dtx_id s) else fatal)
unfolding apply_outputs
apply_outputs_present bs dtx_id s p run old = simp (run, old)

-- When a dtx was applied, applying it again, with whatever flags, succeeds and changes nothing.
pub apply_outputs_again :
    (bs cs : List Bool) (dtx_id : ℕ) (s s' : LockingShard)
    → apply_outputs bs dtx_id s ≡ ok (true, s')
    → apply_outputs cs dtx_id s' ≡ ok (true, s')
apply_outputs_again bs cs dtx_id s s' h = elim (Bool-cases s.running) [
  | inr stopped ↦ ground (arith, apply_outputs_stopped bs dtx_id s stopped)
  | inl run ↦ elim (Option-cases (find dtx_id s.prepared_dtxs)) [
    | inl new ↦
        ground
          (arith, apply_outputs_absent bs dtx_id s run new, apply_outputs_done cs dtx_id s run new)
    | inr (p, old) ↦ ground (
      arith,
      apply_outputs_present bs dtx_id s p run old,
      apply_outputs_done cs dtx_id (apply_prepared p bs dtx_id s),
      apply_prepared-running p bs dtx_id s,
      apply_prepared-dtxs p bs dtx_id s,
    )
  ]
]

module _ (c : Crypto) where
  check_and_lock_tx-dtxs :
      (tx : CompactTx) (s : LockingShard)
      → ((check_and_lock_tx c tx s).1.running ≡ s.running)
        × ((check_and_lock_tx c tx s).1.prepared_dtxs ≡ s.prepared_dtxs)
  unfolding check_and_lock_tx
  check_and_lock_tx-dtxs tx s = (ground arith, ground arith)

  lock_txs-dtxs :
      (txs : List CompactTx) (s : LockingShard)
      → ((lock_txs c txs s).1.running ≡ s.running)
        × ((lock_txs c txs s).1.prepared_dtxs ≡ s.prepared_dtxs)
  unfolding lock_txs
  lock_txs-dtxs [] s = (refl, refl)
  lock_txs-dtxs (tx ∷ txs) s =
      let s' = (check_and_lock_tx c tx s).1 in
      let (running, prepared) = lock_txs-dtxs txs s' in
      let (running', prepared') = check_and_lock_tx-dtxs tx s in
      (running ∙ running', prepared ∙ prepared')

  -- What a call of `lock_outputs` on a running shard returns and records, when the dtx is new.
  lock_outputs_new :
      (txs : List CompactTx) (dtx_id : ℕ) (s : LockingShard)
      → s.running ≡ true
      → find dtx_id s.prepared_dtxs ≡ none
      → let (results, s') = lock_txs c txs s in
        lock_outputs c txs dtx_id s ≡ (
          some results,
          record s' {
            prepared_dtxs = put dtx_id (record { txs = txs; results = results }) s'.prepared_dtxs;
          },
        )
  unfolding lock_outputs
  lock_outputs_new txs dtx_id s run new = simp (run, new)

  lock_outputs_old :
      (txs : List CompactTx) (dtx_id : ℕ) (s : LockingShard) (p : PreparedDtx)
      → s.running ≡ true
      → find dtx_id s.prepared_dtxs ≡ some p
      → lock_outputs c txs dtx_id s ≡ (some p.results, s)
  unfolding lock_outputs
  lock_outputs_old txs dtx_id s p run old = simp (run, old)

  -- The shard after `lock_outputs`, and what it has prepared.
  abbrev locked_batch : List CompactTx → LockingShard → PreparedDtx
  locked_batch txs s = record { txs = txs; results = (lock_txs c txs s).0 }

  abbrev locked_shard : List CompactTx → ℕ → LockingShard → LockingShard
  locked_shard txs dtx_id s =
      let s' = (lock_txs c txs s).1 in
      record s' { prepared_dtxs = put dtx_id (locked_batch txs s) s'.prepared_dtxs }

  locked_shard-find :
      (txs : List CompactTx) (dtx_id : ℕ) (s : LockingShard)
      → find dtx_id s.prepared_dtxs ≡ none
      → find dtx_id (locked_shard txs dtx_id s).prepared_dtxs ≡ some (locked_batch txs s)
  locked_shard-find txs dtx_id s new =
      let m = (lock_txs c txs s).1.prepared_dtxs in
      let new' : find dtx_id m ≡ none = ap (find dtx_id) (lock_txs-dtxs txs s).1 ∙ new in
      ground (arith, find-put dtx_id dtx_id (locked_batch txs s) m, new')

  -- On a running shard a second `lock_outputs` for a dtx, with whatever transactions, gets the
  -- first answer again and changes nothing.
  pub lock_outputs_again :
      (txs others : List CompactTx) (dtx_id : ℕ) (s : LockingShard)
      → s.running ≡ true
      → let (answer, s') = lock_outputs c txs dtx_id s in
        lock_outputs c others dtx_id s' ≡ (answer, s')
  lock_outputs_again txs others dtx_id s run = elim (Option-cases (find dtx_id s.prepared_dtxs)) [
    | inr (p, old) ↦
        rw (lock_outputs_old txs dtx_id s p run old) (lock_outputs_old others dtx_id s p run old)
    | inl new ↦ rw (lock_outputs_new txs dtx_id s run new) (
        lock_outputs_old others dtx_id (locked_shard txs dtx_id s) (locked_batch txs s)
          ((lock_txs-dtxs txs s).0 ∙ run) (locked_shard-find txs dtx_id s new))
  ]

  -- A dtx from locking to applying, on one output of a running shard that has not prepared the dtx,
  -- whose unspent and locked outputs are disjoint, given flags that complete only locked
  -- transactions (`Agree`). The shard answers the coordinator, forgets the prepared dtx and
  -- remembers that it was applied; the output is unspent afterwards exactly if a completed
  -- transaction creates it, or it was unspent and no completed transaction spends it; and it is
  -- locked exactly if it was. The further condition is that while the output is locked no
  -- transaction of the batch that could not be locked has it among its inputs.
  pub lock_then_apply :
      (txs : List CompactTx) (bs : List Bool) (dtx_id : ℕ) (s : LockingShard) (x : ℕ)
      → s.running ≡ true
      → find dtx_id s.prepared_dtxs ≡ none
      → IsDisjoint s
      → Agree txs (lock_txs c txs s).0 bs
      → (member x (lock_txs c txs s).1.locked
          && failed_touches s.output_range x txs (lock_txs c txs s).0)
        ≡ false
      → (s' : LockingShard) × (apply_outputs bs dtx_id (lock_outputs c txs dtx_id s).1
          ≡ ok (true, s'))
        × (find dtx_id s'.prepared_dtxs ≡ none)
        × (member dtx_id s'.applied_dtxs ≡ true)
        × (member x s'.uhs ≡ (
            created s.output_range x txs bs
            || (member x s.uhs && not (spent s.output_range x txs bs))))
        × (member x s'.locked ≡ member x s.locked)
  lock_then_apply txs bs dtx_id s x run new d a f =
      let s₁ = locked_shard txs dtx_id s in
      let p = locked_batch txs s in
      let (uhs, locked) = lock_apply c txs bs s x d a f in
      let frame = apply_txs-frame txs bs (lock_txs c txs s).1 s₁.prepared_dtxs in
      (
        apply_prepared p bs dtx_id s₁,
        rw (lock_outputs_new txs dtx_id s run new) (
            apply_outputs_found bs dtx_id s₁ p ((lock_txs-dtxs txs s).0 ∙ run)
              (locked_shard-find txs dtx_id s new) (Agree-length txs p.results bs a)),
        (apply_prepared-dtxs p bs dtx_id s₁).0,
        (apply_prepared-dtxs p bs dtx_id s₁).1,
        apply_prepared-uhs p bs dtx_id s₁ x ∙ ap (λ (t : LockingShard). member x t.uhs) frame ∙ uhs,
        apply_prepared-locked p bs dtx_id s₁ x
            ∙ ap (λ (t : LockingShard). member x t.locked) frame
            ∙ locked,
      )
