-- ===== src/TwoPhase/LockingShard/Apply.antt =====
-- src/uhs/twophase/locking_shard/locking_shard.cpp: the loop of `apply_outputs`, on one output.
use cbdc_forensics.Common.{
  ℕ, ◌+◌, ◌≤◌, ◌≡◌, refl, Bool, true, false, not, ◌&&◌, ◌||◌, List, [], ◌∷◌, arith, if◌then◌else◌,
  member,
}
use cbdc_forensics.Transaction.{CompactTx}
use cbdc_forensics.TwoPhase.LockingShard.Loops.{
  touches, add_outputs-uhs, add_outputs-locked, release_inputs-uhs, release_inputs-locked,
}
use cbdc_forensics.TwoPhase.LockingShard.Lock.{as_one, lockers}
use cbdc_forensics.TwoPhase.LockingShard.{LockingShard, outputs_of, add_outputs, apply_tx}

pub apply_tx-uhs :
    (tx : CompactTx) (complete : Bool) (s : LockingShard) (x : ℕ)
    → member x (apply_tx tx complete s).uhs ≡ (
        if not complete && (touches s.output_range tx.inputs x && member x s.locked)
        then true
        else if touches s.output_range tx.uhs_outputs x && complete
        then true
        else member x s.uhs)
unfolding apply_tx
apply_tx-uhs tx complete s x =
    let o = add_outputs s.output_range complete tx.uhs_outputs (outputs_of s) in
    ground (
      arith,
      release_inputs-uhs s.output_range complete tx.inputs o x,
      add_outputs-uhs s.output_range complete tx.uhs_outputs (outputs_of s) x,
      add_outputs-locked s.output_range complete tx.uhs_outputs (outputs_of s),
    )

pub apply_tx-locked :
    (tx : CompactTx) (complete : Bool) (s : LockingShard) (x : ℕ)
    → member x (apply_tx tx complete s).locked
      ≡ (if touches s.output_range tx.inputs x then false else member x s.locked)
unfolding apply_tx
apply_tx-locked tx complete s x =
    let o = add_outputs s.output_range complete tx.uhs_outputs (outputs_of s) in
    ground (
      arith,
      release_inputs-locked s.output_range complete tx.inputs o x,
      add_outputs-locked s.output_range complete tx.uhs_outputs (outputs_of s),
    )

pub apply_tx-range :
    (tx : CompactTx) (complete : Bool) (s : LockingShard)
    → (apply_tx tx complete s).output_range ≡ s.output_range
unfolding apply_tx
apply_tx-range tx complete s = refl

-- Some transaction has the property, given its flag.
unfoldable pub any_tx : (CompactTx → Bool → Bool) → List CompactTx → List Bool → Bool
any_tx f (tx ∷ txs) (b ∷ bs) = f tx b || any_tx f txs bs
any_tx f [] bs = false
any_tx f (tx ∷ txs) [] = false

module _ (range : ℕ × ℕ) (x : ℕ) where
  -- A completed transaction creates the output, or spends it.
  abbrev pub created : List CompactTx → List Bool → Bool
  created = any_tx (λ tx complete. complete && touches range tx.uhs_outputs x)

  abbrev pub spent : List CompactTx → List Bool → Bool
  spent = any_tx (λ tx complete. complete && touches range tx.inputs x)

  -- A transaction that could not be locked has the output among its inputs.
  abbrev pub failed_touches : List CompactTx → List Bool → Bool
  failed_touches = any_tx (λ tx locked. not locked && touches range tx.inputs x)

  -- A transaction that holds the lock of the output is aborted.
  unfoldable pub released : List CompactTx → List Bool → List Bool → Bool
  released (tx ∷ txs) (r ∷ rs) (b ∷ bs) =
      ((r && not b) && touches range tx.inputs x) || released txs rs bs
  released (tx ∷ txs) (r ∷ rs) [] = false
  released (tx ∷ txs) [] bs = false
  released [] rs bs = false

-- One flag for each transaction, and only a locked transaction is completed.
abbrev pub Agree : List CompactTx → List Bool → List Bool → Type 0
Agree (tx ∷ txs) (r ∷ rs) (b ∷ bs) = ((b && not r) ≡ false) × Agree txs rs bs
Agree [] [] [] = Unit {0}
Agree [] [] (b ∷ bs) = ⊥
Agree [] (r ∷ rs) bs = ⊥
Agree (tx ∷ txs) [] bs = ⊥
Agree (tx ∷ txs) (r ∷ rs) [] = ⊥

-- Of at most one lock holder, exactly one thing becomes.
pub lockers_split :
    (range : ℕ × ℕ) (x : ℕ) (txs : List CompactTx) (rs bs : List Bool)
    → Agree txs rs bs
    → lockers range x txs rs ≤ 1
    → as_one (released range x txs rs bs) + as_one (spent range x txs bs) ≡ lockers range x txs rs
unfolding lockers released any_tx
lockers_split range x [] [] [] a h = omega arith
lockers_split range x [] [] (b ∷ bs) a h = absurd a
lockers_split range x [] (r ∷ rs) bs a h = absurd a
lockers_split range x (tx ∷ txs) [] bs a h = absurd a
lockers_split range x (tx ∷ txs) (r ∷ rs) [] a h = absurd a
lockers_split range x (tx ∷ txs) (r ∷ rs) (b ∷ bs) a h =
    ground (arith, a.0, lockers_split range x txs rs bs a.1)
