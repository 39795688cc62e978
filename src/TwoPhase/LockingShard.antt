-- ===== src/TwoPhase/LockingShard.antt =====
-- src/uhs/twophase/locking_shard/locking_shard.cpp: a shard of the unspent hash set that locks the
-- inputs of a distributed transaction (a dtx), then applies or releases them. Every call holds the
-- mutex, so it is one step. The build without assertions is modelled. The preseed file is input.
pub mod Loops
pub mod Lock
pub mod Apply
pub mod Cycle
pub mod Dtx
pub mod Conflict
mod Examples
use cbdc_forensics.Common.{
  ℕ, ◌%◌, Bool, true, false, not, ◌&&◌, ◌||◌, Option, none, some, List, [], ◌∷◌, length, ltb, leb,
  ◌==◌, if◌then◌else◌, member, emplace, erase, Map, find, put, remove,
}
use cbdc_forensics.Util.CacheSet.{CacheSet, add, contains}
use cbdc_forensics.Transaction.{CompactTx}
use cbdc_forensics.Transaction.Crypto.{Crypto}
use cbdc_forensics.Transaction.Validation.{check_attestations}
use cbdc_forensics.TwoPhase.Outcome.{Outcome, fatal, ok, ◌>>=◌}

pub record PreparedDtx : Type 0 where
  pub txs : List CompactTx
  pub results : List Bool

-- The two maps of identifiers to unspent and locked outputs, the dtxs that are prepared or applied,
-- and of the options those that the shard reads.
pub record LockingShard : Type 0 where
  pub running : Bool
  pub output_range : ℕ × ℕ
  pub uhs : List ℕ
  pub locked : List ℕ
  pub prepared_dtxs : Map PreparedDtx
  pub applied_dtxs : List ℕ
  pub completed_txs : CacheSet
  pub sentinel_public_keys : List ℕ
  pub attestation_threshold : ℕ

-- `config::hash_in_shard_range`: the first byte of the hash is within the range, both ends included.
unfoldable pub hash_in_shard_range : ℕ × ℕ → ℕ → Bool
hash_in_shard_range (first, last) h = leb first (h % 256) && leb (h % 256) last

-- The first loop of `check_and_lock_tx`: an input of this shard that is not unspent ends it.
unfoldable pub has_inputs : ℕ × ℕ → List ℕ → List ℕ → Bool
has_inputs range uhs [] = true
has_inputs range uhs (id ∷ ids) =
    if hash_in_shard_range range id && not (member id uhs) then false else has_inputs range uhs ids

-- The unspent and the locked outputs.
pub record Outputs : Type 0 where
  pub uhs : List ℕ
  pub locked : List ℕ

-- The second loop: `m_uhs.extract(uhs_id)`, `m_locked.emplace(uhs_id)`.
unfoldable pub lock_input : ℕ × ℕ → ℕ → Outputs → Outputs
lock_input range id o =
    if hash_in_shard_range range id
    then record { uhs = erase id o.uhs; locked = emplace id o.locked }
    else o

unfoldable pub lock_inputs : ℕ × ℕ → List ℕ → Outputs → Outputs
unfolding lock_input
lock_inputs range [] o = o
lock_inputs range (id ∷ ids) o = lock_inputs range ids (lock_input range id o)

-- `m_uhs.emplace` of the outputs of this shard, if the transaction completes.
unfoldable pub add_outputs : ℕ × ℕ → Bool → List ℕ → Outputs → Outputs
add_outputs range complete [] o = o
add_outputs range complete (id ∷ ids) o =
    add_outputs range complete ids
      (if hash_in_shard_range range id && complete then record o { uhs = emplace id o.uhs } else o)

-- The lock of an input is released; the output of an aborted transaction is unspent again if there
-- was a lock.
unfoldable pub release_input : ℕ × ℕ → Bool → ℕ → Outputs → Outputs
release_input range complete id o =
    if hash_in_shard_range range id
    then record {
      uhs = if not complete && member id o.locked then emplace id o.uhs else o.uhs;
      locked = erase id o.locked;
    }
    else o

unfoldable pub release_inputs : ℕ × ℕ → Bool → List ℕ → Outputs → Outputs
unfolding release_input
release_inputs range complete [] o = o
release_inputs range complete (id ∷ ids) o =
    release_inputs range complete ids (release_input range complete id o)

abbrev pub outputs_of : LockingShard → Outputs
outputs_of s = record { uhs = s.uhs; locked = s.locked }

abbrev pub with_outputs : LockingShard → Outputs → LockingShard
with_outputs s o = record s { uhs = o.uhs; locked = o.locked }

-- The body of the loop of `apply_outputs`.
unfoldable pub apply_tx : CompactTx → Bool → LockingShard → LockingShard
unfolding add_outputs release_inputs
apply_tx tx complete s =
    let o = add_outputs s.output_range complete tx.uhs_outputs (outputs_of s) in
    let completed =
      if hash_in_shard_range s.output_range tx.id
      then (add tx.id s.completed_txs).0
      else s.completed_txs in
    with_outputs (record s { completed_txs = completed })
      (release_inputs s.output_range complete tx.inputs o)

-- The loop, over two vectors of one size.
unfoldable pub apply_txs : List CompactTx → List Bool → LockingShard → LockingShard
unfolding apply_tx
apply_txs (tx ∷ txs) (complete ∷ cs) s = apply_txs txs cs (apply_tx tx complete s)
apply_txs [] cs s = s
apply_txs (tx ∷ txs) [] s = s

-- The dtx was found: the size of the flags is checked, the transactions are applied, and the dtx
-- moves from the prepared to the applied.
unfoldable pub apply_prepared : PreparedDtx → List Bool → ℕ → LockingShard → LockingShard
unfolding apply_txs
apply_prepared p complete_txs dtx_id s =
    let s' = apply_txs p.txs complete_txs s in
    record s' {
      prepared_dtxs = remove dtx_id s'.prepared_dtxs;
      applied_dtxs = emplace dtx_id s'.applied_dtxs;
    }

unfoldable pub apply_outputs : List Bool → ℕ → LockingShard → Outcome (Bool × LockingShard)
unfolding apply_prepared
apply_outputs complete_txs dtx_id s =
    if not s.running then ok (false, s) else elim (find dtx_id s.prepared_dtxs) [
      | none ↦ if member dtx_id s.applied_dtxs then ok (true, s) else fatal
      | some p ↦
          if length complete_txs == length p.txs
          then ok (true, apply_prepared p complete_txs dtx_id s)
          else fatal
    ]

unfoldable pub discard_dtx : ℕ → LockingShard → Bool × LockingShard
discard_dtx dtx_id s =
    (s.running, if s.running then record s { applied_dtxs = erase dtx_id s.applied_dtxs } else s)

unfoldable pub stop : LockingShard → LockingShard
stop s = record s { running = false }

-- Unspent, or locked by a dtx that has not been applied.
unfoldable pub check_unspent : ℕ → LockingShard → Option Bool
check_unspent id s = some (member id s.uhs || member id s.locked)

unfoldable pub check_tx_id : ℕ → LockingShard → Option Bool
check_tx_id id s = some (contains id s.completed_txs)

module _ (c : Crypto) where
  unfoldable pub check_and_lock_tx : CompactTx → LockingShard → Bool × LockingShard
  unfolding has_inputs lock_inputs
  check_and_lock_tx tx s =
      if not (check_attestations c tx s.sentinel_public_keys s.attestation_threshold)
      then (false, s)
      else if has_inputs s.output_range s.uhs tx.inputs
      then (true, with_outputs s (lock_inputs s.output_range tx.inputs (outputs_of s)))
      else (false, s)

  -- The loop of `lock_outputs`.
  unfoldable pub lock_txs : List CompactTx → LockingShard → List Bool × LockingShard
  unfolding check_and_lock_tx
  lock_txs [] s = ([], s)
  lock_txs (tx ∷ txs) s =
      let (success, s') = check_and_lock_tx tx s in
      let (results, s'') = lock_txs txs s' in (success ∷ results, s'')

  -- A dtx that is prepared already gets its former answer.
  unfoldable pub lock_outputs :
      List CompactTx → ℕ → LockingShard → Option (List Bool) × LockingShard
  unfolding lock_txs
  lock_outputs txs dtx_id s =
      if not s.running then (none, s) else elim (find dtx_id s.prepared_dtxs) [
        | some p ↦ (some p.results, s)
        | none ↦
            let (results, s') = lock_txs txs s in
            (
              some results,
              record s' {
                prepared_dtxs =
                    put dtx_id (record { txs = txs; results = results }) s'.prepared_dtxs;
              },
            )
      ]
