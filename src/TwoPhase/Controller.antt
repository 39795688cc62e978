-- ===== src/TwoPhase/Controller.antt =====
-- src/uhs/twophase/coordinator/controller.cpp: a coordinator puts transactions in batches, executes the
-- batches as dtxs, answers the sentinels, and recovers the dtxs that a leader before it left. Raft is a
-- parameter. The source executes dtxs on several threads; here they are executed one after another.
pub mod Batch
pub mod Answers
mod Examples
use cbdc_forensics.Common.{
  ℕ, Bool, true, false, not, ◌&&◌, Option, none, some, List, [], ◌∷◌, ◌++◌, map, length, get_or,
  ltb, if◌then◌else◌, Map, find, put,
}
use cbdc_forensics.Transaction.{CompactTx}
use cbdc_forensics.Transaction.Crypto.{Crypto}
use cbdc_forensics.Transaction.Validation.{check_attestations}
use cbdc_forensics.TwoPhase.Outcome.{Outcome, fatal, ok, ◌>>=◌}
use cbdc_forensics.TwoPhase.DistributedTx.{
  ShardInterface, Callbacks, DtxState, prepare, commit, discard, done, is_state, DistributedTx, new,
  add_tx, execute, recover_prepare, recover_commit, recover_discard,
}

-- `sm_command`, by its kind: what is sent to the replicated state machine.
pub data SmCommand : Type 0 where
  prepare_command : ℕ → List CompactTx → SmCommand
  commit_command : ℕ → List Bool → List (List ℕ) → SmCommand
  discard_command done_command : ℕ → SmCommand
  get_command : SmCommand

-- `coordinator_state`, as `recovery_func` reads it.
pub record RecoveryState : Type 0 where
  pub prepare_txs : Map (List CompactTx)
  pub commit_txs : Map (List Bool × List (List ℕ))
  pub discard_txs : List ℕ

-- `m_raft_serv`, over what is replicated: `replicate_sync` has no result if the entry was not
-- replicated, and the state of the machine after `get`.
pub record Raft (R : Type 0) : Type 0 where
  pub is_leader : R → Bool
  pub replicate_sync : SmCommand → R → Option (Option RecoveryState) × R

-- The members that the handlers share. `current_txs` has the callback of a transaction of the current
-- batch and its index in it.
pub record Controller (S R C : Type 0) : Type 0 where
  pub running : Bool
  pub shards : List S
  pub replicated : R
  pub current_batch : DistributedTx S R
  pub current_txs : Map (C × ℕ)
  pub batch_size : ℕ
  pub sentinel_public_keys : List ℕ
  pub attestation_threshold : ℕ

-- The end of `f` in `batch_executor_func`: the callbacks with the results of their transactions, or
-- without if the dtx failed.
unfoldable pub respond : {C : Type 0} → Option (List Bool) → Map (C × ℕ) → List (C × Option Bool)
respond res [] = []
respond none ((id, (cb, idx)) ∷ txs) = (cb, none) ∷ respond none txs
respond (some flags) ((id, (cb, idx)) ∷ txs) =
    (cb, some (get_or flags idx false)) ∷ respond (some flags) txs

abbrev pub is_new : {S R C : Type 0} → CompactTx → Controller S R C → Bool
is_new tx s = elim (find tx.id s.current_txs) [ none ↦ true | some entry ↦ false ]

module _ {S R C : Type 0} where
  -- The shards and the replicated state are as the dtx left them.
  unfoldable pub after_dtx :
      Controller S R C
      → Outcome (Option (List Bool) × DistributedTx S R)
      → Outcome (Option (List Bool) × Controller S R C)
  after_dtx s fatal = fatal
  after_dtx s (ok (res, d)) = ok (res, record s { shards = d.shards; replicated = d.replicated })

  unfoldable pub answer_batch :
      Map (C × ℕ)
      → Outcome (Option (List Bool) × Controller S R C)
      → Outcome (List (C × Option Bool) × Controller S R C)
  unfolding respond
  answer_batch txs fatal = fatal
  answer_batch txs (ok (res, s)) = ok (respond res txs, s)

module _ {R : Type 0} (raft : Raft R) where
  -- `has_value()` of what `replicate_sm_command` returns.
  unfoldable pub replicated : SmCommand → R → Bool × R
  replicated command r =
      let (res, r') = raft.replicate_sync command r in
      (elim res [ none ↦ false | some answer ↦ true ], r')

  -- The callback of the phase that the dtx is in is not set.
  unfoldable pub batch_set_cbs : DtxState → Callbacks R
  unfolding replicated
  batch_set_cbs s = record {
    prepare_cb =
        if is_state s prepare
        then none
        else some (λ dtx_id txs r. replicated (prepare_command dtx_id txs) r);
    commit_cb =
        if is_state s commit
        then none
        else some (λ dtx_id flags idxs r. replicated (commit_command dtx_id flags idxs) r);
    discard_cb =
        if is_state s discard
        then none
        else some (λ dtx_id r. replicated (discard_command dtx_id) r);
    done_cb =
        if is_state s done then none else some (λ dtx_id r. replicated (done_command dtx_id) r);
  }

  abbrev pub cbs_of : {S : Type 0} → DistributedTx S R → Callbacks R
  cbs_of d = batch_set_cbs d.state

module _ {S R C : Type 0} (shard : ShardInterface S) (raft : Raft R) where
  -- The part of `execute_transaction` after the wait, unless the transaction is in the batch.
  unfoldable pub add_to_batch : CompactTx → C → Controller S R C → Controller S R C
  unfolding batch_set_cbs add_tx
  add_to_batch tx result_callback s =
      let (idx, batch) = add_tx shard (cbs_of raft s.current_batch) tx s.current_batch in
      record s {
        current_batch = batch;
        current_txs = put tx.id (result_callback, idx) s.current_txs;
      }

  -- The swap of `batch_executor_func`, with the random identifier of the next batch.
  unfoldable pub take_batch :
      ℕ → Controller S R C → DistributedTx S R × Map (C × ℕ) × Controller S R C
  unfolding new
  take_batch dtx_id s = (
    s.current_batch,
    s.current_txs,
    record s {
      current_batch = new shard (batch_set_cbs raft DtxState.start) dtx_id s.shards s.replicated;
      current_txs = [];
    },
  )

  -- `execute` of a dtx, on the shards and the replicated state as they are.
  unfoldable pub run_dtx :
      DistributedTx S R → Controller S R C → Outcome (Option (List Bool) × Controller S R C)
  unfolding batch_set_cbs execute after_dtx
  run_dtx d s =
      after_dtx s
        (execute shard (cbs_of raft d) (record d { shards = s.shards; replicated = s.replicated }))

  -- A batch that was taken: its execution, and the answers to its callbacks.
  unfoldable pub run_batch :
      DistributedTx S R
      → Map (C × ℕ)
      → Controller S R C
      → Outcome (List (C × Option Bool) × Controller S R C)
  unfolding run_dtx answer_batch
  run_batch batch txs s = answer_batch txs (run_dtx batch s)

  -- The last loop of `recovery_func`, with the flag of its success.
  unfoldable pub run_all :
      List (DistributedTx S R) → Bool → Controller S R C → Outcome (Bool × Controller S R C)
  unfolding run_dtx
  run_all [] success s = ok (success, s)
  run_all (d ∷ ds) success s = do
    (res, s') ← run_dtx d s
    run_all ds (elim res [ none ↦ false | some flags ↦ success ]) s'

  -- The first three loops: a dtx for each of the state's.
  unfoldable pub recovered : RecoveryState → Controller S R C → List (DistributedTx S R)
  unfolding recover_prepare recover_commit recover_discard new
  recovered state s =
      let fresh =
        λ (id : ℕ). new shard (batch_set_cbs raft DtxState.start) id s.shards s.replicated in
      let cbs = batch_set_cbs raft DtxState.start in
      map (λ (id, txs). recover_prepare shard cbs txs (fresh id)) state.prepare_txs
      ++ (map (λ (id, (flags, idxs)). recover_commit shard cbs flags idxs (fresh id))
            state.commit_txs
          ++ map (λ id. recover_discard shard cbs (fresh id)) state.discard_txs)

  -- `false` if the state could not be had, or a dtx failed.
  unfoldable pub recover :
      Option (Option RecoveryState) → Controller S R C → Outcome (Bool × Controller S R C)
  unfolding run_all recovered
  recover none s = ok (false, s)
  recover (some none) s = ok (false, s)
  recover (some (some state)) s = run_all (recovered state s) true s

  unfoldable pub recovery_func : Controller S R C → Outcome (Bool × Controller S R C)
  unfolding recover
  recovery_func s =
      let (res, r) = raft.replicate_sync get_command s.replicated in
      recover res (record s { replicated = r })

module _ {S R C : Type 0} (c : Crypto) (shard : ShardInterface S) (raft : Raft R) where
  -- No result while the call waits for room in the batch.
  unfoldable pub execute_transaction :
      CompactTx → C → Controller S R C → Option (Bool × Controller S R C)
  unfolding add_to_batch
  execute_transaction tx result_callback s =
      if not (raft.is_leader s.replicated)
      then some (false, s)
      else if not (check_attestations c tx s.sentinel_public_keys s.attestation_threshold)
      then some (false, s)
      else if not (ltb (length s.current_txs) s.batch_size) && s.running
      then none
      else if not s.running
      then some (false, s)
      else if is_new tx s
      then some (true, add_to_batch shard raft tx result_callback s)
      else some (false, s)
