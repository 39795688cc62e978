-- ===== src/TwoPhase/DistributedTx/Examples.antt =====
-- Tests of the model of the distributed transaction over two locking shards, and the theorems at
-- concrete inputs.
use cbdc_forensics.Common.{
  ℕ, ◌≡◌, ◌≢◌, refl, Bool, true, false, not, Option, none, some, List, [], ◌∷◌, arith, get_or,
  member, emplace, erase, find, put, remove,
}
use cbdc_forensics.Util.CacheSet.{add}
use cbdc_forensics.Transaction.{CompactTx}
use cbdc_forensics.Transaction.Toy.{toy}
use cbdc_forensics.Transaction.Validation.{check_attestations}
use cbdc_forensics.TwoPhase.Outcome.{Outcome, fatal, ok}
use cbdc_forensics.TwoPhase.LockingShard.{
  LockingShard, lock_outputs, apply_outputs, discard_dtx, hash_in_shard_range,
}
use cbdc_forensics.TwoPhase.DistributedTx
use cbdc_forensics.TwoPhase.DistributedTx.{
  Callbacks, DistributedTx, prepare_dtx, execute, add_txs, recover_prepare, recover_discard,
}
use cbdc_forensics.TwoPhase.DistributedTx.Decision.{refused, futures_of, prepare_decides}
use cbdc_forensics.TwoPhase.DistributedTx.Progress.{execute_recovered_returns}
use cbdc_forensics.TwoPhase.DistributedTx.Recovery.{
  locking_shard_interface, locking_shard-IsAnswering, recover_discard_asks_none,
}

-- A shard of a range with one unspent output; no attestations are asked for.
abbrev shard_with : ℕ × ℕ → ℕ → LockingShard
shard_with range id = record {
  running = true;
  output_range = range;
  uhs = id ∷ [];
  locked = [];
  prepared_dtxs = [];
  applied_dtxs = [];
  completed_txs = record { vals = []; eviction_queue = []; max_size = 4 };
  sentinel_public_keys = [];
  attestation_threshold = 0;
}

abbrev two_shards : List LockingShard
two_shards = shard_with (0, 127) 5 ∷ shard_with (128, 255) 200 ∷ []

-- The first spends an output of each shard, the second one that does not exist.
abbrev pay : CompactTx
pay = record { id = 1; inputs = 5 ∷ 200 ∷ []; uhs_outputs = 6 ∷ []; attestations = [] }

abbrev overdraw : CompactTx
overdraw = record { id = 2; inputs = 201 ∷ []; uhs_outputs = 7 ∷ []; attestations = [] }

abbrev callbacks : Callbacks ℕ
callbacks = record {
  prepare_cb = none;
  commit_cb = some (λ id flags idxs r. (true, r));
  discard_cb = none;
  done_cb = none;
}

abbrev batch : DistributedTx LockingShard ℕ
batch =
    add_txs (locking_shard_interface toy) callbacks (pay ∷ overdraw ∷ [])
      (DistributedTx.new (locking_shard_interface toy) callbacks 100 two_shards 0)

answer_of : {D : Type 0} → Outcome (Option (List Bool) × D) → Option (List Bool)
answer_of fatal = none
answer_of (ok (flags, d)) = flags

state_of : {D : Type 0} → D → Outcome (Option (List Bool) × D) → D
state_of d fatal = d
state_of d (ok (flags, d')) = d'

pay_completes :
    answer_of (execute (locking_shard_interface toy) callbacks batch) ≡ some (true ∷ false ∷ [])
unfolding answer_of execute add_txs DistributedTx.new locking_shard_interface lock_outputs
    apply_outputs discard_dtx hash_in_shard_range check_attestations member erase emplace find put
    remove add
pay_completes = refl

batch_prepared :
    prepare_dtx (locking_shard_interface toy) callbacks batch
    ≡ ok (
      some (true ∷ false ∷ []),
      state_of batch (prepare_dtx (locking_shard_interface toy) callbacks batch),
    )
unfolding state_of prepare_dtx add_txs DistributedTx.new locking_shard_interface lock_outputs
    hash_in_shard_range check_attestations member erase emplace find put
batch_prepared = refl

prepare_decides_example :
    get_or (true ∷ false ∷ []) 1 false
    ≡ not (refused 1 (futures_of (locking_shard_interface toy) callbacks batch))
unfolding add_txs DistributedTx.new
prepare_decides_example =
    prepare_decides (locking_shard_interface toy) callbacks batch
      (state_of batch (prepare_dtx (locking_shard_interface toy) callbacks batch))
      (true ∷ false ∷ []) 1 batch_prepared (omega arith)

execute_recovered_returns_example :
    execute (locking_shard_interface toy) callbacks (
      recover_prepare
        (locking_shard_interface toy)
        callbacks
        (pay ∷ overdraw ∷ [])
        (DistributedTx.new (locking_shard_interface toy) callbacks 100 two_shards 0))
    ≢ fatal
unfolding find
execute_recovered_returns_example =
    execute_recovered_returns (locking_shard_interface toy) callbacks 100 two_shards 0
      (pay ∷ overdraw ∷ [])
      (
        locking_shard-IsAnswering toy (shard_with (0, 127) 5) 100 refl,
        (locking_shard-IsAnswering toy (shard_with (128, 255) 200) 100 refl, tt),
      )

abbrev recovered : DistributedTx LockingShard ℕ
recovered =
    recover_discard (locking_shard_interface toy) callbacks
      (DistributedTx.new (locking_shard_interface toy) callbacks 100 two_shards 0)

recovered_discards :
    execute (locking_shard_interface toy) callbacks recovered
    ≡ ok (some [], state_of recovered (execute (locking_shard_interface toy) callbacks recovered))
unfolding state_of execute recover_discard DistributedTx.new
recovered_discards = refl

recover_discard_asks_none_example :
    (state_of recovered (execute (locking_shard_interface toy) callbacks recovered)).shards
    ≡ two_shards
recover_discard_asks_none_example =
    recover_discard_asks_none (locking_shard_interface toy) callbacks 100 two_shards 0 (some [])
      (state_of recovered (execute (locking_shard_interface toy) callbacks recovered))
      recovered_discards
