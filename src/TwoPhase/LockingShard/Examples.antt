-- ===== src/TwoPhase/LockingShard/Examples.antt =====
-- Tests of the model of the locking shard, and the theorems at concrete inputs.
use cbdc_forensics.Common.{
  ◌+◌, ◌≤◌, ◌≡◌, refl, ◌↔◌, true, false, not, ◌&&◌, ◌||◌, none, some, [], ◌∷◌, arith, member,
  emplace, erase, find, put,
}
use cbdc_forensics.Util.CacheSet.{new}
use cbdc_forensics.Util.CacheSet.Laws.{new-IsValid}
use cbdc_forensics.Transaction.{CompactTx}
use cbdc_forensics.Transaction.Toy.{toy}
use cbdc_forensics.Transaction.Validation.{check_attestations}
use cbdc_forensics.TwoPhase.Outcome.{ok}
use cbdc_forensics.TwoPhase.LockingShard.Loops.{touches, AreUnspent}
use cbdc_forensics.TwoPhase.LockingShard.Lock.{
  IsDisjoint, as_one, is_attested, lockers, check_and_lock_tx_result, lock_txs-IsDisjoint,
  lock_txs_exclusive,
}
use cbdc_forensics.TwoPhase.LockingShard.Apply.{created, spent, any_tx}
use cbdc_forensics.TwoPhase.LockingShard.Dtx.{lock_outputs_again, lock_then_apply}
use cbdc_forensics.TwoPhase.LockingShard.Conflict.{
  abort_frees_foreign_lock, double_spend_in_batch, aborted_tx_is_reported,
}
use cbdc_forensics.TwoPhase.LockingShard.{
  LockingShard, hash_in_shard_range, apply_tx, apply_txs, apply_outputs, check_and_lock_tx,
  lock_txs, lock_outputs, check_tx_id,
}

-- A shard of the whole range with one unspent output, 5; no attestations are asked for.
abbrev shard : LockingShard
shard = record {
  running = true;
  output_range = (0, 255);
  uhs = 5 ∷ [];
  locked = [];
  prepared_dtxs = [];
  applied_dtxs = [];
  completed_txs = record { vals = []; eviction_queue = []; max_size = 4 };
  sentinel_public_keys = [];
  attestation_threshold = 0;
}

-- It spends 5 and creates 6.
abbrev pay : CompactTx
pay = record { id = 1; inputs = 5 ∷ []; uhs_outputs = 6 ∷ []; attestations = [] }

-- It spends 5 and 7, which does not exist.
abbrev greedy : CompactTx
greedy = record { id = 2; inputs = 5 ∷ 7 ∷ []; uhs_outputs = 8 ∷ []; attestations = [] }

pay_locked : (lock_outputs toy (pay ∷ []) 100 shard).0 ≡ some (true ∷ [])
unfolding lock_outputs check_attestations hash_in_shard_range member erase emplace find put
pay_locked = refl

greedy_fails : (lock_txs toy (greedy ∷ pay ∷ []) shard).0 ≡ false ∷ true ∷ []
unfolding lock_txs check_attestations hash_in_shard_range member erase emplace
greedy_fails = refl

shard-IsDisjoint : IsDisjoint shard
unfolding member
shard-IsDisjoint x = ground arith

check_and_lock_tx_result_example :
    ((check_and_lock_tx toy pay shard).0 ≡ true)
    ↔ ((is_attested toy pay shard ≡ true) × AreUnspent (0, 255) (5 ∷ []) (5 ∷ []))
check_and_lock_tx_result_example = check_and_lock_tx_result toy pay shard

lock_txs-IsDisjoint_example : IsDisjoint (lock_txs toy (greedy ∷ pay ∷ []) shard).1
lock_txs-IsDisjoint_example = lock_txs-IsDisjoint toy (greedy ∷ pay ∷ []) shard shard-IsDisjoint

lock_txs_exclusive_example :
    lockers (0, 255) 5 (pay ∷ pay ∷ []) (lock_txs toy (pay ∷ pay ∷ []) shard).0
      + as_one (member 5 [])
    ≤ 1
lock_txs_exclusive_example = lock_txs_exclusive toy (pay ∷ pay ∷ []) shard 5 shard-IsDisjoint

lock_outputs_again_example :
    lock_outputs toy [] 100 (lock_outputs toy (pay ∷ []) 100 shard).1
    ≡ ((lock_outputs toy (pay ∷ []) 100 shard).0, (lock_outputs toy (pay ∷ []) 100 shard).1)
lock_outputs_again_example = lock_outputs_again toy (pay ∷ []) [] 100 shard refl

lock_then_apply_example :
    (s' : LockingShard) × (apply_outputs (true ∷ []) 100 (lock_outputs toy (pay ∷ []) 100 shard).1
      ≡ ok (true, s'))
    × (find 100 s'.prepared_dtxs ≡ none)
    × (member 100 s'.applied_dtxs ≡ true)
    × (member 6 s'.uhs ≡ (
        created (0, 255) 6 (pay ∷ []) (true ∷ [])
        || (member 6 (5 ∷ []) && not (spent (0, 255) 6 (pay ∷ []) (true ∷ [])))))
    × (member 6 s'.locked ≡ member 6 [])
unfolding lock_txs check_attestations hash_in_shard_range member erase emplace any_tx touches find
lock_then_apply_example =
    lock_then_apply toy (pay ∷ []) (true ∷ []) 100 shard 6 refl refl shard-IsDisjoint (refl, tt)
      refl

abbrev applied : LockingShard
applied = record shard { applied_dtxs = 100 ∷ [] }

-- Dtx 100 has locked output 5; dtx 101 could not lock it.
abbrev contended : LockingShard
contended = record shard {
  uhs = [];
  locked = 5 ∷ [];
  prepared_dtxs = (101, record { txs = greedy ∷ []; results = false ∷ [] }) ∷ [];
}

abort_frees_foreign_lock_example :
    (s' : LockingShard) × (apply_outputs (false ∷ []) 101 contended ≡ ok (true, s'))
    × (member 5 s'.uhs ≡ true)
    × (member 5 s'.locked ≡ false)
unfolding find member touches hash_in_shard_range
abort_frees_foreign_lock_example =
    abort_frees_foreign_lock greedy 101 contended 5 refl refl refl refl

double_spend_in_batch_example :
    member 5
      (apply_txs
        (greedy ∷ pay ∷ [])
        (false ∷ true ∷ [])
        (lock_txs toy (greedy ∷ pay ∷ []) shard).1).uhs
    ≡ true
unfolding touches member hash_in_shard_range
double_spend_in_batch_example = double_spend_in_batch toy greedy pay shard 5 greedy_fails refl refl

aborted_tx_is_reported_example : check_tx_id 1 (apply_tx pay false shard) ≡ some true
unfolding hash_in_shard_range new
aborted_tx_is_reported_example = aborted_tx_is_reported pay shard (new-IsValid 4) (omega arith) refl
