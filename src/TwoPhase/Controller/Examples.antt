-- ===== src/TwoPhase/Controller/Examples.antt =====
-- Tests of the coordinator, and the theorems at concrete inputs.
use cbdc_forensics.Common.{
  ℕ, suc, ◌≤◌, ◌≡◌, refl, Bool, true, false, not, ◌==◌, Option, none, some, List, [], ◌∷◌, map, All,
  find, put,
}
use cbdc_forensics.Transaction.{CompactTx}
use cbdc_forensics.Transaction.Toy.{toy}
use cbdc_forensics.Transaction.Validation.{check_attestations}
use cbdc_forensics.TwoPhase.Outcome.{ok}
use cbdc_forensics.TwoPhase.DistributedTx.{ShardInterface, start, new}
use cbdc_forensics.TwoPhase.Controller.{
  Controller, Raft, batch_set_cbs, execute_transaction, add_to_batch, take_batch, run_dtx,
  run_batch, recovery_func,
}
use cbdc_forensics.TwoPhase.Controller.Batch.{Filled, taken, accepted}
use cbdc_forensics.TwoPhase.Controller.Answers.{IsAnswered, run_batch_answers}

-- A shard that refuses the transactions whose identifier is 2, and counts its calls.
abbrev picky : ShardInterface ℕ
picky = record {
  lock_outputs = λ txs id n. (some (map (λ tx. not (tx.id == 2)) txs), suc n);
  apply_outputs = λ flags id n. (true, suc n);
  discard_dtx = λ id n. (true, suc n);
  in_range = λ n x. true;
}

-- It counts the entries, and has a dtx in its second phase.
abbrev counting : Raft ℕ
counting = record {
  is_leader = λ n. true;
  replicate_sync = λ command n. (
    some (
        some (record {
          prepare_txs = [];
          commit_txs = (7, (true ∷ [], (0 ∷ []) ∷ [])) ∷ [];
          discard_txs = [];
        })),
    suc n,
  );
}

abbrev tx_with : ℕ → CompactTx
tx_with id = record { id = id; inputs = 8 ∷ []; uhs_outputs = []; attestations = [] }

abbrev idle : Controller ℕ ℕ ℕ
idle = record {
  running = true;
  shards = 0 ∷ [];
  replicated = 0;
  current_batch = new picky (batch_set_cbs counting start) 1 (0 ∷ []) 0;
  current_txs = [];
  batch_size = 2;
  sentinel_public_keys = [];
  attestation_threshold = 0;
}

abbrev taken_once : Controller ℕ ℕ ℕ
taken_once = (take_batch picky counting 5 idle).2

-- Two transactions, with the callbacks 100 and 101.
abbrev with_one : Controller ℕ ℕ ℕ
with_one = add_to_batch picky counting (tx_with 1) 100 taken_once

abbrev with_two : Controller ℕ ℕ ℕ
with_two = add_to_batch picky counting (tx_with 2) 101 with_one

abbrev both : List (CompactTx × ℕ)
both = (tx_with 1, 100) ∷ (tx_with 2, 101) ∷ []

both-Filled : Filled toy picky counting idle both with_two
unfolding execute_transaction check_attestations take_batch find put new
both-Filled =
    accepted (tx_with 2) 101 ((tx_with 1, 100) ∷ []) with_one with_two
      (accepted (tx_with 1) 100 [] taken_once with_one (taken 5) refl) refl

-- The third one waits.
batch_is_full : execute_transaction toy picky counting (tx_with 3) 102 with_two ≡ none
unfolding execute_transaction check_attestations take_batch find put new
batch_is_full = refl

abbrev after_batch : Controller ℕ ℕ ℕ
after_batch = record (take_batch picky counting 6 with_two).2 { shards = 3 ∷ []; replicated = 4 }

batch_runs :
    run_dtx picky counting with_two.current_batch (take_batch picky counting 6 with_two).2
    ≡ ok (some (true ∷ false ∷ []), after_batch)
unfolding run_dtx take_batch add_to_batch find put new
batch_runs = refl

run_batch_answers_example :
    (2 ≤ with_two.batch_size)
    × All
        (λ sub.
          check_attestations toy sub.0 with_two.sentinel_public_keys with_two.attestation_threshold
          ≡ true)
        both
    × (answers : List (ℕ × Option Bool)) × (run_batch picky counting with_two.current_batch
          with_two.current_txs
          (take_batch picky counting 6 with_two).2
        ≡ ok (answers, after_batch))
    × IsAnswered both (some (true ∷ false ∷ [])) answers
run_batch_answers_example =
    run_batch_answers toy picky counting idle with_two after_batch both 6 (some (true ∷ false ∷ []))
      both-Filled batch_runs

-- The dtx that was left in its second phase: the entries are `get`, `discard` and `done`.
recovered_one :
    recovery_func picky counting idle ≡ ok (true, record idle { shards = 2 ∷ []; replicated = 3 })
unfolding recovery_func new
recovered_one = refl
