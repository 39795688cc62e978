-- ===== src/Atomizer/Sentinel/Examples.antt =====
-- Tests of the sentinel of the atomizer architecture, and the theorems at concrete inputs.
use cbdc_forensics.Common.{
  ℕ, ◌≤◌, ◌≡◌, refl, true, List, [], ◌∷◌, none, some, arith, length, member,
}
use cbdc_forensics.Transaction.{CompactTx}
use cbdc_forensics.TwoPhase.LockingShard.{hash_in_shard_range}
use cbdc_forensics.Atomizer.Sentinel.{
  ShardInfo, input_in_range, mark_inputs, marked, send_from, send_compact_tx,
}
use cbdc_forensics.Atomizer.Sentinel.Sending.{send_compact_tx_once, send_compact_tx_out_of_bounds}

abbrev shards : List ShardInfo
shards =
    record { range = (0, 127); peer_id = 1; connected = true }
    ∷ record { range = (128, 255); peer_id = 2; connected = true }
    ∷ []

abbrev spending : List ℕ → CompactTx
spending ids = record { id = 4; inputs = ids; uhs_outputs = 9 ∷ []; attestations = [] }

-- Each shard holds one of the inputs.
first_shard_only : send_compact_tx shards 0 (spending (5 ∷ 200 ∷ [])) ≡ some (1 ∷ [])
unfolding send_compact_tx send_from marked mark_inputs input_in_range hash_in_shard_range member
first_shard_only = refl

send_compact_tx_once_example : length {A = ℕ} (1 ∷ []) ≤ 1
send_compact_tx_once_example =
    send_compact_tx_once shards 0 (spending (5 ∷ 200 ∷ [])) (1 ∷ []) first_shard_only

send_compact_tx_out_of_bounds_example : send_compact_tx shards 0 (spending (200 ∷ [])) ≡ none
unfolding hash_in_shard_range
send_compact_tx_out_of_bounds_example =
    send_compact_tx_out_of_bounds shards 0 200 (spending (200 ∷ [])) refl (omega arith) refl refl
      refl
