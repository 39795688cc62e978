-- ===== src/Atomizer/Replica/Examples.antt =====
-- Tests of the replicated state machine of the atomizers, and the theorems at concrete inputs.
use cbdc_forensics.Common.{◌≡◌, refl, none, some, [], ◌∷◌, arith, find, put, member}
use cbdc_forensics.Transaction.{CompactTx}
use cbdc_forensics.Atomizer.{make_block, get_notification_offset}
use cbdc_forensics.Atomizer.Replica.{
  StateMachine, new, commit, aggregate_tx_notify_request, make_block_request, get_block_request,
  prune_request, make_block_response, get_block_response,
}
use cbdc_forensics.Atomizer.Replica.Blocks.{Spares, commit_all, commit-get_block}

abbrev machine : StateMachine
machine = new 2

abbrev spending : CompactTx
spending = record { id = 4; inputs = 10 ∷ []; uhs_outputs = 11 ∷ []; attestations = [] }

abbrev with_block : StateMachine
with_block =
    commit_all 1
      (aggregate_tx_notify_request (record { tx = spending; oldest_attestation = 0 } ∷ [])
        ∷ make_block_request
        ∷ [])
      machine

first_block :
    (commit 3 (get_block_request 1) with_block).0
    ≡ some (get_block_response (record { height = 1; transactions = spending ∷ [] }))
unfolding commit commit_all new find put get_notification_offset member
first_block = refl

pruned : (commit 4 (get_block_request 1) (commit 3 (prune_request 2) with_block).1).0 ≡ none
unfolding commit commit_all new find put get_notification_offset member
pruned = refl

commit-get_block_example :
    let ((blk, errs), a) = make_block machine.atomizer in
    let m' =
      commit_all 2
        (prune_request 1 ∷ make_block_request ∷ [])
        (commit 1 make_block_request machine).1 in
    ((commit 1 make_block_request machine).0 ≡ some (make_block_response blk errs))
    × ((commit 4 (get_block_request blk.height) m').0 ≡ some (get_block_response blk))
unfolding new make_block Spares find
commit-get_block_example =
    commit-get_block 1 2 4 machine (prune_request 1 ∷ make_block_request ∷ []) (λ h lt. refl)
      (omega arith) (omega arith, (tt, tt))
