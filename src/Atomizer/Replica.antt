-- ===== src/Atomizer/Replica.antt =====
-- src/uhs/atomizer/atomizer/state_machine.cpp, `commit`: the requests that the atomizers replicate, on
-- the atomizer and the blocks that it made. The buffers hold the requests and the responses.
pub mod Blocks
pub mod Heights
mod Examples
use cbdc_forensics.Common.{
  ℕ, suc, Option, none, some, List, [], ◌∷◌, ◌++◌, ltb, if◌then◌else◌, Map, find, put,
}
use cbdc_forensics.Transaction.{CompactTx}
use cbdc_forensics.Atomizer.{Atomizer, Block, TxError, insert_complete, make_block}
use cbdc_forensics.Atomizer

pub record AggregateTxNotification : Type 0 where
  pub tx : CompactTx
  pub oldest_attestation : ℕ

pub data Request : Type 0 where
  aggregate_tx_notify_request : List AggregateTxNotification → Request
  make_block_request : Request
  get_block_request prune_request : ℕ → Request

pub data Response : Type 0 where
  errors : List TxError → Response
  make_block_response : Block → List TxError → Response
  get_block_response : Block → Response

pub record StateMachine : Type 0 where
  pub last_committed_idx : ℕ
  pub atomizer : Atomizer
  pub blocks : Map Block
  pub tx_notify_count : ℕ

-- Without a snapshot to begin with.
unfoldable pub new : ℕ → StateMachine
unfolding Atomizer.new
new stxo_cache_depth = record {
  last_committed_idx = 0;
  atomizer = Atomizer.new 0 stxo_cache_depth;
  blocks = [];
  tx_notify_count = 0;
}

-- The loop over the transactions, with the errors so far.
unfoldable pub insert_all :
    List AggregateTxNotification → List TxError → StateMachine → List TxError × StateMachine
unfolding insert_complete
insert_all [] errs m = (errs, m)
insert_all (msg ∷ msgs) errs m =
    let (err, a) = insert_complete msg.oldest_attestation msg.tx m.atomizer in
    insert_all msgs (elim err [ none ↦ errs | some e ↦ errs ++ (e ∷ []) ])
      (record m { atomizer = a; tx_notify_count = suc m.tx_notify_count })

unfoldable pub errors_response : List TxError → Option Response
errors_response [] = none
errors_response (e ∷ errs) = some (errors (e ∷ errs))

-- The loop of `prune_request`.
unfoldable pub prune : ℕ → Map Block → Map Block
prune height [] = []
prune height ((h, blk) ∷ blocks) =
    let rest = prune height blocks in if ltb blk.height height then rest else (h, blk) ∷ rest

unfoldable pub found_response : Option Block → Option Response
found_response none = none
found_response (some blk) = some (get_block_response blk)

-- The visitor: what a request answers, if anything.
unfoldable pub apply_request : Request → StateMachine → Option Response × StateMachine
unfolding insert_all errors_response make_block found_response prune
apply_request (aggregate_tx_notify_request msgs) m =
    let (errs, m') = insert_all msgs [] m in (errors_response errs, m')
apply_request make_block_request m =
    let ((blk, errs), a) = make_block m.atomizer in
    (
      some (make_block_response blk errs),
      record m { atomizer = a; blocks = put blk.height blk m.blocks },
    )
apply_request (get_block_request height) m = (found_response (find height m.blocks), m)
apply_request (prune_request height) m = (none, record m { blocks = prune height m.blocks })

unfoldable pub commit : ℕ → Request → StateMachine → Option Response × StateMachine
unfolding apply_request
commit log_idx req m = apply_request req (record m { last_committed_idx = log_idx })

unfoldable pub commit_config : ℕ → StateMachine → StateMachine
commit_config log_idx m = record m { last_committed_idx = log_idx }
