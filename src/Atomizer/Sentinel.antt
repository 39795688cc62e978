-- ===== src/Atomizer/Sentinel.antt =====
-- src/uhs/atomizer/sentinel/controller.cpp: the sentinel of the atomizer architecture.
-- `validate_transaction`, `gather_attestations` and `validate_result_handler` are as in the
-- two-phase architecture (Sentinel).
pub mod Sending
mod Examples
use cbdc_forensics.Common.{
  ℕ, zero, suc, ◌+◌, ◌%◌, Bool, true, false, not, List, [], ◌∷◌, ◌++◌, Option, none, some, length,
  get_elem?, get_or, ◌==◌, if◌then◌else◌, member,
}
use cbdc_forensics.Transaction.{FullTx, CompactTx}
use cbdc_forensics.Transaction.Crypto.{Crypto}
use cbdc_forensics.Transaction.Ids.{compact_tx, sign}
use cbdc_forensics.Transaction.Validation.{TxError, check_tx}
use cbdc_forensics.TwoPhase.LockingShard.{hash_in_shard_range}
use cbdc_forensics.Sentinel.{
  TxStatus, pending, static_invalid, ExecuteResponse, Round, Gathered, refused, complete,
  unfinished, insert_attestation, gather_attestations,
}

-- A shard as the sentinel knows it, and whether the connection to it is up.
pub record ShardInfo : Type 0 where
  pub range : ℕ × ℕ
  pub peer_id : ℕ
  pub connected : Bool

-- `hash_in_shard_range(range, ctx.m_inputs[i])`; `none` is a read out of bounds.
unfoldable pub input_in_range : ℕ × ℕ → Option ℕ → Option Bool
unfolding hash_in_shard_range
input_in_range range none = none
input_in_range range (some input) = some (hash_in_shard_range range input)

unfoldable pub branch : {A : Type 0} → Option Bool → Option A → Option A → Option A
branch none mark skip = none
branch (some true) mark skip = mark
branch (some false) mark skip = skip

-- The inner loop over the indices `j` of the inputs, `n` of them left: the indices that are sent
-- then, and whether to send to this shard. The input that is tested is the same for all `j`.
unfoldable pub mark_inputs : Option Bool → ℕ → ℕ → List ℕ → Bool → Option (List ℕ × Bool)
unfolding branch
mark_inputs test zero j inputs_sent should_send = some (inputs_sent, should_send)
mark_inputs test (suc n) j inputs_sent should_send =
    let skip = mark_inputs test n (suc j) inputs_sent should_send in
    let mark = mark_inputs test n (suc j) (j ∷ inputs_sent) true in
    if member j inputs_sent then skip else branch test mark skip

abbrev pub no_shard : ShardInfo
no_shard = record { range = (0, 0); peer_id = 0; connected = false }

unfoldable pub marked :
    Option (List ℕ × Bool) → ℕ → List ℕ → (List ℕ → List ℕ → Option (List ℕ)) → Option (List ℕ)
marked none peer_id peers next = none
marked (some (inputs_sent, should_send)) peer_id peers next =
    next inputs_sent (if should_send then peers ++ (peer_id ∷ []) else peers)

-- The outer loop, with `n` shards left: the peers that the packet was sent to.
unfoldable pub send_from : List ℕ → List ShardInfo → ℕ → ℕ → ℕ → List ℕ → List ℕ → Option (List ℕ)
unfolding input_in_range mark_inputs marked
send_from inputs shards offset zero i inputs_sent peers = some peers
send_from inputs shards offset (suc n) i inputs_sent peers =
    let shard = get_or shards ((i + offset) % length shards) no_shard in
    let test = input_in_range shard.range (get_elem? inputs i) in
    let skip = send_from inputs shards offset n (suc i) inputs_sent peers in
    let send =
      marked (mark_inputs test (length inputs) 0 inputs_sent false) shard.peer_id peers
        (send_from inputs shards offset n (suc i)) in
    if length inputs_sent == length inputs
    then some peers
    else if shard.connected
    then send
    else skip

unfoldable pub send_compact_tx : List ShardInfo → ℕ → CompactTx → Option (List ℕ)
unfolding send_from
send_compact_tx shards offset ctx = send_from ctx.inputs shards offset (length shards) 0 [] []

-- What became of a transaction that is sent.
pub data Delivery : Type 0 where
  -- the attestations were refused, or the transaction is invalid
  dropped : Delivery
  -- not enough attestations yet
  waiting : Delivery
  -- a read out of bounds
  out_of_bounds : Delivery
  delivered : List ℕ → Delivery

unfoldable pub sent_to : Option (List ℕ) → Delivery
sent_to none = out_of_bounds
sent_to (some peers) = delivered peers

unfoldable pub deliver : List ShardInfo → ℕ → Gathered → Delivery
unfolding send_compact_tx sent_to
deliver shards offset refused = dropped
deliver shards offset unfinished = waiting
deliver shards offset (complete ctx) = sent_to (send_compact_tx shards offset ctx)

unfoldable pub send_transaction :
    Crypto → ℕ → ℕ → List ShardInfo → ℕ → FullTx → List Round → Delivery
unfolding insert_attestation gather_attestations deliver
send_transaction c privkey threshold shards offset tx rounds =
    let ctx = compact_tx c tx in
    let attested = insert_attestation (sign c ctx privkey) ctx in
    deliver shards offset (gather_attestations threshold attested [] rounds)

unfoldable pub execute_checked :
    Crypto
    → ℕ
    → ℕ
    → List ShardInfo
    → ℕ
    → FullTx
    → List Round
    → Option TxError
    → ExecuteResponse × Delivery
unfolding send_transaction
execute_checked c privkey threshold shards offset tx rounds (some e) =
    (record { tx_status = static_invalid; tx_error = some e }, dropped)
execute_checked c privkey threshold shards offset tx rounds none = (
  record { tx_status = pending; tx_error = none },
  send_transaction c privkey threshold shards offset tx rounds,
)

-- The response, and what becomes of the transaction. `offset` and the numbers of the rounds are
-- random.
unfoldable pub execute_transaction :
    Crypto → ℕ → ℕ → List ShardInfo → ℕ → FullTx → List Round → ExecuteResponse × Delivery
unfolding execute_checked
execute_transaction c privkey threshold shards offset tx rounds =
    execute_checked c privkey threshold shards offset tx rounds (check_tx c tx)
