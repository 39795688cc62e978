-- ===== src/TwoPhase/Sentinel.antt =====
-- src/uhs/twophase/sentinel_2pc/controller.cpp: the sentinel of the two-phase architecture. The
-- random numbers, the remote sentinels and the coordinator are lists of what they do.
pub mod Attested
mod Examples
use cbdc_forensics.Common.{
  ℕ, Bool, true, false, List, [], ◌∷◌, Option, none, some, ltb, if◌then◌else◌,
}
use cbdc_forensics.Transaction.{FullTx, CompactTx}
use cbdc_forensics.Transaction.Crypto.{Crypto}
use cbdc_forensics.Transaction.Ids.{compact_tx, sign}
use cbdc_forensics.Transaction.Validation.{TxError, check_tx}
use cbdc_forensics.Sentinel.{
  TxStatus, static_invalid, state_invalid, confirmed, ExecuteResponse, Round, Gathered, refused,
  complete, unfinished, insert_attestation, gather_attestations,
}

-- What became of a call of `execute_transaction`.
pub data Execution : Type 0 where
  -- the callback was called
  answered : Option ExecuteResponse → Execution
  -- the coordinator has taken the compact transaction
  forwarded : CompactTx → Execution
  running : Execution

-- The callback that the coordinator calls when the dtx is over.
unfoldable pub result_handler : Option Bool → Option ExecuteResponse
result_handler none = none
result_handler (some true) = some (record { tx_status = confirmed; tx_error = none })
result_handler (some false) = some (record { tx_status = state_invalid; tx_error = none })

-- The loop until the coordinator takes the transaction: whether it takes it at each call.
unfoldable pub send_compact_tx : CompactTx → List Bool → Execution
send_compact_tx ctx [] = running
send_compact_tx ctx (true ∷ calls) = forwarded ctx
send_compact_tx ctx (false ∷ calls) = send_compact_tx ctx calls

unfoldable pub forward : List Bool → Gathered → Execution
unfolding send_compact_tx
forward calls refused = answered none
forward calls (complete ctx) = send_compact_tx ctx calls
forward calls unfinished = running

-- `compact_tx` with the sentinel's own attestation, if any is wanted.
unfoldable pub own_attestation : Crypto → ℕ → ℕ → FullTx → CompactTx
unfolding insert_attestation
own_attestation c privkey threshold tx =
    let ctx = compact_tx c tx in
    if ltb 0 threshold then insert_attestation (sign c ctx privkey) ctx else ctx

unfoldable pub execute_checked :
    Crypto → ℕ → ℕ → FullTx → List Round → List Bool → Option TxError → Execution
unfolding own_attestation gather_attestations forward
execute_checked c privkey threshold tx rounds calls (some e) =
    answered (some (record { tx_status = static_invalid; tx_error = some e }))
execute_checked c privkey threshold tx rounds calls none =
    forward calls (gather_attestations threshold (own_attestation c privkey threshold tx) [] rounds)

unfoldable pub execute_transaction : Crypto → ℕ → ℕ → FullTx → List Round → List Bool → Execution
unfolding execute_checked
execute_transaction c privkey threshold tx rounds calls =
    execute_checked c privkey threshold tx rounds calls (check_tx c tx)
