-- ===== src/Client/Examples.antt =====
-- Tests of the client, and the theorem at a concrete input.
use cbdc_forensics.Common.{◌≡◌, refl, true, [], ◌∷◌, none, some, arith, find, member, ◌++◌}
use cbdc_forensics.Util.Serialization.Bytes.{le_bytes}
use cbdc_forensics.Util.Serialization.{encode_vector, encode_items}
use cbdc_forensics.Transaction.{Input, FullTx}
use cbdc_forensics.Transaction.Toy.{toy}
use cbdc_forensics.Transaction.Messages.{encode_input, encode_out_point, encode_output}
use cbdc_forensics.Transaction.Ids.{tx_id}
use cbdc_forensics.Transaction.Validation.{get_p2pk_witness_commitment}
use cbdc_forensics.Transaction.Wallet.{Wallet, balance}
use cbdc_forensics.Transaction.Wallet.Spend.{send_to}
use cbdc_forensics.Transaction.Wallet.Funds.{IsReady}
use cbdc_forensics.Client.{Client, create_transaction, send, abandon_transaction, check_pending}
use cbdc_forensics.Client.Restore.{abandon_transaction-send}

abbrev coin : Input
coin = record {
  prevout = record { tx_id = 9; index = 0 };
  prevout_data = record { witness_program_commitment = 3; value = 10 };
}

-- One coin of ten, which is paid whole.
abbrev holder : Wallet
holder = record {
  balance = 10;
  utxos_set = coin ∷ [];
  seed_from = 0;
  seed_to = 0;
  seed_value = 0;
  seed_witness_commitment = 0;
  spend_queue = coin ∷ [];
  keys = (3, 3) ∷ [];
  pubkeys = 3 ∷ [];
  witness_programs = (3, 3) ∷ [];
}

holder-IsReady : IsReady holder
holder-IsReady = (
  record { same = refl; distinct = (tt, tt); values = (omega arith, tt); total = refl },
  (omega arith, omega arith),
)

abbrev client : Client
client = record { wallet = holder; pending_txs = []; pending_spend = []; pending_inputs = [] }

abbrev payment : FullTx
payment = record {
  inputs = coin ∷ [];
  outputs = record { witness_program_commitment = 77; value = 10 } ∷ [];
  witness = (0 ∷ (le_bytes 32 3 ++ le_bytes 64 114)) ∷ [];
}

payment_created :
    (create_transaction toy 10 77 (record { index = 0; seckey = 5 }) client).0 ≡ some (some payment)
unfolding create_transaction send_to encode_vector encode_items encode_input encode_out_point
    encode_output le_bytes tx_id get_p2pk_witness_commitment find
payment_created = refl

-- A payment that the sentinel did not answer.
abandon_transaction-send_example :
    let sent = (send toy 10 77 (record { index = 0; seckey = 5 }) none client).1 in
    let (success, after) = abandon_transaction toy (tx_id toy payment) sent in
    (success ≡ true) × (balance after.wallet ≡ balance holder) × (after.pending_txs ≡ [])
unfolding member find check_pending
abandon_transaction-send_example =
    abandon_transaction-send toy 10 77 (record { index = 0; seckey = 5 }) none client payment
      holder-IsReady refl (omega arith) payment_created tt (refl, tt) refl (refl, tt)
