-- ===== src/Client/Restore.antt =====
-- src/uhs/client/client.cpp: a payment that was sent without success and is abandoned.
use cbdc_forensics.Common.{
  ℕ, ◌^◌, ◌<◌, ◌≡◌, ◌≢◌, refl, ap, ◌∙◌, inl, inr, true, false, [], ◌∷◌, Option, none, some, map,
  arith, ◌==◌, Bool-cases, All, Map, find, put, remove, find-put, IsDistinct,
}
use cbdc_forensics.Transaction.{FullTx}
use cbdc_forensics.Transaction.Crypto.{Crypto}
use cbdc_forensics.Transaction.Ids.{tx_id, input_hash}
use cbdc_forensics.Transaction.Wallet.{Draw, balance}
use cbdc_forensics.Transaction.Wallet.Spend.{send_to}
use cbdc_forensics.Transaction.Wallet.Funds.{IsReady, funds}
use cbdc_forensics.Transaction.Wallet.Refund.{Spends, send_to-Spends, Spends-balance}
use cbdc_forensics.Sentinel.{
  TxStatus, pending, static_invalid, state_invalid, confirmed, ExecuteResponse,
}
use cbdc_forensics.Client.{
  Client, check_pending, import_transaction, register_pending_tx, registered, create_transaction,
  executed_with, executed, send_transaction, answered, send_created, send, put_inputs,
  abandon_transaction,
}
use cbdc_forensics.Client.Abandon.{abandon_transaction_lem, put_inputs-IsHeld}

remove-put : {V : Type 0} (k : ℕ) (v : V) (m : Map V) → find k m ≡ none → remove k (put k v m) ≡ m
unfolding find put remove
remove-put k v [] new = ground arith
remove-put k v ((j, w) ∷ m) new = elim (Bool-cases (k == j)) [
  | inl same ↦ let bad : some w ≡ none = rw same at new in cc
  | inr other ↦ rw (other, other) (ap (λ t. (j, w) ∷ t) (remove-put k v m (rw other at new)))
]

-- The sentinel did not answer that the transaction is confirmed.
abbrev pub IsUnconfirmed : Option ExecuteResponse → Type 0
IsUnconfirmed none = Unit {0}
IsUnconfirmed (some r) = r.tx_status ≢ confirmed

module _ (c : Crypto) where
  executed_with_unconfirmed :
      (status : TxStatus) (id : ℕ) (cl : Client)
      → status ≢ confirmed
      → executed_with c status id cl ≡ cl
  unfolding executed_with
  executed_with_unconfirmed confirmed id cl h = absurd (h refl)
  executed_with_unconfirmed pending id cl h = refl
  executed_with_unconfirmed static_invalid id cl h = refl
  executed_with_unconfirmed state_invalid id cl h = refl

  executed_unconfirmed :
      (res : Option ExecuteResponse) (id : ℕ) (cl : Client)
      → IsUnconfirmed res
      → executed c id res cl ≡ cl
  unfolding executed
  executed_unconfirmed none id cl h = refl
  executed_unconfirmed (some r) id cl h = executed_with_unconfirmed r.tx_status id cl h

  answered_client :
      (tx : FullTx) (res : Option ExecuteResponse) (cl : Client) → (answered c tx (res, cl)).1 ≡ cl
  unfolding answered
  answered_client tx none cl = refl
  answered_client tx (some r) cl = refl

  registered_tx :
      (o : Option (Option FullTx)) (tx : FullTx) (cl : Client)
      → (registered c o cl).0 ≡ some (some tx)
      → o ≡ some (some tx)
  unfolding registered
  registered_tx none tx cl e = e
  registered_tx (some none) tx cl e = e
  registered_tx (some (some t)) tx cl e = e

  -- The client after `send`.
  send_client :
      (value payee : ℕ) (draw : Draw) (res : Option ExecuteResponse) (cl : Client) (tx : FullTx)
      → (send_to c value payee true draw cl.wallet).0 ≡ some (some tx)
      → IsUnconfirmed res
      → (send c value payee draw res cl).1 ≡ record cl {
        wallet = (send_to c value payee true draw cl.wallet).1;
        pending_spend = put_inputs c tx.inputs cl.pending_spend;
        pending_txs = put (tx_id c tx) tx cl.pending_txs;
      }
  unfolding send create_transaction send_created registered register_pending_tx send_transaction
      import_transaction
  send_client value payee draw res cl tx e un =
      let v = (send_to c value payee true draw cl.wallet).1 in
      ap (λ o. (send_created c res (registered c o (record cl { wallet = v }))).1) e
      ∙ answered_client tx res _
      ∙ executed_unconfirmed res (tx_id c tx) _ un

  -- A client whose wallet is ready, has no seeds and holds less than 2^64 sends a payment, which
  -- the sentinel does not confirm. When the inputs have distinct hashes and are in no pending
  -- transaction, and the payment was not pending before, then abandoning it succeeds, and leaves
  -- the balance and the pending transactions as they were before the payment.
  pub abandon_transaction-send :
      (value payee : ℕ) (draw : Draw) (res : Option ExecuteResponse) (cl : Client) (tx : FullTx)
      → IsReady cl.wallet
      → cl.wallet.seed_from ≡ cl.wallet.seed_to
      → funds cl.wallet < 2 ^ 64
      → (create_transaction c value payee draw cl).0 ≡ some (some tx)
      → IsUnconfirmed res
      → IsDistinct (map (input_hash c) tx.inputs)
      → find (tx_id c tx) cl.pending_txs ≡ none
      → All (λ inp. check_pending inp cl.pending_txs ≡ false) tx.inputs
      → let (success, cl') =
          abandon_transaction c (tx_id c tx) (send c value payee draw res cl).1 in
        (success ≡ true)
        × (balance cl'.wallet ≡ balance cl.wallet)
        × (cl'.pending_txs ≡ cl.pending_txs)
  unfolding create_transaction
  abandon_transaction-send value payee draw res cl tx ready no_seeds fits made un distinct new
        free =
      let paid : (send_to c value payee true draw cl.wallet).0 ≡ some (some tx) =
        registered_tx _ tx _ made in
      let v = (send_to c value payee true draw cl.wallet).1 in
      let id = tx_id c tx in
      let sent : Client = record cl {
        wallet = v;
        pending_spend = put_inputs c tx.inputs cl.pending_spend;
        pending_txs = put id tx cl.pending_txs;
      } in
      let gone : remove id (put id tx cl.pending_txs) ≡ cl.pending_txs =
        remove-put id tx cl.pending_txs new in
      let self : (id == id) ≡ true = ground arith in
      let there : find id sent.pending_txs ≡ some tx =
        ground (arith, find-put id id tx cl.pending_txs, self, new) in
      let abandoned =
        abandon_transaction_lem c id tx sent there (put_inputs-IsHeld c tx.inputs cl.pending_spend)
          distinct (rw gone free) in
      let spends : Spends c cl.wallet v tx =
        send_to-Spends c value payee true draw cl.wallet tx ready no_seeds fits paid in
      rw (send_client value payee draw res cl tx paid un, abandoned)
        (refl, Spends-balance c cl.wallet v tx ready no_seeds spends, gone)
