-- ===== src/Client.antt =====
-- src/uhs/client/client.cpp and twophase_client.cpp: the pending transactions and inputs of a client,
-- on its wallet. `save` writes the state to files, which are left out; so is `init`, which reads them.
pub mod Abandon
pub mod Restore
mod Examples
use cbdc_forensics.Common.{
  ℕ, Bool, true, false, not, ◌&&◌, ◌||◌, List, [], ◌∷◌, Option, none, some, map, ◌==◌,
  if◌then◌else◌, Map, find, put, remove,
}
use cbdc_forensics.Transaction.{Output, Input, FullTx, CompactTx}
use cbdc_forensics.Transaction.Crypto.{Crypto}
use cbdc_forensics.Transaction.Ids.{tx_id, input_hash, compact_tx}
use cbdc_forensics.Transaction.Ids.Attestation.{attest}
use cbdc_forensics.Transaction.Validation.{out_point_eq}
use cbdc_forensics.Transaction.Wallet.{
  Wallet, Draw, is_spendable, mint_new_coins, generate_key, confirm_inputs,
  confirm_transaction as confirm_in_wallet,
}
use cbdc_forensics.Transaction.Wallet.Spend
use cbdc_forensics.Sentinel.{
  TxStatus, pending, static_invalid, state_invalid, confirmed, ExecuteResponse,
}

pub record Client : Type 0 where
  pub wallet : Wallet
  -- by their identifiers
  pub pending_txs : Map FullTx
  -- by the hashes of the inputs
  pub pending_spend : Map Input
  -- by the identifier of the transaction that creates the output
  pub pending_inputs : Map Input

-- `input::operator==`
unfoldable pub input_eq : Input → Input → Bool
input_eq a b =
    out_point_eq a.prevout b.prevout
    && (a.prevout_data.witness_program_commitment == b.prevout_data.witness_program_commitment
        && a.prevout_data.value == b.prevout_data.value)

unfoldable pub has_input : Input → List Input → Bool
unfolding input_eq
has_input inp [] = false
has_input inp (x ∷ inps) = if input_eq x inp then true else has_input inp inps

unfoldable pub check_pending : Input → Map FullTx → Bool
unfolding has_input
check_pending inp [] = false
check_pending inp ((id, tx) ∷ txs) = if has_input inp tx.inputs then true else check_pending inp txs

unfoldable pub is_some {ℓ} : {A : Type ℓ} → Option A → Bool
is_some none = false
is_some (some a) = true

module _ (c : Crypto) where
  unfoldable pub import_transaction : FullTx → Client → Client
  import_transaction tx cl = record cl { pending_txs = put (tx_id c tx) tx cl.pending_txs }

  -- The loop of `register_pending_tx`.
  unfoldable pub put_inputs : List Input → Map Input → Map Input
  put_inputs [] m = m
  put_inputs (inp ∷ inps) m = put_inputs inps (put (input_hash c inp) inp m)

  unfoldable pub register_pending_tx : FullTx → Client → Client
  unfolding put_inputs
  register_pending_tx tx cl = record cl { pending_spend = put_inputs tx.inputs cl.pending_spend }

  -- What the wallet made; the outer absence of a result is the exception of `sign`.
  unfoldable pub registered : Option (Option FullTx) → Client → Option (Option FullTx) × Client
  unfolding register_pending_tx
  registered none cl = (none, cl)
  registered (some none) cl = (some none, cl)
  registered (some (some tx)) cl = (some (some tx), register_pending_tx tx cl)

  unfoldable pub create_transaction : ℕ → ℕ → Draw → Client → Option (Option FullTx) × Client
  unfolding registered
  create_transaction value payee draw cl =
      let (tx, wallet) = Spend.send_to c value payee true draw cl.wallet in
      registered tx (record cl { wallet = wallet })

  -- The loop of `confirm_transaction`.
  unfoldable pub erase_inputs : List Input → Map Input → Map Input
  erase_inputs [] m = m
  erase_inputs (inp ∷ inps) m = erase_inputs inps (remove (input_hash c inp) m)

  unfoldable pub confirm_pending_tx : ℕ → Option FullTx → Client → Bool × Client
  unfolding erase_inputs
  confirm_pending_tx id none cl = (false, cl)
  confirm_pending_tx id (some tx) cl = (
    true,
    record cl {
      wallet = confirm_in_wallet c tx cl.wallet;
      pending_spend = erase_inputs tx.inputs cl.pending_spend;
      pending_txs = remove id cl.pending_txs;
    },
  )

  unfoldable pub confirm_pending_input : ℕ → Option Input → Bool × Client → Bool × Client
  confirm_pending_input id none (success, cl) = (success, cl)
  confirm_pending_input id (some inp) (success, cl) = (
    true,
    record cl {
      wallet = confirm_inputs (inp ∷ []) cl.wallet;
      pending_inputs = remove id cl.pending_inputs;
    },
  )

  unfoldable pub confirm_transaction : ℕ → Client → Bool × Client
  unfolding confirm_pending_tx confirm_pending_input
  confirm_transaction id cl =
      let (success, cl') = confirm_pending_tx id (find id cl.pending_txs) cl in
      confirm_pending_input id (find id cl'.pending_inputs) (success, cl')

  unfoldable pub executed_with : TxStatus → ℕ → Client → Client
  unfolding confirm_transaction
  executed_with confirmed id cl = (confirm_transaction id cl).1
  executed_with pending id cl = cl
  executed_with static_invalid id cl = cl
  executed_with state_invalid id cl = cl

  unfoldable pub executed : ℕ → Option ExecuteResponse → Client → Client
  unfolding executed_with
  executed id none cl = cl
  executed id (some r) cl = executed_with r.tx_status id cl

  -- With what the sentinel answers, if it does.
  unfoldable pub send_transaction :
      FullTx → Option ExecuteResponse → Client → Option ExecuteResponse × Client
  unfolding import_transaction executed
  send_transaction tx res cl = (res, executed (tx_id c tx) res (import_transaction tx cl))

  unfoldable pub answered :
      FullTx → Option ExecuteResponse × Client → (Option FullTx × Option ExecuteResponse) × Client
  answered tx (none, cl) = ((none, none), cl)
  answered tx (some r, cl) = ((some tx, some r), cl)

  -- The part of `send` and `fan` after the transaction is created; no result is the exception.
  unfoldable pub send_created :
      Option ExecuteResponse
      → Option (Option FullTx) × Client
      → Option (Option FullTx × Option ExecuteResponse) × Client
  unfolding send_transaction answered
  send_created res (none, cl) = (none, cl)
  send_created res (some none, cl) = (some (none, none), cl)
  send_created res (some (some tx), cl) =
      let (r, cl') = answered tx (send_transaction tx res cl) in (some r, cl')

  unfoldable pub send :
      ℕ
      → ℕ
      → Draw
      → Option ExecuteResponse
      → Client
      → Option (Option FullTx × Option ExecuteResponse) × Client
  unfolding send_created create_transaction
  send value payee draw res cl = send_created res (create_transaction value payee draw cl)

  unfoldable pub fan :
      ℕ
      → ℕ
      → ℕ
      → Draw
      → Option ExecuteResponse
      → Client
      → Option (Option FullTx × Option ExecuteResponse) × Client
  unfolding send_created registered
  fan output_count value payee draw res cl =
      let (tx, wallet) = Spend.fan c output_count value payee true draw cl.wallet in
      send_created res (registered tx (record cl { wallet = wallet }))

  -- `send_mint_tx` of the two-phase client confirms the transaction in its callback, if the
  -- coordinator completes it.
  unfoldable pub mint : List Draw → ℕ → Bool → Client → FullTx × Client
  unfolding import_transaction confirm_transaction
  mint draws output_val completed cl =
      let (tx, wallet) = mint_new_coins c draws output_val cl.wallet in
      let cl' = import_transaction tx (record cl { wallet = wallet }) in
      (tx, if completed then (confirm_transaction (tx_id c tx) cl').1 else cl')

  -- What `send_mint_tx` sends to the coordinator, with a private key for each attestation.
  unfoldable pub attested_mint : List ℕ → CompactTx → CompactTx
  unfolding attest
  attested_mint [] ctx = ctx
  attested_mint (key ∷ keys) ctx = attested_mint keys (attest c ctx key)

  unfoldable pub import_send_input : Input → Client → Client
  import_send_input inp cl =
      if is_spendable inp cl.wallet
      then record cl { pending_inputs = put inp.prevout.tx_id inp cl.pending_inputs }
      else cl

  unfoldable pub new_address : Draw → Client → ℕ × Client
  new_address draw cl =
      let (addr, wallet) = generate_key c draw cl.wallet in (addr, record cl { wallet = wallet })

  -- The loop of `abandon_transaction`.
  unfoldable pub release_inputs : List Input → Client → Client
  unfolding check_pending is_some
  release_inputs [] cl = cl
  release_inputs (inp ∷ inps) cl = release_inputs inps (
      if is_some (find (input_hash c inp) cl.pending_spend)
        && not (check_pending inp cl.pending_txs)
      then record cl {
        pending_spend = remove (input_hash c inp) cl.pending_spend;
        wallet = confirm_inputs (inp ∷ []) cl.wallet;
      }
      else cl)

  unfoldable pub abandon_pending : ℕ → Option FullTx → Client → Bool × Client
  unfolding release_inputs
  abandon_pending id none cl = (false, cl)
  abandon_pending id (some tx) cl =
      (true, release_inputs tx.inputs (record cl { pending_txs = remove id cl.pending_txs }))

  unfoldable pub abandon_transaction : ℕ → Client → Bool × Client
  unfolding abandon_pending
  abandon_transaction id cl = abandon_pending id (find id cl.pending_txs) cl

  unfoldable pub synced : ℕ → Option Bool → Client → Bool × Client
  unfolding confirm_transaction
  synced id none cl = (false, cl)
  synced id (some true) cl = (true, (confirm_transaction id cl).1)
  synced id (some false) cl = (true, cl)

  -- `sync` of the two-phase client, over the identifiers of what is pending, in their order in the
  -- set: whether all shards answer. `status` is what `check_tx_id` answers.
  unfoldable pub sync : List ℕ → (ℕ → Option Bool) → Client → Bool × Client
  unfolding synced
  sync [] status cl = (true, cl)
  sync (id ∷ txids) status cl =
      let (ok, cl') = synced id (status id) cl in
      let (rest, cl'') = sync txids status cl' in (ok && rest, cl'')
