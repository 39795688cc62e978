-- ===== src/Atomizer.antt =====
-- src/uhs/atomizer/atomizer/atomizer.cpp: the atomizer collects the attestations of the shards,
-- completes transactions that have one for every input and puts them in blocks. It remembers the
-- outputs spent in the last blocks, so that attestations which are a few blocks old still serve.
pub mod Spent
pub mod Bounds
pub mod Cache
pub mod DoubleSpend
pub mod Leveldb
pub mod Shard
pub mod Archiver
pub mod Replica
pub mod Sentinel
mod Examples
use cbdc_forensics.Common.{
  ℕ, suc, ◌+◌, ◌-◌, ◌%◌, ◌^◌, Bool, true, false, not, ◌&&◌, Option, none, some, List, [], ◌∷◌, ◌++◌,
  map, length, get_or, set, take, replicate, ltb, ◌==◌, if◌then◌else◌, member, emplace, emplace_all,
  Map, find, put, remove, assign,
}
use cbdc_forensics.Transaction.{CompactTx}

-- `watchtower::tx_error`
pub data TxErrorInfo : Type 0 where
  tx_error_sync tx_error_stxo_range tx_error_incomplete : TxErrorInfo
  tx_error_inputs_dne tx_error_inputs_spent : List ℕ → TxErrorInfo

pub record TxError : Type 0 where
  pub tx_id : ℕ
  pub info : TxErrorInfo

pub record Block : Type 0 where
  pub height : ℕ
  pub transactions : List CompactTx

-- A notification: the transaction and the indices of the inputs attested so far.
pub record Notification : Type 0 where
  pub tx : CompactTx
  pub attestations : List ℕ

-- `txs` and `spent` have an entry for every offset from the best height, up to the depth. The maps
-- of `txs` compare transactions by their identifiers.
pub record Atomizer : Type 0 where
  pub txs : List (Map Notification)
  pub complete_txs : List CompactTx
  pub spent : List (List ℕ)
  pub best_height : ℕ
  pub spent_cache_depth : ℕ

unfoldable pub new : ℕ → ℕ → Atomizer
new best_height depth = record {
  txs = replicate (depth + 1) [];
  complete_txs = [];
  spent = replicate (depth + 1) [];
  best_height = best_height;
  spent_cache_depth = depth;
}

-- The difference of two 64-bit numbers wraps around.
unfoldable pub get_notification_offset : ℕ → Atomizer → ℕ
get_notification_offset block_height s = (s.best_height + (2 ^ 64 - block_height)) % 2 ^ 64

abbrev is_empty {ℓ} : {A : Type ℓ} → List A → Bool
is_empty [] = true
is_empty (x ∷ xs) = false

unfoldable pub check_notification_offset : ℕ → CompactTx → Atomizer → Option TxError
check_notification_offset height_offset tx s =
    if ltb s.spent_cache_depth height_offset && not (is_empty tx.inputs)
    then some (record { tx_id = tx.id; info = tx_error_stxo_range })
    else none

-- The inputs that one set of the cache has, added to the errors.
unfoldable pub spent_inputs : List ℕ → List ℕ → List ℕ → List ℕ
spent_inputs cache [] errs = errs
spent_inputs cache (inp ∷ inputs) errs =
    spent_inputs cache inputs (if member inp cache then emplace inp errs else errs)

-- The loop over the offsets from 0.
unfoldable pub collect_spent : List (List ℕ) → List ℕ → List ℕ → List ℕ
unfolding spent_inputs
collect_spent [] inputs errs = errs
collect_spent (cache ∷ caches) inputs errs =
    collect_spent caches inputs (spent_inputs cache inputs errs)

unfoldable pub check_stxo_cache : CompactTx → ℕ → Atomizer → Option TxError
unfolding collect_spent
check_stxo_cache tx cache_check_range s =
    let errs = collect_spent (take (cache_check_range + 1) s.spent) tx.inputs [] in
    if is_empty errs
    then none
    else some (record { tx_id = tx.id; info = tx_error_inputs_spent errs })

unfoldable pub add_tx_to_stxo_cache : CompactTx → Atomizer → Atomizer
add_tx_to_stxo_cache tx s = record s {
  spent = set s.spent 0 (emplace_all tx.inputs (get_or s.spent 0 []));
}

-- An error ends a call that has changed nothing.
unfoldable pub checked :
    Option TxError → Atomizer → Option TxError × Atomizer → Option TxError × Atomizer
checked (some e) s r = (some e, s)
checked none s r = r

unfoldable pub insert_complete : ℕ → CompactTx → Atomizer → Option TxError × Atomizer
unfolding check_notification_offset check_stxo_cache add_tx_to_stxo_cache checked
insert_complete oldest_attestation tx s =
    let height_offset = get_notification_offset oldest_attestation s in
    let s' = add_tx_to_stxo_cache tx s in
    checked (check_notification_offset height_offset tx s) s (
      checked (check_stxo_cache tx height_offset s) s
        (none, record s' { complete_txs = s.complete_txs ++ (tx ∷ []) }))

-- A new notification, or more attestations for one that is known. The transaction that the
-- notification already had is kept.
unfoldable pub notify : CompactTx → List ℕ → Map Notification → Map Notification
notify tx attestations txs = elim (find tx.id txs) [
  | none ↦ put tx.id (record { tx = tx; attestations = attestations }) txs
  | some n ↦ assign tx.id (record n { attestations = emplace_all attestations n.attestations }) txs
]

-- What the loop over the offsets accumulates: all attestations, the oldest offset with one, and the
-- transaction found there.
pub record Gathered : Type 0 where
  pub total_attestations : List ℕ
  pub oldest_attestation : ℕ
  pub oldest_tx : CompactTx

unfoldable pub gather : ℕ → ℕ → List (Map Notification) → Gathered → Gathered
gather id offset [] g = g
gather id offset (txs ∷ rest) g = gather id (suc offset) rest (elim (find id txs) [
  | none ↦ g
  | some n ↦ record {
    total_attestations = emplace_all n.attestations g.total_attestations;
    oldest_attestation = offset;
    oldest_tx = n.tx;
  }
])

-- The transaction has an attestation for each input: it is completed, unless an input was spent. It
-- leaves the maps of all offsets that have it.
unfoldable pub complete_tx : CompactTx → Gathered → Atomizer → Option TxError × Atomizer
unfolding check_stxo_cache add_tx_to_stxo_cache checked
complete_tx tx g s =
    let s' = add_tx_to_stxo_cache tx s in
    checked (check_stxo_cache tx g.oldest_attestation s) s (
      none,
      record s' {
        complete_txs = s.complete_txs ++ (g.oldest_tx ∷ []);
        txs = map (remove tx.id) s.txs;
      },
    )

-- The transaction of the notification, `it->first`.
unfoldable pub notified_tx : CompactTx → Map Notification → CompactTx
notified_tx tx txs = elim (find tx.id txs) [ none ↦ tx | some n ↦ n.tx ]

-- The end of `insert`: nothing more is done while an attestation is missing.
unfoldable pub complete_if_attested : CompactTx → Gathered → Atomizer → Option TxError × Atomizer
unfolding complete_tx
complete_if_attested tx g s =
    if length g.total_attestations == length tx.inputs then complete_tx tx g s else (none, s)

-- `insert` at an offset within the cache.
unfoldable pub insert_at : ℕ → CompactTx → List ℕ → Atomizer → Option TxError × Atomizer
unfolding notify notified_tx gather complete_if_attested
insert_at height_offset tx attestations s =
    let txs = notify tx attestations (get_or s.txs height_offset []) in
    let s' = record s { txs = set s.txs height_offset txs } in
    let it = notified_tx tx txs in
    let g =
      gather tx.id 0 s'.txs
        (record { total_attestations = []; oldest_attestation = 0; oldest_tx = it }) in
    complete_if_attested it g s'

-- No result stands for an access out of the bounds of `m_txs`.
unfoldable pub insert : ℕ → CompactTx → List ℕ → Atomizer → Option (Option TxError × Atomizer)
unfolding get_notification_offset check_notification_offset insert_at
insert block_height tx attestations s =
    let height_offset = get_notification_offset block_height s in
    elim (check_notification_offset height_offset tx s) [
      | some e ↦ some (some e, s)
      | none ↦
          if ltb height_offset (length s.txs)
          then some (insert_at height_offset tx attestations s)
          else none
    ]

unfoldable pub incomplete_errors : Map Notification → List TxError
incomplete_errors [] = []
incomplete_errors ((id, n) ∷ txs) =
    record { tx_id = n.tx.id; info = tx_error_incomplete } ∷ incomplete_errors txs

-- The entries move on by one offset, the oldest is dropped and the newest is empty.
unfoldable pub shift {ℓ} : {A : Type ℓ} → ℕ → List (List A) → List (List A)
shift depth entries = [] ∷ take depth entries

unfoldable pub make_block : Atomizer → (Block × List TxError) × Atomizer
unfolding incomplete_errors shift
make_block s =
    let best_height = (s.best_height + 1) % 2 ^ 64 in
    let errs = incomplete_errors (get_or s.txs s.spent_cache_depth []) in
    let blk : Block = record { height = best_height; transactions = s.complete_txs } in
    let s' = record s {
      complete_txs = [];
      best_height = best_height;
      spent = shift s.spent_cache_depth s.spent;
      txs = shift s.spent_cache_depth s.txs;
    } in
    ((blk, errs), s')

unfoldable pub pending_transactions : Atomizer → ℕ
pending_transactions s = length s.complete_txs

unfoldable pub height : Atomizer → ℕ
height s = s.best_height
