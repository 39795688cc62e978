-- ===== src/Atomizer/Shard.antt =====
-- src/uhs/atomizer/shard/shard.cpp: a shard keeps the unspent outputs of its range in a database, digests
-- the blocks of the atomizer and attests the inputs of transactions as of its last snapshot.
pub mod Refine
pub mod Run
pub mod Attest
mod Examples
use cbdc_forensics.Common.{
  ℕ, suc, ◌+◌, ◌%◌, ◌^◌, Bool, true, false, not, ◌&&◌, Option, none, some, List, [], ◌∷◌, ◌++◌,
  ◌==◌, if◌then◌else◌,
}
use cbdc_forensics.Util.Serialization.Bytes.{le_bytes, from_le}
use cbdc_forensics.Transaction.{CompactTx}
use cbdc_forensics.TwoPhase.LockingShard.{hash_in_shard_range}
use cbdc_forensics.Atomizer.{Block, TxError, tx_error_sync, tx_error_inputs_dne}
use cbdc_forensics.Atomizer.Leveldb.{
  Leveldb, Update, put_, delete_, best_block_height_key, output_key,
}

-- `atomizer::tx_notify_request`: the indices of the inputs that are attested.
pub record TxNotifyRequest : Type 0 where
  pub tx : CompactTx
  pub attestations : List ℕ
  pub block_height : ℕ

-- The `std::variant` that `digest_transaction` returns.
pub data Answer : Type 0 where
  notify_request : TxNotifyRequest → Answer
  tx_error : TxError → Answer

-- The state of the loop over the inputs: the attestations and the inputs that do not exist.
pub record Checked : Type 0 where
  pub attestations : List ℕ
  pub dne_inputs : List ℕ

unfoldable pub check_input : ℕ → ℕ → Option (List ℕ) → Checked → Checked
check_input i inp none k = record k { dne_inputs = k.dne_inputs ++ (inp ∷ []) }
check_input i inp (some value) k = record k { attestations = k.attestations ++ (i ∷ []) }

module _ (l : Leveldb) where
  pub record Shard : Type 0 where
    pub db : l.Db
    pub best_block_height : ℕ
    pub snp : l.Snapshot
    pub snp_height : ℕ
    pub prefix_range : ℕ × ℕ

  abbrev pub is_output_on_shard : ℕ → Shard → Bool
  is_output_on_shard uhs_hash s = hash_in_shard_range s.prefix_range uhs_hash

  unfoldable pub update_snapshot : Shard → Shard
  update_snapshot s = record s { snp_height = s.best_block_height; snp = l.get_snapshot s.db }

  -- The rest of `open_db`, when the key of the height has a value or has none.
  unfoldable pub read_height : ℕ × ℕ → l.Db → Option (List ℕ) → Shard
  unfolding update_snapshot
  read_height range db none =
      let db' = l.write (put_ best_block_height_key (le_bytes 8 0) ∷ []) db in
      update_snapshot (record {
        db = db';
        best_block_height = 0;
        snp = l.get_snapshot db';
        snp_height = 0;
        prefix_range = range;
      })
  read_height range db (some bytes) = update_snapshot (record {
    db = db;
    best_block_height = from_le bytes;
    snp = l.get_snapshot db;
    snp_height = 0;
    prefix_range = range;
  })

  -- `open_db` of a new shard, when LevelDB opens the directory with `db` in it.
  unfoldable pub open_db : ℕ × ℕ → l.Db → Shard
  unfolding read_height
  open_db range db = read_height range db (l.get best_block_height_key db)

  -- The two inner loops of `digest_block`.
  unfoldable pub put_outputs : List ℕ → Shard → List Update
  put_outputs [] s = []
  put_outputs (out ∷ outs) s =
      let rest = put_outputs outs s in
      if is_output_on_shard out s then put_ (output_key out) [] ∷ rest else rest

  unfoldable pub delete_inputs : List ℕ → Shard → List Update
  delete_inputs [] s = []
  delete_inputs (inp ∷ inps) s =
      let rest = delete_inputs inps s in
      if is_output_on_shard inp s then delete_ (output_key inp) ∷ rest else rest

  unfoldable pub batch_of : List CompactTx → Shard → List Update
  unfolding put_outputs delete_inputs
  batch_of [] s = []
  batch_of (tx ∷ txs) s =
      put_outputs tx.uhs_outputs s ++ (delete_inputs tx.inputs s ++ batch_of txs s)

  unfoldable pub digest_block : Block → Shard → Bool × Shard
  unfolding batch_of update_snapshot
  digest_block blk s =
      let height = (s.best_block_height + 1) % 2 ^ 64 in
      let batch =
        batch_of blk.transactions s ++ (put_ best_block_height_key (le_bytes 8 height) ∷ []) in
      if blk.height == height
      then (
        true,
        update_snapshot (record s { best_block_height = height; db = l.write batch s.db }),
      )
      else (false, s)

  -- The loop from index `i`.
  unfoldable pub check_inputs : ℕ → List ℕ → Shard → Checked → Checked
  unfolding check_input
  check_inputs i [] s k = k
  check_inputs i (inp ∷ inps) s k = check_inputs (suc i) inps s (
      if is_output_on_shard inp s then check_input i inp (l.get_at (output_key inp) s.snp) k else k)

  -- After the loop.
  unfoldable pub answer : CompactTx → Shard → List ℕ → List ℕ → Answer
  answer tx s atts [] =
      notify_request (record { tx = tx; attestations = atts; block_height = s.snp_height })
  answer tx s atts (inp ∷ dne) =
      tx_error (record { tx_id = tx.id; info = tx_error_inputs_dne (inp ∷ dne) })

  unfoldable pub digest_inputs : CompactTx → List ℕ → Shard → Answer
  unfolding check_inputs answer
  digest_inputs tx [] s = tx_error (record { tx_id = tx.id; info = tx_error_inputs_dne [] })
  digest_inputs tx (inp ∷ inps) s =
      let k = check_inputs 0 (inp ∷ inps) s (record { attestations = []; dne_inputs = [] }) in
      answer tx s k.attestations k.dne_inputs

  unfoldable pub digest_transaction : CompactTx → Shard → Answer
  unfolding digest_inputs
  digest_transaction tx s =
      if s.snp_height == 0
      then tx_error (record { tx_id = tx.id; info = tx_error_sync })
      else digest_inputs tx tx.inputs s
