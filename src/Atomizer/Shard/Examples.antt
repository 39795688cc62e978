-- ===== src/Atomizer/Shard/Examples.antt =====
-- Tests of the shard, and the theorems at concrete inputs.
use cbdc_forensics.Common.{ℕ, ◌≡◌, ◌⊎◌, refl, Option, none, List, [], ◌∷◌, if◌then◌else◌}
use cbdc_forensics.Util.Serialization.Bytes.{le_bytes, from_le}
use cbdc_forensics.Transaction.{CompactTx}
use cbdc_forensics.TwoPhase.LockingShard.{hash_in_shard_range}
use cbdc_forensics.Atomizer.{Block}
use cbdc_forensics.Atomizer.Leveldb.{Leveldb, IsStore, Key, updated}
use cbdc_forensics.Atomizer.Shard.{Shard, open_db, digest_block, digest_transaction, notify_request}
use cbdc_forensics.Atomizer.Shard.Refine.{Represents, after_txs}
use cbdc_forensics.Atomizer.Shard.Run.{opened, digested, reopened, empty_set, Run-Represents}
use cbdc_forensics.Atomizer.Shard.Attest.{IsAttestable, Attests, Refuses, digest_transaction_lem}

-- A database is the function from its keys to its values.
abbrev store : Leveldb
store = record {
  Db = Key → Option (List ℕ);
  Snapshot = Key → Option (List ℕ);
  write = λ us db k. updated k us (db k);
  get_snapshot = λ db. db;
  get = λ k db. db k;
  get_at = λ k snp. snp k;
}

store-IsStore : IsStore store
store-IsStore = record { get-write = λ k us db. refl; get_at-get_snapshot = λ k db. refl }

abbrev no_data : Key → Option (List ℕ)
no_data k = none

-- A transaction that creates the outputs 5 and 300, and one that spends 5.
abbrev creates : CompactTx
creates = record { id = 1; inputs = 7 ∷ []; uhs_outputs = 5 ∷ 300 ∷ []; attestations = [] }

abbrev spends : CompactTx
spends = record { id = 2; inputs = 5 ∷ []; uhs_outputs = 6 ∷ []; attestations = [] }

abbrev block_of : ℕ → CompactTx → Block
block_of h tx = record { height = h; transactions = tx ∷ [] }

-- The shard of the identifiers whose first byte is at most 40: the byte of 300 is 44.
abbrev new_shard : Shard store
new_shard = open_db store (0, 40) no_data

abbrev one_block : Shard store
one_block = (digest_block store (block_of 1 creates) new_shard).1

one_block-Represents : Represents store one_block (after_txs (creates ∷ []) (empty_set store))
unfolding open_db digest_block le_bytes from_le
one_block-Represents =
    Run-Represents store store-IsStore (0, 40) no_data one_block _ (λ k. refl)
      (digested new_shard (empty_set store) (block_of 1 creates) opened)

attests_spends :
    digest_transaction store spends one_block
    ≡ notify_request (record { tx = spends; attestations = 0 ∷ []; block_height = 1 })
unfolding digest_transaction digest_block open_db updated le_bytes from_le hash_in_shard_range
attests_spends = refl

Run-Represents_example : Represents store (open_db store one_block.prefix_range one_block.db) (
    if (digest_block store (block_of 1 creates) new_shard).0
    then after_txs (creates ∷ []) (empty_set store)
    else empty_set store)
Run-Represents_example =
    Run-Represents store store-IsStore (0, 40) no_data
      (open_db store one_block.prefix_range one_block.db)
      (if (digest_block store (block_of 1 creates) new_shard).0
        then after_txs (creates ∷ []) (empty_set store)
        else empty_set store)
      (λ k. refl)
      (reopened one_block _ (digested new_shard (empty_set store) (block_of 1 creates) opened))

digest_transaction_lem_example :
    (IsAttestable store one_block (after_txs (creates ∷ []) (empty_set store)) spends
      × Attests store one_block spends)
    ⊎ ((IsAttestable store one_block (after_txs (creates ∷ []) (empty_set store)) spends → ⊥)
        × Refuses store one_block spends)
digest_transaction_lem_example =
    digest_transaction_lem store store-IsStore one_block
      (after_txs (creates ∷ []) (empty_set store)) spends one_block-Represents
