-- ===== src/Watchtower/BlockCache.antt =====
-- src/uhs/atomizer/watchtower/block_cache.cpp: the outputs created and spent in the last blocks.
pub mod Index
mod Examples
use cbdc_forensics.Common.{
  ℕ, max, Bool, true, false, not, ◌&&◌, Option, List, [], ◌∷◌, ◌++◌, length, ◌==◌, if◌then◌else◌,
  Map, find, put, remove,
}
use cbdc_forensics.Transaction.{CompactTx}
use cbdc_forensics.Atomizer.{Block}

-- The height of the block and the transaction.
abbrev pub BlockCacheResult : Type 0
BlockCacheResult = ℕ × ℕ

-- The two maps of outputs.
pub record Ids : Type 0 where
  pub unspent_ids : Map BlockCacheResult
  pub spent_ids : Map BlockCacheResult

-- The queue of blocks has its oldest first.
pub record BlockCache : Type 0 where
  pub k_blks : ℕ
  pub blks : List Block
  pub best_blk_height : ℕ
  pub ids : Ids

unfoldable pub new : ℕ → BlockCache
new k = record {
  k_blks = k;
  blks = [];
  best_blk_height = 0;
  ids = record { unspent_ids = []; spent_ids = [] };
}

unfoldable pub remove_all : List ℕ → Map BlockCacheResult → Map BlockCacheResult
remove_all [] m = m
remove_all (id ∷ ids) m = remove_all ids (remove id m)

unfoldable pub put_all : BlockCacheResult → List ℕ → Map BlockCacheResult → Map BlockCacheResult
put_all r [] m = m
put_all r (id ∷ ids) m = put_all r ids (put id r m)

-- The loop over the transactions of the block that leaves.
unfoldable pub forget_txs : List CompactTx → Ids → Ids
unfolding remove_all
forget_txs [] i = i
forget_txs (tx ∷ txs) i = forget_txs txs (record {
  unspent_ids = remove_all tx.uhs_outputs i.unspent_ids;
  spent_ids = remove_all tx.inputs i.spent_ids;
})

-- The loop over the transactions of the new block. What is in a map already stays.
unfoldable pub index_txs : ℕ → List CompactTx → Ids → Ids
unfolding remove_all put_all
index_txs height [] i = i
index_txs height (tx ∷ txs) i = index_txs height txs (record {
  unspent_ids = put_all (height, tx.id) tx.uhs_outputs (remove_all tx.inputs i.unspent_ids);
  spent_ids = put_all (height, tx.id) tx.inputs i.spent_ids;
})

abbrev pub is_full : BlockCache → Bool
is_full c = not (c.k_blks == 0) && (length c.blks == c.k_blks)

-- The oldest block leaves a full cache.
unfoldable pub pop_block : List Block → BlockCache → BlockCache
unfolding forget_txs
pop_block [] c = c
pop_block (old ∷ blks) c = record c { blks = blks; ids = forget_txs old.transactions c.ids }

unfoldable pub push_block : Block → BlockCache → BlockCache
unfolding pop_block index_txs
push_block blk c =
    let c' = if is_full c then pop_block c.blks c else c in
    record c' {
      blks = c'.blks ++ (blk ∷ []);
      ids = index_txs blk.height blk.transactions c'.ids;
      best_blk_height = max c'.best_blk_height blk.height;
    }

unfoldable pub check_unspent : ℕ → BlockCache → Option BlockCacheResult
check_unspent uhs_id c = find uhs_id c.ids.unspent_ids

unfoldable pub check_spent : ℕ → BlockCache → Option BlockCacheResult
check_spent uhs_id c = find uhs_id c.ids.spent_ids

unfoldable pub best_block_height : BlockCache → ℕ
best_block_height c = c.best_blk_height
