-- ===== src/Watchtower/BlockCache/Index.antt =====
-- src/uhs/atomizer/watchtower/block_cache.cpp: what the cache tells of an output after a block.
use cbdc_forensics.Common.{
  ℕ, ◌≡◌, refl, ap, ◌∙◌, Bool, true, false, not, ◌&&◌, ◌||◌, Option, none, some, List, [], ◌∷◌,
  arith, if◌then◌else◌, member, Map, find, put, remove, find-put, find-remove,
}
use cbdc_forensics.Transaction.{CompactTx}
use cbdc_forensics.Atomizer.{Block}
use cbdc_forensics.Watchtower.BlockCache.{
  BlockCacheResult, Ids, BlockCache, remove_all, put_all, index_txs, is_full, push_block,
  check_unspent, check_spent,
}

abbrev pub is_some : {A : Type 0} → Option A → Bool
is_some none = false
is_some (some a) = true

-- A transaction spends, or creates, the output.
unfoldable pub any_spends : ℕ → List CompactTx → Bool
any_spends x [] = false
any_spends x (tx ∷ txs) = member x tx.inputs || any_spends x txs

-- The last of the transactions that touches the output, if any: it creates it, or spends it for
-- good. A transaction takes its inputs out before it puts its outputs in.
unfoldable pub remains : Bool → ℕ → List CompactTx → Bool
remains before x [] = before
remains before x (tx ∷ txs) =
    remains (if member x tx.uhs_outputs then true else before && not (member x tx.inputs)) x txs

is_some-remove_all :
    (x : ℕ) (ids : List ℕ) (m : Map BlockCacheResult)
    → is_some (find x (remove_all ids m)) ≡ (is_some (find x m) && not (member x ids))
unfolding remove_all member
is_some-remove_all x [] m = ground arith
is_some-remove_all x (id ∷ ids) m =
    ground (arith, is_some-remove_all x ids (remove id m), find-remove x id m)

is_some-put_all :
    (x : ℕ) (r : BlockCacheResult) (ids : List ℕ) (m : Map BlockCacheResult)
    → is_some (find x (put_all r ids m)) ≡ (if member x ids then true else is_some (find x m))
unfolding put_all member
is_some-put_all x r [] m = refl
is_some-put_all x r (id ∷ ids) m =
    ground (arith, is_some-put_all x r ids (put id r m), find-put x id r m)

index_txs-spent :
    (x height : ℕ) (txs : List CompactTx) (i : Ids)
    → is_some (find x (index_txs height txs i).spent_ids)
      ≡ (is_some (find x i.spent_ids) || any_spends x txs)
unfolding index_txs any_spends
index_txs-spent x height [] i = ground arith
index_txs-spent x height (tx ∷ txs) i =
    let i' : Ids = record {
      unspent_ids = put_all (height, tx.id) tx.uhs_outputs (remove_all tx.inputs i.unspent_ids);
      spent_ids = put_all (height, tx.id) tx.inputs i.spent_ids;
    } in
    ground (
      arith,
      index_txs-spent x height txs i',
      is_some-put_all x (height, tx.id) tx.inputs i.spent_ids,
    )

index_txs-unspent :
    (x height : ℕ) (txs : List CompactTx) (i : Ids)
    → is_some (find x (index_txs height txs i).unspent_ids)
      ≡ remains (is_some (find x i.unspent_ids)) x txs
unfolding index_txs remains
index_txs-unspent x height [] i = refl
index_txs-unspent x height (tx ∷ txs) i =
    let i' : Ids = record {
      unspent_ids = put_all (height, tx.id) tx.uhs_outputs (remove_all tx.inputs i.unspent_ids);
      spent_ids = put_all (height, tx.id) tx.inputs i.spent_ids;
    } in
    let taken = remove_all tx.inputs i.unspent_ids in
    let step : is_some (find x (put_all (height, tx.id) tx.uhs_outputs taken)) ≡ (
        if member x tx.uhs_outputs
        then true
        else is_some (find x i.unspent_ids) && not (member x tx.inputs)) =
      ground (
        arith,
        is_some-put_all x (height, tx.id) tx.uhs_outputs taken,
        is_some-remove_all x tx.inputs i.unspent_ids,
      ) in
    index_txs-unspent x height txs i' ∙ ap (λ b. remains b x txs) step

-- After a block has been pushed to a cache that was not full, an output is known as spent exactly
-- if it was before or a transaction of the block spends it, and as unspent exactly if it remains
-- (`remains`): the last transaction of the block that touches it creates it, or none touches it and
-- it was known before.
pub push_block_tells :
    (blk : Block) (c : BlockCache) (x : ℕ)
    → is_full c ≡ false
    → (is_some (check_spent x (push_block blk c))
        ≡ (is_some (check_spent x c) || any_spends x blk.transactions))
      × (is_some (check_unspent x (push_block blk c))
          ≡ remains (is_some (check_unspent x c)) x blk.transactions)
unfolding push_block check_spent check_unspent
push_block_tells blk c x h = rw h (
  index_txs-spent x blk.height blk.transactions c.ids,
  index_txs-unspent x blk.height blk.transactions c.ids,
)
