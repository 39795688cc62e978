-- ===== src/Watchtower/Service/Status.antt =====
-- src/uhs/atomizer/watchtower/watchtower.cpp: what a request is told of an output that a block spends.
use cbdc_forensics.Common.{
  ℕ, ◌≡◌, refl, ap, ◌∙◌, subst, inl, inr, true, false, Option, none, some, List, [], ◌∷◌, arith,
  ◌==◌, if◌then◌else◌, Bool-cases, member, Map, find, put, find-put, find-put-some,
}
use cbdc_forensics.Transaction.{CompactTx}
use cbdc_forensics.Atomizer.{Block}
use cbdc_forensics.Watchtower.BlockCache.{
  BlockCacheResult, Ids, BlockCache, put_all, index_txs, is_full, push_block, check_spent,
}
use cbdc_forensics.Watchtower.ErrorCache.{check_tx_id}
use cbdc_forensics.Watchtower.Service.{
  Watchtower, state_at, spent, add_block, error_states, entry_states, block_states, or_no_history,
  uhs_id_states, check_uhs_id_statuses, is_internal, has_error, handle_status_update_request,
}

-- The first transaction that spends an output.
unfoldable pub spender : ℕ → List CompactTx → Option ℕ
spender x [] = none
spender x (tx ∷ txs) = if member x tx.inputs then some tx.id else spender x txs

kept_find :
    (x : ℕ) (r e : BlockCacheResult) (ids : List ℕ) (m : Map BlockCacheResult)
    → find x m ≡ some e
    → find x (put_all r ids m) ≡ some e
unfolding put_all
kept_find x r e [] m h = h
kept_find x r e (id ∷ ids) m h = kept_find x r e ids (put id r m) (find-put-some x id r m e h)

find-put_all :
    (x : ℕ) (r : BlockCacheResult) (ids : List ℕ) (m : Map BlockCacheResult)
    → find x m ≡ none
    → find x (put_all r ids m) ≡ (if member x ids then some r else none)
unfolding put_all member
find-put_all x r [] m h = h
find-put_all x r (id ∷ ids) m h = elim (Bool-cases (x == id)) [
  | inl same ↦
      let new : find id m ≡ none = subst (λ k. find k m ≡ none) (ground (arith, same)) h in
      let now : find x (put id r m) ≡ some r = ground (arith, find-put x id r m, same, new) in
      rw same (kept_find x r r ids (put id r m) now)
  | inr other ↦ ground (
    arith,
    other,
    find-put_all x r ids (put id r m) (ground (arith, find-put x id r m, other, h)),
  )
]

kept_index :
    (x height : ℕ) (e : BlockCacheResult) (txs : List CompactTx) (i : Ids)
    → find x i.spent_ids ≡ some e
    → find x (index_txs height txs i).spent_ids ≡ some e
unfolding index_txs
kept_index x height e [] i h = h
kept_index x height e (tx ∷ txs) i h =
    kept_index x height e txs _ (kept_find x (height, tx.id) e tx.inputs i.spent_ids h)

spent_index :
    (x height t : ℕ) (txs : List CompactTx) (i : Ids)
    → find x i.spent_ids ≡ none
    → spender x txs ≡ some t
    → find x (index_txs height txs i).spent_ids ≡ some (height, t)
unfolding index_txs spender
spent_index x height t [] i h e = cc
spent_index x height t (tx ∷ txs) i h e = elim (Bool-cases (member x tx.inputs)) [
  | inl spends ↦
      let id : some tx.id ≡ some t = rw spends at e in
      let same : tx.id ≡ t = cc in
      kept_index x height (height, t) txs _
        (find-put_all x (height, tx.id) tx.inputs i.spent_ids h
          ∙ (rw spends (ap (λ k. some (height, k)) same)))
  | inr other ↦
      spent_index x height t txs _
        (find-put_all x (height, tx.id) tx.inputs i.spent_ids h ∙ (rw other refl)) (rw other at e)
]

spent_entry :
    (blk : Block) (bc : BlockCache) (x t : ℕ)
    → is_full bc ≡ false
    → check_spent x bc ≡ none
    → spender x blk.transactions ≡ some t
    → check_spent x (push_block blk bc) ≡ some (blk.height, t)
unfolding check_spent push_block
spent_entry blk bc x t room new e =
    rw room (spent_index x blk.height t blk.transactions bc.ids new e)

-- When the block cache is not full and does not know an output as spent, and the error cache has no
-- error for the transaction that is the first of a new block to spend it (`spender`), then after
-- the block has been added a request for the output, as one of this transaction's, is answered by
-- one state: it was spent at the height of the block.
pub add_block_spent :
    (blk : Block) (w : Watchtower) (x t : ℕ)
    → is_full w.bc ≡ false
    → check_spent x w.bc ≡ none
    → check_tx_id t w.ec ≡ none
    → spender x blk.transactions ≡ some t
    → handle_status_update_request ((t, x ∷ []) ∷ []) (add_block blk w)
      ≡ (t, state_at spent blk.height x ∷ []) ∷ []
unfolding handle_status_update_request check_uhs_id_statuses uhs_id_states error_states block_states
    entry_states or_no_history add_block is_internal has_error
add_block_spent blk w x t room new no_error e =
    let found = spent_entry blk w.bc x t room new e in
    let self : (t == t) ≡ true = ground arith in rw (no_error, found, self) refl
