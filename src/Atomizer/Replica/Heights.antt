-- ===== src/Atomizer/Replica/Heights.antt =====
-- src/uhs/atomizer/atomizer/state_machine.cpp: the heights of the blocks that are stored.
use cbdc_forensics.Common.{
  ℕ, ◌+◌, ◌^◌, ◌<◌, ◌≡◌, refl, ap, ◌∙◌, inl, inr, false, none, some, List, [], ◌∷◌, arith, ◌==◌,
  Bool-cases, Map, find, find-put,
}
use cbdc_forensics.Atomizer.{Block, TxError, make_block}
use cbdc_forensics.Atomizer.Spent.{insert_complete-Extends}
use cbdc_forensics.Atomizer.Replica.{
  AggregateTxNotification, Request, aggregate_tx_notify_request, make_block_request,
  get_block_request, prune_request, StateMachine, insert_all, prune, commit,
}
use cbdc_forensics.Atomizer.Replica.Blocks.{HasNoneAbove, insert_all_blocks}

insert_all_height :
    (msgs : List AggregateTxNotification) (errs : List TxError) (m : StateMachine)
    → (insert_all msgs errs m).1.atomizer.best_height ≡ m.atomizer.best_height
unfolding insert_all
insert_all_height [] errs m = refl
insert_all_height (msg ∷ msgs) errs m =
    insert_all_height msgs _ _
    ∙ (insert_complete-Extends msg.oldest_attestation msg.tx m.atomizer).height

find-prune-none :
    (h height : ℕ) (blocks : Map Block) → find h blocks ≡ none → find h (prune height blocks) ≡ none
unfolding prune find
find-prune-none h height [] e = e
find-prune-none h height ((k, b) ∷ blocks) e = elim (Bool-cases (h == k)) [
  | inl same ↦ let it : some b ≡ none = rw same at e in cc
  | inr other ↦
      let rest = find-prune-none h height blocks (rw other at e) in ground (arith, rest, other)
]

-- Committing a request while the best height is less than 2^64 - 1 stores no block above the best
-- height, when none was stored there before.
pub commit-HasNoneAbove :
    (idx : ℕ) (req : Request) (m : StateMachine)
    → m.atomizer.best_height + 1 < 2 ^ 64
    → HasNoneAbove m
    → HasNoneAbove (commit idx req m).1
unfolding commit make_block
commit-HasNoneAbove idx (aggregate_tx_notify_request msgs) m lim none_above h above =
    let m0 : StateMachine = record m { last_committed_idx = idx } in
    let above' : m.atomizer.best_height < h = rw (insert_all_height msgs [] m0) at above in
    ap (find h) (insert_all_blocks msgs [] m0) ∙ none_above h above'
commit-HasNoneAbove idx make_block_request m lim none_above h above =
    let blk = (make_block m.atomizer).0.0 in
    let new : find h m.blocks ≡ none = none_above h (omega (arith, lim, above)) in
    let other : (h == blk.height) ≡ false = ground (arith, lim, above) in
    ground (arith, find-put h blk.height blk m.blocks, other, new)
commit-HasNoneAbove idx (get_block_request height) m lim none_above h above = none_above h above
commit-HasNoneAbove idx (prune_request height) m lim none_above h above =
    find-prune-none h height m.blocks (none_above h above)
