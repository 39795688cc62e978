-- ===== src/Atomizer/Replica/Blocks.antt =====
-- src/uhs/atomizer/atomizer/state_machine.cpp: a block that was made can be had until it is pruned.
use cbdc_forensics.Common.{
  ℕ, suc, ◌+◌, ◌^◌, ◌<◌, ◌≤◌, ◌≡◌, refl, ap, ◌∙◌, inl, inr, true, false, none, some, List, [], ◌∷◌,
  arith, ltb, ◌==◌, Bool-cases, All, Map, find, find-put, find-put-some,
}
use cbdc_forensics.Atomizer.{Block, TxError, make_block}
use cbdc_forensics.Atomizer.Replica.{
  AggregateTxNotification, Request, aggregate_tx_notify_request, make_block_request,
  get_block_request, prune_request, make_block_response, get_block_response, StateMachine,
  insert_all, prune, found_response, commit,
}

-- No block is stored above the best height.
abbrev pub HasNoneAbove : StateMachine → Type 0
HasNoneAbove m = (h : ℕ) → m.atomizer.best_height < h → find h m.blocks ≡ none

-- A request that prunes no block of this height.
unfoldable pub Spares : ℕ → Request → Type 0
Spares h (prune_request height) = height ≤ h
Spares h (aggregate_tx_notify_request msgs) = Unit {0}
Spares h make_block_request = Unit {0}
Spares h (get_block_request height) = Unit {0}

-- Entries with consecutive indices.
unfoldable pub commit_all : ℕ → List Request → StateMachine → StateMachine
unfolding commit
commit_all idx [] m = m
commit_all idx (req ∷ reqs) m = commit_all (suc idx) reqs (commit idx req m).1

pub insert_all_blocks :
    (msgs : List AggregateTxNotification) (errs : List TxError) (m : StateMachine)
    → (insert_all msgs errs m).1.blocks ≡ m.blocks
unfolding insert_all
insert_all_blocks [] errs m = refl
insert_all_blocks (msg ∷ msgs) errs m = insert_all_blocks msgs _ _

find-prune :
    (h height : ℕ) (blk : Block) (blocks : Map Block)
    → blk.height ≡ h
    → height ≤ h
    → find h blocks ≡ some blk
    → find h (prune height blocks) ≡ some blk
unfolding prune find
find-prune h height blk [] is low e = cc
find-prune h height blk ((k, b) ∷ blocks) is low e = elim (Bool-cases (h == k)) [
  | inl same ↦
      let it : some b ≡ some blk = rw same at e in
      let here : b ≡ blk = cc in
      let stays : ltb b.height height ≡ false = ground (arith, ap (λ x. x.height) here, is, low) in
      rw (stays, same) it
  | inr other ↦
      let rest = find-prune h height blk blocks is low (rw other at e) in
      ground (arith, rest, other)
]

find-commit :
    (idx : ℕ) (req : Request) (blk : Block) (m : StateMachine)
    → Spares blk.height req
    → find blk.height m.blocks ≡ some blk
    → find blk.height (commit idx req m).1.blocks ≡ some blk
unfolding commit Spares
find-commit idx (aggregate_tx_notify_request msgs) blk m k e =
    ap (find blk.height) (insert_all_blocks msgs [] (record m { last_committed_idx = idx })) ∙ e
find-commit idx make_block_request blk m k e =
    let made = (make_block m.atomizer).0.0 in
    find-put-some blk.height made.height made m.blocks blk e
find-commit idx (get_block_request height) blk m k e = e
find-commit idx (prune_request height) blk m k e =
    find-prune blk.height height blk m.blocks refl k e

find-commit_all :
    (idx : ℕ) (reqs : List Request) (blk : Block) (m : StateMachine)
    → All (Spares blk.height) reqs
    → find blk.height m.blocks ≡ some blk
    → find blk.height (commit_all idx reqs m).blocks ≡ some blk
unfolding commit_all
find-commit_all idx [] blk m k e = e
find-commit_all idx (req ∷ reqs) blk m k e =
    find-commit_all (suc idx) reqs blk (commit idx req m).1 k.1 (find-commit idx req blk m k.0 e)

-- When no block is stored above the best height, which is less than 2^64 - 1, a request makes the
-- next block; and after any requests that prune none of its height, a request for it is answered by
-- it.
pub commit-get_block :
    (i j k : ℕ) (m : StateMachine) (reqs : List Request)
    → HasNoneAbove m
    → m.atomizer.best_height + 1 < 2 ^ 64
    → All (Spares (make_block m.atomizer).0.0.height) reqs
    → let ((blk, errs), a) = make_block m.atomizer in
      let m' = commit_all j reqs (commit i make_block_request m).1 in
      ((commit i make_block_request m).0 ≡ some (make_block_response blk errs))
      × ((commit k (get_block_request blk.height) m').0 ≡ some (get_block_response blk))
unfolding commit found_response make_block
commit-get_block i j k m reqs none_above lim kept =
    let blk = (make_block m.atomizer).0.0 in
    let m' = (commit i make_block_request m).1 in
    let new : find blk.height m.blocks ≡ none = none_above blk.height (omega (arith, lim)) in
    let self : (blk.height == blk.height) ≡ true = ground arith in
    let stored : find blk.height m'.blocks ≡ some blk =
      ground (arith, find-put blk.height blk.height blk m.blocks, self, new) in
    (refl, ap found_response (find-commit_all j reqs blk m' kept stored))
