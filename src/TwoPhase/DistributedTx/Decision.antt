-- ===== src/TwoPhase/DistributedTx/Decision.antt =====
-- src/uhs/twophase/coordinator/distributed_tx.cpp: what `prepare` decides from the shards' answers.
use cbdc_forensics.Common.{
  ℕ, zero, suc, ◌<◌, ◌≡◌, refl, ap, Bool, true, false, not, ◌&&◌, ◌||◌, Option, none, some, List,
  [], ◌∷◌, arith, length, get_or, set, replicate, ◌==◌, if◌then◌else◌,
}
use cbdc_forensics.TwoPhase.Outcome.{Outcome, fatal, ok}
use cbdc_forensics.TwoPhase.DistributedTx.{
  ShardInterface, Callbacks, DistributedTx, mark, merge, lock_each, prepare_dtx, conclude, call_cb,
}

-- A shard answered that the transaction with index `i` is refused.
unfoldable pub refused_by : ℕ → List Bool → List ℕ → Bool
refused_by i [] idxs = false
refused_by i (r ∷ rs) [] = false
refused_by i (r ∷ rs) (k ∷ idxs) = (not r && (k == i)) || refused_by i rs idxs

unfoldable pub refused : ℕ → List (Option (List Bool) × List ℕ) → Bool
unfolding refused_by
refused i [] = false
refused i ((none, idxs) ∷ futures) = refused i futures
refused i ((some res, idxs) ∷ futures) = refused_by i res idxs || refused i futures

get_or-set :
    (xs : List Bool) (k i : ℕ)
    → get_or (set xs k false) i false ≡ (get_or xs i false && not (k == i))
get_or-set [] k i = ground arith
get_or-set (x ∷ xs) zero zero = ground arith
get_or-set (x ∷ xs) zero (suc i) = ground arith
get_or-set (x ∷ xs) (suc k) zero = ground arith
get_or-set (x ∷ xs) (suc k) (suc i) = ground (arith, get_or-set xs k i)

mark_lem :
    (rs : List Bool) (idxs : List ℕ) (ret : List Bool) (i : ℕ)
    → get_or (mark rs idxs ret) i false ≡ (get_or ret i false && not (refused_by i rs idxs))
unfolding mark refused_by
mark_lem [] idxs ret i = ground arith
mark_lem (r ∷ rs) [] ret i = ground arith
mark_lem (true ∷ rs) (k ∷ idxs) ret i = ground (arith, mark_lem rs idxs ret i)
mark_lem (false ∷ rs) (k ∷ idxs) ret i =
    ground (arith, mark_lem rs idxs (set ret k false) i, get_or-set ret k i)

if_else_fatal {ℓ} :
    {A : Type ℓ} {a : A} (b : Bool) (m : Outcome A)
    → (if b then m else fatal) ≡ ok a
    → (b ≡ true) × (m ≡ ok a)
if_else_fatal true m h = (refl, h)
if_else_fatal false m h = cc

merge_lem :
    (futures : List (Option (List Bool) × List ℕ)) (ret ret' : List Bool) (i : ℕ)
    → merge futures ret ≡ ok (some ret')
    → get_or ret' i false ≡ (get_or ret i false && not (refused i futures))
unfolding merge refused
merge_lem [] ret ret' i h = let e : ret ≡ ret' = cc in ground (arith, ap (λ l. get_or l i false) e)
merge_lem ((none, idxs) ∷ futures) ret ret' i h = cc
merge_lem ((some res, idxs) ∷ futures) ret ret' i h =
    let (e, more) =
      if_else_fatal (length res == length idxs) (merge futures (mark res idxs ret)) h in
    ground (arith, merge_lem futures (mark res idxs ret) ret' i more, mark_lem res idxs ret i)

get_or-replicate : (n i : ℕ) → i < n → get_or (replicate n true) i false ≡ true
get_or-replicate zero i h = absurd (omega arith)
get_or-replicate (suc n) zero h = refl
get_or-replicate (suc n) (suc i) h = get_or-replicate n i (omega arith)

module _ {S : Type 0} {R : Type 0} (shard : ShardInterface S) (cbs : Callbacks R) where
  -- The answers of the shards to `prepare`.
  abbrev pub futures_of : DistributedTx S R → List (Option (List Bool) × List ℕ)
  futures_of d = (lock_each shard cbs d.dtx_id d.tx_idxs d.txs d.shards).0

  conclude-eq_some :
      (ret : List Bool) (x d' : DistributedTx S R) (res : Bool) (m : Outcome (Option (List Bool)))
      (d : DistributedTx S R)
      → (if not res then ok (none, x) else conclude shard cbs m d) ≡ ok (some ret, d')
      → m ≡ ok (some ret)
  unfolding conclude
  conclude-eq_some ret x d' false m d h = cc
  conclude-eq_some ret x d' true fatal d h = cc
  conclude-eq_some ret x d' true (ok none) d h = cc
  conclude-eq_some ret x d' true (ok (some other)) d h = cc

  -- When `prepare` succeeds, a transaction of the batch is to be completed exactly when no shard
  -- refused it in its answer.
  pub prepare_decides :
      (d d' : DistributedTx S R) (ret : List Bool) (i : ℕ)
      → prepare_dtx shard cbs d ≡ ok (some ret, d')
      → i < length d.full_txs
      → get_or ret i false ≡ not (refused i (futures_of d))
  unfolding prepare_dtx
  prepare_decides d d' ret i h lt =
      let (res, _) = call_cb shard cbs cbs.prepare_cb (λ f. f d.dtx_id d.full_txs) d.replicated in
      let m = merge (futures_of d) (replicate (length d.full_txs) true) in
      let e = conclude-eq_some ret _ d' res m _ h in
      ground (
        arith,
        merge_lem (futures_of d) (replicate (length d.full_txs) true) ret i e,
        get_or-replicate (length d.full_txs) i lt,
      )
