-- ===== src/TwoPhase/DistributedTx/Flags.antt =====
-- src/uhs/twophase/coordinator/distributed_tx.cpp, `execute`: one flag for each transaction.
use cbdc_forensics.Common.{
  ℕ, ◌≡◌, refl, ap, ◌∙◌, Bool, true, false, not, ◌||◌, Option, none, some, List, arith, length,
  replicate, ◌==◌, if◌then◌else◌, Bool-cases, inl, inr,
}
use cbdc_forensics.TwoPhase.Outcome.{Outcome, fatal, ok}
use cbdc_forensics.TwoPhase.DistributedTx.{
  DtxState, ShardInterface, Callbacks, DistributedTx, prepare_dtx, commit_dtx, discard_dtx,
  conclude, execute, execute_prepared, execute_commit, execute_discard, call_cb, lock_each, merge,
  apply_each, discard_each, succeeded, is_state, prepare, start, commit, discard,
}

abbrev pub Result : Type 0 → Type 0 → Type 0
Result S R = Outcome (Option (List Bool) × DistributedTx S R)

module _ {S : Type 0} {R : Type 0} where
  -- A result has `n` flags, if it has flags.
  abbrev pub GivesFlags : ℕ → Result S R → Type 0
  GivesFlags n fatal = Unit {0}
  GivesFlags n (ok (none, d)) = Unit {0}
  GivesFlags n (ok (some flags, d)) = length flags ≡ n

  abbrev KeepsTxs : ℕ → Result S R → Type 0
  KeepsTxs n fatal = Unit {0}
  KeepsTxs n (ok (flags, d)) = length d.full_txs ≡ n

  if-GivesFlags :
      (n : ℕ) (b : Bool) (x y : Result S R)
      → GivesFlags n x
      → GivesFlags n y
      → GivesFlags n (if b then x else y)
  if-GivesFlags n true x y h k = h
  if-GivesFlags n false x y h k = k

  if-KeepsTxs :
      (n : ℕ) (b : Bool) (x y : Result S R)
      → KeepsTxs n x
      → KeepsTxs n y
      → KeepsTxs n (if b then x else y)
  if-KeepsTxs n true x y h k = h
  if-KeepsTxs n false x y h k = k

  if_flags :
      (flags : List Bool) (b : Bool) (x y : Bool × DistributedTx S R)
      → x.1.complete_txs ≡ flags
      → y.1.complete_txs ≡ flags
      → (if b then x else y).1.complete_txs ≡ flags
  if_flags flags true x y h k = h
  if_flags flags false x y h k = k

module _ {S : Type 0} {R : Type 0} (shard : ShardInterface S) (cbs : Callbacks R) where
  discard_flags :
      (d : DistributedTx S R) → (discard_dtx shard cbs d).1.complete_txs ≡ d.complete_txs
  unfolding discard_dtx
  discard_flags d =
      let (res, r) = call_cb shard cbs cbs.discard_cb (λ f. f d.dtx_id) d.replicated in
      let (answers, ss) = discard_each shard cbs d.dtx_id d.tx_idxs d.shards in
      let (finished, r') = call_cb shard cbs cbs.done_cb (λ f. f d.dtx_id) r in
      let applied = record d { replicated = r; shards = ss } in
      if_flags d.complete_txs (not res)
        (false, record d { replicated = r; state = DtxState.failed })
        (if not (succeeded answers)
          then (false, record d { replicated = r; shards = ss; state = DtxState.failed })
          else if not finished
          then (false, record d { replicated = r'; shards = ss; state = DtxState.failed })
          else (true, record d { replicated = r'; shards = ss; state = DtxState.done }))
        refl
        (if_flags d.complete_txs (not (succeeded answers))
          (false, record d { replicated = r; shards = ss; state = DtxState.failed })
          (if not finished
            then (false, record d { replicated = r'; shards = ss; state = DtxState.failed })
            else (true, record d { replicated = r'; shards = ss; state = DtxState.done }))
          refl
          (if_flags d.complete_txs (not finished)
            (false, record d { replicated = r'; shards = ss; state = DtxState.failed })
            (true, record d { replicated = r'; shards = ss; state = DtxState.done }) refl refl))

  commit_flags :
      (flags : List Bool) (d : DistributedTx S R)
      → (commit_dtx shard cbs flags d).1.complete_txs ≡ d.complete_txs
  unfolding commit_dtx
  commit_flags flags d =
      let (res, r) =
        call_cb shard cbs cbs.commit_cb (λ f. f d.dtx_id flags d.tx_idxs) d.replicated in
      let (answers, ss) = apply_each shard cbs d.dtx_id flags d.tx_idxs d.shards in
      if_flags d.complete_txs (not res)
        (false, record d { replicated = r; state = DtxState.failed })
        (if succeeded answers
          then (true, record d { replicated = r; shards = ss; state = DtxState.discard })
          else (false, record d { replicated = r; shards = ss; state = DtxState.failed }))
        refl
        (if_flags d.complete_txs (succeeded answers)
          (true, record d { replicated = r; shards = ss; state = DtxState.discard })
          (false, record d { replicated = r; shards = ss; state = DtxState.failed }) refl refl)

  discard-GivesFlags :
      (n : ℕ) (d : DistributedTx S R)
      → length d.complete_txs ≡ n
      → GivesFlags n (execute_discard shard cbs d)
  unfolding execute_discard
  discard-GivesFlags n d h =
      let (res, d') = discard_dtx shard cbs d in
      if-GivesFlags n (not (is_state d.state discard)) (ok (some d.complete_txs, d))
        (if res then ok (some d'.complete_txs, d') else ok (none, d')) h
        (if-GivesFlags n res (ok (some d'.complete_txs, d')) (ok (none, d'))
          (ap length (discard_flags d) ∙ h) tt)

  commit-GivesFlags :
      (n : ℕ) (d : DistributedTx S R)
      → length d.complete_txs ≡ n
      → GivesFlags n (execute_commit shard cbs d)
  unfolding execute_commit
  commit-GivesFlags n d h =
      let (res, d') = commit_dtx shard cbs d.complete_txs d in
      if-GivesFlags n (not (is_state d.state commit)) (execute_discard shard cbs d)
        (if res then execute_discard shard cbs d' else ok (none, d')) (discard-GivesFlags n d h)
        (if-GivesFlags n res (execute_discard shard cbs d') (ok (none, d'))
          (discard-GivesFlags n d' (ap length (commit_flags d.complete_txs d) ∙ h)) tt)

  conclude-KeepsTxs :
      (m : Outcome (Option (List Bool))) (d : DistributedTx S R)
      → KeepsTxs (length d.full_txs) (conclude shard cbs m d)
  unfolding conclude
  conclude-KeepsTxs fatal d = tt
  conclude-KeepsTxs (ok none) d = refl
  conclude-KeepsTxs (ok (some flags)) d = refl

  prepare-KeepsTxs :
      (d : DistributedTx S R) → KeepsTxs (length d.full_txs) (prepare_dtx shard cbs d)
  unfolding prepare_dtx
  prepare-KeepsTxs d =
      let (res, r) = call_cb shard cbs cbs.prepare_cb (λ f. f d.dtx_id d.full_txs) d.replicated in
      let (futures, ts, ss) = lock_each shard cbs d.dtx_id d.tx_idxs d.txs d.shards in
      let asked : DistributedTx S R = record d { replicated = r; txs = ts; shards = ss } in
      let m = merge futures (replicate (length d.full_txs) true) in
      if-KeepsTxs (length d.full_txs) (not res)
        (ok (none, record d { replicated = r; state = DtxState.failed }))
        (conclude shard cbs m asked) refl (conclude-KeepsTxs m asked)

  prepared-GivesFlags :
      (n : ℕ) (o : Result S R) → KeepsTxs n o → GivesFlags n (execute_prepared shard cbs o)
  unfolding execute_prepared
  prepared-GivesFlags n fatal h = tt
  prepared-GivesFlags n (ok (none, d)) h = tt
  prepared-GivesFlags n (ok (some flags, d)) h =
      elim (Bool-cases (length flags == length d.full_txs)) [
        | inl same ↦
            rw same
              (commit-GivesFlags n (record d { complete_txs = flags }) (ground (arith, same, h)))
        | inr other ↦ rw other tt
      ]

  -- A dtx that is executed from its start gives as many flags as it has transactions, if any.
  pub execute-GivesFlags :
      (d : DistributedTx S R)
      → (is_state d.state prepare || is_state d.state start) ≡ true
      → GivesFlags (length d.full_txs) (execute shard cbs d)
  unfolding execute
  execute-GivesFlags d first =
      rw first
        (prepared-GivesFlags (length d.full_txs) (prepare_dtx shard cbs d) (prepare-KeepsTxs d))
