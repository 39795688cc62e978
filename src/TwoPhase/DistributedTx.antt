-- ===== src/TwoPhase/DistributedTx.antt =====
-- src/uhs/twophase/coordinator/distributed_tx.cpp: the coordinator takes a batch of transactions
-- through two phases over the shards. The shards are reached by an interface, as in the source;
-- the calls of one phase run at the same time on different shards, so that all of them are made
-- before the first answer is looked at.
pub mod Decision
pub mod Progress
pub mod Recovery
pub mod Flags
mod Examples
use cbdc_forensics.Common.{
  ℕ, ◌+◌, ◌-◌, max, Bool, true, false, not, ◌&&◌, ◌||◌, Option, none, some, List, [], ◌∷◌, ◌++◌,
  map, length, get_or, set, replicate, ◌==◌, if◌then◌else◌,
}
use cbdc_forensics.Transaction.{CompactTx}
use cbdc_forensics.TwoPhase.Outcome.{Outcome, fatal, ok, ◌>>=◌}

-- `locking_shard::interface`, over the state of a shard: every call answers and changes it. No
-- answer to `lock_outputs` and `false` of the others are failures.
pub record ShardInterface (S : Type 0) : Type 0 where
  pub lock_outputs : List CompactTx → ℕ → S → Option (List Bool) × S
  pub apply_outputs : List Bool → ℕ → S → Bool × S
  pub discard_dtx : ℕ → S → Bool × S
  pub in_range : S → ℕ → Bool

-- The callbacks, which may be unset; they act on what the coordinator replicates.
pub record Callbacks (R : Type 0) : Type 0 where
  pub prepare_cb : Option (ℕ → List CompactTx → R → Bool × R)
  pub commit_cb : Option (ℕ → List Bool → List (List ℕ) → R → Bool × R)
  pub discard_cb : Option (ℕ → R → Bool × R)
  pub done_cb : Option (ℕ → R → Bool × R)

pub data DtxState : Type 0 where
  start prepare commit discard done failed : DtxState

-- The members, with the states of the shards and what the callbacks replicate. There is one list of
-- `txs` and one of `tx_idxs` for each shard.
pub record DistributedTx (S R : Type 0) : Type 0 where
  pub dtx_id : ℕ
  pub shards : List S
  pub txs : List (List CompactTx)
  pub full_txs : List CompactTx
  pub tx_idxs : List (List ℕ)
  pub state : DtxState
  pub complete_txs : List Bool
  pub replicated : R

abbrev is_empty {ℓ} : {A : Type ℓ} → List A → Bool
is_empty [] = true
is_empty (x ∷ xs) = false

abbrev pub is_state : DtxState → DtxState → Bool
is_state start start = true
is_state prepare prepare = true
is_state commit commit = true
is_state discard discard = true
is_state done done = true
is_state failed failed = true
is_state x y = false

-- The answers of a shard to the transactions `idxs`: a refused one is not complete.
unfoldable pub mark : List Bool → List ℕ → List Bool → List Bool
mark [] idxs ret = ret
mark (r ∷ rs) [] ret = ret
mark (r ∷ rs) (i ∷ idxs) ret = mark rs idxs (if r then ret else set ret i false)

-- The second loop of `prepare`, over the futures.
unfoldable pub merge : List (Option (List Bool) × List ℕ) → List Bool → Outcome (Option (List Bool))
unfolding mark
merge [] ret = ok (some ret)
merge ((none, idxs) ∷ futures) ret = ok none
merge ((some res, idxs) ∷ futures) ret =
    let rest = merge futures (mark res idxs ret) in
    if length res == length idxs then rest else fatal

unfoldable pub succeeded : List Bool → Bool
succeeded [] = true
succeeded (r ∷ rs) = r && succeeded rs

-- `any input or output of this shard`, with the identifier.
unfoldable pub any_in : (ℕ → Bool) → List ℕ → Bool
any_in p [] = false
any_in p (x ∷ xs) = if p x then true else any_in p xs

unfoldable pub is_active : (ℕ → Bool) → CompactTx → Bool
unfolding any_in
is_active p tx =
    if p tx.id then true else if any_in p tx.inputs then true else any_in p tx.uhs_outputs

module _ {S : Type 0} {R : Type 0} (shard : ShardInterface S) (cbs : Callbacks R) where
  unfoldable pub new : ℕ → List S → R → DistributedTx S R
  new dtx_id shards r = record {
    dtx_id = dtx_id;
    shards = shards;
    txs = replicate (length shards) [];
    full_txs = [];
    tx_idxs = replicate (length shards) [];
    state = start;
    complete_txs = [];
    replicated = r;
  }

  -- The first loop of `prepare`: the shards with transactions are asked to lock, with the lists of
  -- transactions moved out.
  unfoldable pub lock_each :
      ℕ
      → List (List ℕ)
      → List (List CompactTx)
      → List S
      → List (Option (List Bool) × List ℕ) × List (List CompactTx) × List S
  lock_each dtx_id ([] ∷ idxs) (txs ∷ ts) (s ∷ ss) =
      let (futures, ts', ss') = lock_each dtx_id idxs ts ss in (futures, txs ∷ ts', s ∷ ss')
  lock_each dtx_id ((i ∷ is) ∷ idxs) (txs ∷ ts) (s ∷ ss) =
      let (futures, ts', ss') = lock_each dtx_id idxs ts ss in
      let (res, s') = shard.lock_outputs txs dtx_id s in
      ((res, i ∷ is) ∷ futures, [] ∷ ts', s' ∷ ss')
  lock_each dtx_id [] ts ss = ([], ts, ss)
  lock_each dtx_id (is ∷ idxs) [] ss = ([], [], ss)
  lock_each dtx_id (is ∷ idxs) (txs ∷ ts) [] = ([], txs ∷ ts, [])

  -- The flags of the transactions of one shard.
  unfoldable pub shard_flags : List Bool → List ℕ → List Bool
  shard_flags complete_txs idxs = map (λ i. get_or complete_txs i false) idxs

  -- The loop of `commit`.
  unfoldable pub apply_each : ℕ → List Bool → List (List ℕ) → List S → List Bool × List S
  unfolding shard_flags
  apply_each dtx_id complete_txs ([] ∷ idxs) (s ∷ ss) =
      let (answers, ss') = apply_each dtx_id complete_txs idxs ss in (answers, s ∷ ss')
  apply_each dtx_id complete_txs ((i ∷ is) ∷ idxs) (s ∷ ss) =
      let (answers, ss') = apply_each dtx_id complete_txs idxs ss in
      let (res, s') = shard.apply_outputs (shard_flags complete_txs (i ∷ is)) dtx_id s in
      (res ∷ answers, s' ∷ ss')
  apply_each dtx_id complete_txs [] ss = ([], ss)
  apply_each dtx_id complete_txs (is ∷ idxs) [] = ([], [])

  -- The loop of `discard`.
  unfoldable pub discard_each : ℕ → List (List ℕ) → List S → List Bool × List S
  discard_each dtx_id ([] ∷ idxs) (s ∷ ss) =
      let (answers, ss') = discard_each dtx_id idxs ss in (answers, s ∷ ss')
  discard_each dtx_id ((i ∷ is) ∷ idxs) (s ∷ ss) =
      let (answers, ss') = discard_each dtx_id idxs ss in
      let (res, s') = shard.discard_dtx dtx_id s in (res ∷ answers, s' ∷ ss')
  discard_each dtx_id [] ss = ([], ss)
  discard_each dtx_id (is ∷ idxs) [] = ([], [])

  -- An unset callback succeeds.
  unfoldable pub call_cb : {F : Type 0} → Option F → (F → R → Bool × R) → R → Bool × R
  call_cb none f r = (true, r)
  call_cb (some cb) f r = f cb r

  -- The end of `prepare`: what the answers come to.
  unfoldable pub conclude :
      Outcome (Option (List Bool))
      → DistributedTx S R
      → Outcome (Option (List Bool) × DistributedTx S R)
  conclude fatal d = fatal
  conclude (ok none) d = ok (none, record d { state = failed })
  conclude (ok (some ret)) d = ok (some ret, record d { state = commit })

  unfoldable pub prepare_dtx : DistributedTx S R → Outcome (Option (List Bool) × DistributedTx S R)
  unfolding call_cb lock_each merge conclude
  prepare_dtx d =
      let (res, r) = call_cb cbs.prepare_cb (λ f. f d.dtx_id d.full_txs) d.replicated in
      let (futures, ts, ss) = lock_each d.dtx_id d.tx_idxs d.txs d.shards in
      let asked = record d { replicated = r; txs = ts; shards = ss } in
      if not res
      then ok (none, record d { replicated = r; state = failed })
      else conclude (merge futures (replicate (length d.full_txs) true)) asked

  unfoldable pub commit_dtx : List Bool → DistributedTx S R → Bool × DistributedTx S R
  unfolding call_cb apply_each succeeded
  commit_dtx complete_txs d =
      let (res, r) = call_cb cbs.commit_cb (λ f. f d.dtx_id complete_txs d.tx_idxs) d.replicated in
      let (answers, ss) = apply_each d.dtx_id complete_txs d.tx_idxs d.shards in
      let applied = record d { replicated = r; shards = ss } in
      if not res
      then (false, record d { replicated = r; state = failed })
      else if succeeded answers
      then (true, record applied { state = discard })
      else (false, record applied { state = failed })

  unfoldable pub discard_dtx : DistributedTx S R → Bool × DistributedTx S R
  unfolding call_cb discard_each succeeded
  discard_dtx d =
      let (res, r) = call_cb cbs.discard_cb (λ f. f d.dtx_id) d.replicated in
      let (answers, ss) = discard_each d.dtx_id d.tx_idxs d.shards in
      let (finished, r') = call_cb cbs.done_cb (λ f. f d.dtx_id) r in
      if not res
      then (false, record d { replicated = r; state = failed })
      else if not (succeeded answers)
      then (false, record d { replicated = r; shards = ss; state = failed })
      else if not finished
      then (false, record d { replicated = r'; shards = ss; state = failed })
      else (true, record d { replicated = r'; shards = ss; state = done })

  -- The three phases of `execute`, last one first; each goes on with the state the one before left.
  unfoldable pub execute_discard :
      DistributedTx S R → Outcome (Option (List Bool) × DistributedTx S R)
  unfolding discard_dtx
  execute_discard d =
      let (res, d') = discard_dtx d in
      if not (is_state d.state discard)
      then ok (some d.complete_txs, d)
      else if res
      then ok (some d'.complete_txs, d')
      else ok (none, d')

  unfoldable pub execute_commit :
      DistributedTx S R → Outcome (Option (List Bool) × DistributedTx S R)
  unfolding commit_dtx execute_discard
  execute_commit d =
      let (res, d') = commit_dtx d.complete_txs d in
      if not (is_state d.state commit)
      then execute_discard d
      else if res
      then execute_discard d'
      else ok (none, d')

  -- `execute` after `prepare`: the flags are checked and kept.
  unfoldable pub execute_prepared :
      Outcome (Option (List Bool) × DistributedTx S R)
      → Outcome (Option (List Bool) × DistributedTx S R)
  unfolding execute_commit
  execute_prepared fatal = fatal
  execute_prepared (ok (none, d)) = ok (none, d)
  execute_prepared (ok (some res, d)) =
      if length res == length d.full_txs
      then execute_commit (record d { complete_txs = res })
      else fatal

  unfoldable pub execute : DistributedTx S R → Outcome (Option (List Bool) × DistributedTx S R)
  unfolding prepare_dtx execute_commit execute_prepared
  execute d =
      if is_state d.state prepare || is_state d.state start
      then execute_prepared (prepare_dtx d)
      else execute_commit d

  -- `add_tx`: the transaction goes to every shard it touches, with its index in the batch.
  unfoldable pub add_to_shards :
      CompactTx
      → ℕ
      → List S
      → List (List CompactTx)
      → List (List ℕ)
      → List (List CompactTx) × List (List ℕ)
  unfolding is_active
  add_to_shards tx i (s ∷ ss) (txs ∷ ts) (is ∷ idxs) =
      let (ts', idxs') = add_to_shards tx i ss ts idxs in
      if is_active (shard.in_range s) tx
      then ((txs ++ (tx ∷ [])) ∷ ts', (is ++ (i ∷ [])) ∷ idxs')
      else (txs ∷ ts', is ∷ idxs')
  add_to_shards tx i [] ts idxs = (ts, idxs)
  add_to_shards tx i (s ∷ ss) [] idxs = ([], idxs)
  add_to_shards tx i (s ∷ ss) (txs ∷ ts) [] = (txs ∷ ts, [])

  unfoldable pub add_tx : CompactTx → DistributedTx S R → ℕ × DistributedTx S R
  unfolding add_to_shards
  add_tx tx d =
      let (ts, idxs) = add_to_shards tx (length d.full_txs) d.shards d.txs d.tx_idxs in
      let full = d.full_txs ++ (tx ∷ []) in
      (length full - 1, record d { txs = ts; tx_idxs = idxs; full_txs = full })

  -- The loop of `recover_prepare`.
  unfoldable pub add_txs : List CompactTx → DistributedTx S R → DistributedTx S R
  unfolding add_tx
  add_txs [] d = d
  add_txs (tx ∷ txs) d = add_txs txs (add_tx tx d).1

  unfoldable pub recover_prepare : List CompactTx → DistributedTx S R → DistributedTx S R
  unfolding add_txs
  recover_prepare txs d = add_txs txs (record d { state = prepare })

  unfoldable pub recover_commit : List Bool → List (List ℕ) → DistributedTx S R → DistributedTx S R
  recover_commit complete_txs tx_idxs d = record d {
    state = commit;
    tx_idxs = tx_idxs;
    complete_txs = complete_txs;
  }

  unfoldable pub recover_discard : DistributedTx S R → DistributedTx S R
  recover_discard d = record d { state = discard }

  unfoldable pub size : DistributedTx S R → ℕ
  size d = max (length d.full_txs) (length d.complete_txs)
