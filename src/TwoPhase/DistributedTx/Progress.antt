-- ===== src/TwoPhase/DistributedTx/Progress.antt =====
-- src/uhs/twophase/coordinator/distributed_tx.cpp: the two lists kept for each shard, and the
-- checks of `prepare` and `execute` that end the coordinator.
use cbdc_forensics.Common.{
  ℕ, zero, suc, ◌≡◌, ◌≢◌, refl, sym, subst, Bool, true, false, not, ◌||◌, Option, none, some, List,
  [], ◌∷◌, ◌++◌, arith, length, set, replicate, ◌==◌, if◌then◌else◌, All, length-set, length-append,
  length-replicate,
}
use cbdc_forensics.Transaction.{CompactTx}
use cbdc_forensics.TwoPhase.Outcome.{Outcome, fatal, ok}
use cbdc_forensics.TwoPhase.DistributedTx.{
  ShardInterface, Callbacks, DistributedTx, mark, merge, lock_each, prepare_dtx, new, conclude,
  call_cb, add_tx, add_txs, add_to_shards, is_active, recover_prepare, is_state, discard_dtx,
  commit_dtx, start, prepare, commit, discard, failed, execute, execute_commit, execute_discard,
  execute_prepared,
}

-- As many indices as transactions for each shard.
abbrev pub IsAligned : List (List ℕ) → List (List CompactTx) → Type 0
IsAligned [] [] = Unit {0}
IsAligned [] (txs ∷ ts) = ⊥
IsAligned (is ∷ idxs) [] = ⊥
IsAligned (is ∷ idxs) (txs ∷ ts) = (length is ≡ length txs) × IsAligned idxs ts

-- An answer of a shard has a flag for each index.
abbrev IsCounted : Option (List Bool) × List ℕ → Type 0
IsCounted (none, idxs) = Unit {0}
IsCounted (some res, idxs) = length res ≡ length idxs

length-mark :
    (rs : List Bool) (idxs : List ℕ) (ret : List Bool) → length (mark rs idxs ret) ≡ length ret
unfolding mark
length-mark [] idxs ret = refl
length-mark (r ∷ rs) [] ret = refl
length-mark (true ∷ rs) (i ∷ idxs) ret = length-mark rs idxs ret
length-mark (false ∷ rs) (i ∷ idxs) ret =
    omega (arith, length-mark rs idxs (set ret i false), length-set ret i false)

-- What merging counted answers comes to: a failure, or a flag for each transaction.
abbrev IsMerged : ℕ → Outcome (Option (List Bool)) → Type 0
IsMerged n fatal = ⊥
IsMerged n (ok none) = Unit {0}
IsMerged n (ok (some ret)) = length ret ≡ n

merge-IsMerged :
    (futures : List (Option (List Bool) × List ℕ)) (ret : List Bool) (n : ℕ)
    → All IsCounted futures
    → length ret ≡ n
    → IsMerged n (merge futures ret)
unfolding merge
merge-IsMerged [] ret n c e = e
merge-IsMerged ((none, idxs) ∷ futures) ret n c e = tt
merge-IsMerged ((some res, idxs) ∷ futures) ret n c e =
    let same : (length res == length idxs) ≡ true = ground (arith, c.0) in
    let rest =
      merge-IsMerged futures (mark res idxs ret) n c.1 (omega (arith, length-mark res idxs ret)) in
    rw same rest

-- A shard in the state `s` answers with a flag for each transaction it is asked to lock for the dtx.
abbrev pub IsAnswering : {S : Type 0} → ShardInterface S → ℕ → S → Type 0
IsAnswering shard dtx_id s =
    (txs : List CompactTx) (res : List Bool)
    → (shard.lock_outputs txs dtx_id s).0 ≡ some res
    → length res ≡ length txs

module _ {S : Type 0} {R : Type 0} (shard : ShardInterface S) (cbs : Callbacks R) where
  answer-IsCounted :
      (o : Option (List Bool)) (is : List ℕ) (n : ℕ)
      → ((res : List Bool) → o ≡ some res → length res ≡ n)
      → length is ≡ n
      → IsCounted (o, is)
  answer-IsCounted none is n h e = tt
  answer-IsCounted (some res) is n h e = omega (arith, h res refl, e)

  lock_each-IsCounted :
      (dtx_id : ℕ) (idxs : List (List ℕ)) (ts : List (List CompactTx)) (ss : List S)
      → All (IsAnswering shard dtx_id) ss
      → IsAligned idxs ts
      → All IsCounted (lock_each shard cbs dtx_id idxs ts ss).0
  unfolding lock_each
  lock_each-IsCounted dtx_id [] ts ss h a = tt
  lock_each-IsCounted dtx_id (is ∷ idxs) [] ss h a = absurd a
  lock_each-IsCounted dtx_id ([] ∷ idxs) (txs ∷ ts) [] h a = tt
  lock_each-IsCounted dtx_id ((i ∷ is) ∷ idxs) (txs ∷ ts) [] h a = tt
  lock_each-IsCounted dtx_id ([] ∷ idxs) (txs ∷ ts) (s ∷ ss) h a =
      lock_each-IsCounted dtx_id idxs ts ss h.1 a.1
  lock_each-IsCounted dtx_id ((i ∷ is) ∷ idxs) (txs ∷ ts) (s ∷ ss) h a = (
    answer-IsCounted (shard.lock_outputs txs dtx_id s).0 (i ∷ is) (length txs) (h.0 txs) a.0,
    lock_each-IsCounted dtx_id idxs ts ss h.1 a.1,
  )

  if_returns :
      {A : Type 0} (b : Bool) (x y : Outcome A)
      → x ≢ fatal
      → y ≢ fatal
      → (if b then x else y) ≢ fatal
  if_returns true x y p q = p
  if_returns false x y p q = q

  ok_returns : {A : Type 0} (a : A) → ok a ≢ fatal
  ok_returns a h = cc

  execute_discard_returns : (d : DistributedTx S R) → execute_discard shard cbs d ≢ fatal
  unfolding execute_discard
  execute_discard_returns d =
      let (res, d') = discard_dtx shard cbs d in
      if_returns (not (is_state d.state discard)) (ok (some d.complete_txs, d))
        (if res then ok (some d'.complete_txs, d') else ok (none, d'))
        (ok_returns (some d.complete_txs, d))
        (if_returns res (ok (some d'.complete_txs, d')) (ok (none, d'))
          (ok_returns (some d'.complete_txs, d')) (ok_returns (none, d')))

  -- Committing and discarding end the coordinator in no case.
  execute_commit_returns : (d : DistributedTx S R) → execute_commit shard cbs d ≢ fatal
  unfolding execute_commit
  execute_commit_returns d =
      let (res, d') = commit_dtx shard cbs d.complete_txs d in
      let next = execute_discard shard cbs d' in
      if_returns (not (is_state d.state commit)) (execute_discard shard cbs d)
        (if res then next else ok (none, d')) (execute_discard_returns d)
        (if_returns res next (ok (none, d')) (execute_discard_returns d') (ok_returns (none, d')))

  -- What `prepare` hands to `execute`: a failure, or a flag for each transaction.
  abbrev IsReady : Outcome (Option (List Bool) × DistributedTx S R) → Type 0
  IsReady fatal = ⊥
  IsReady (ok (none, d)) = Unit {0}
  IsReady (ok (some ret, d)) = length ret ≡ length d.full_txs

  conclude-IsReady :
      (m : Outcome (Option (List Bool))) (d : DistributedTx S R)
      → IsMerged (length d.full_txs) m
      → IsReady (conclude shard cbs m d)
  unfolding conclude
  conclude-IsReady fatal d h = h
  conclude-IsReady (ok none) d h = tt
  conclude-IsReady (ok (some ret)) d h = h

  if-IsReady :
      (b : Bool) (x : DistributedTx S R) (o : Outcome (Option (List Bool) × DistributedTx S R))
      → IsReady o
      → IsReady (if not b then ok (none, x) else o)
  if-IsReady true x o h = h
  if-IsReady false x o h = tt

  prepare_dtx-IsReady :
      (d : DistributedTx S R)
      → All (IsAnswering shard d.dtx_id) d.shards
      → IsAligned d.tx_idxs d.txs
      → IsReady (prepare_dtx shard cbs d)
  unfolding prepare_dtx
  prepare_dtx-IsReady d h a =
      let (futures, ts, ss) = lock_each shard cbs d.dtx_id d.tx_idxs d.txs d.shards in
      let all = replicate (length d.full_txs) true in
      let (res, r) = call_cb shard cbs cbs.prepare_cb (λ f. f d.dtx_id d.full_txs) d.replicated in
      let asked = record d { replicated = r; txs = ts; shards = ss } in
      if-IsReady res (record d { replicated = r; state = failed })
        (conclude shard cbs (merge futures all) asked)
        (conclude-IsReady (merge futures all) asked (
          merge-IsMerged futures all (length d.full_txs)
            (lock_each-IsCounted d.dtx_id d.tx_idxs d.txs d.shards h a)
            (length-replicate (length d.full_txs) true)))

  execute_prepared_returns :
      (o : Outcome (Option (List Bool) × DistributedTx S R))
      → IsReady o
      → execute_prepared shard cbs o ≢ fatal
  unfolding execute_prepared
  execute_prepared_returns fatal h = absurd h
  execute_prepared_returns (ok (none, d)) h = λ e. cc
  execute_prepared_returns (ok (some ret, d)) h =
      let same : (length ret == length d.full_txs) ≡ true = ground (arith, h) in
      rw same (execute_commit_returns (record d { complete_txs = ret }))

  execute_returns :
      (d : DistributedTx S R)
      → All (IsAnswering shard d.dtx_id) d.shards
      → IsAligned d.tx_idxs d.txs
      → execute shard cbs d ≢ fatal
  unfolding execute
  execute_returns d h a =
      if_returns (is_state d.state prepare || is_state d.state start)
        (execute_prepared shard cbs (prepare_dtx shard cbs d)) (execute_commit shard cbs d)
        (execute_prepared_returns (prepare_dtx shard cbs d) (prepare_dtx-IsReady d h a))
        (execute_commit_returns d)

  abbrev IsAlignedPair : List (List CompactTx) × List (List ℕ) → Type 0
  IsAlignedPair p = IsAligned p.1 p.0

  if-IsAlignedPair :
      (b : Bool) (p q : List (List CompactTx) × List (List ℕ))
      → IsAlignedPair p
      → IsAlignedPair q
      → IsAlignedPair (if b then p else q)
  if-IsAlignedPair true p q h k = h
  if-IsAlignedPair false p q h k = k

  -- `add_tx` on the lists of the shards.
  add_to_shards-IsAligned :
      (tx : CompactTx) (i : ℕ) (ss : List S) (ts : List (List CompactTx)) (idxs : List (List ℕ))
      → IsAligned idxs ts
      → let (ts', idxs') = add_to_shards shard cbs tx i ss ts idxs in IsAligned idxs' ts'
  unfolding add_to_shards
  add_to_shards-IsAligned tx i [] ts idxs a = a
  add_to_shards-IsAligned tx i (s ∷ ss) [] [] a = a
  add_to_shards-IsAligned tx i (s ∷ ss) [] (is ∷ idxs) a = absurd a
  add_to_shards-IsAligned tx i (s ∷ ss) (txs ∷ ts) [] a = absurd a
  add_to_shards-IsAligned tx i (s ∷ ss) (txs ∷ ts) (is ∷ idxs) a =
      let (ts', idxs') = add_to_shards shard cbs tx i ss ts idxs in
      let more = add_to_shards-IsAligned tx i ss ts idxs a.1 in
      let longer : length (is ++ (i ∷ [])) ≡ length (txs ++ (tx ∷ [])) =
        omega (arith, a.0, length-append is (i ∷ []), length-append txs (tx ∷ [])) in
      if-IsAlignedPair (is_active (shard.in_range s) tx)
        ((txs ++ (tx ∷ [])) ∷ ts', (is ++ (i ∷ [])) ∷ idxs') (txs ∷ ts', is ∷ idxs') (longer, more)
        (a.0, more)

  -- Neither the dtx's identifier nor the shards change, and the lists stay aligned.
  IsReadyFor : DistributedTx S R → DistributedTx S R → Type 0
  IsReadyFor d d' = IsAligned d'.tx_idxs d'.txs × (d'.dtx_id ≡ d.dtx_id) × (d'.shards ≡ d.shards)

  add_txs-IsReadyFor :
      (txs : List CompactTx) (d : DistributedTx S R)
      → IsAligned d.tx_idxs d.txs
      → IsReadyFor d (add_txs shard cbs txs d)
  unfolding add_txs add_tx IsReadyFor
  add_txs-IsReadyFor [] d a = (a, refl, refl)
  add_txs-IsReadyFor (tx ∷ txs) d a =
      add_txs-IsReadyFor txs (add_tx shard cbs tx d).1
        (add_to_shards-IsAligned tx (length d.full_txs) d.shards d.txs d.tx_idxs a)

  new-IsAligned : (n : ℕ) → IsAligned (replicate n []) (replicate n [])
  new-IsAligned zero = tt
  new-IsAligned (suc n) = (refl, new-IsAligned n)

  -- The execution of a new dtx, recovered in its first phase with any transactions, does not end
  -- the coordinator by a fatal line, when every shard that answers the dtx at all has a flag for
  -- each transaction it is asked to lock.
  pub execute_recovered_returns :
      (dtx_id : ℕ) (ss : List S) (r : R) (txs : List CompactTx)
      → All (IsAnswering shard dtx_id) ss
      → execute shard cbs (recover_prepare shard cbs txs (new shard cbs dtx_id ss r)) ≢ fatal
  unfolding recover_prepare new IsReadyFor
  execute_recovered_returns dtx_id ss r txs h =
      let d = record (new shard cbs dtx_id ss r) { state = prepare } in
      let (aligned, id, shards) = add_txs-IsReadyFor txs d (new-IsAligned (length ss)) in
      let d' = add_txs shard cbs txs d in
      let answering : All (IsAnswering shard d'.dtx_id) d'.shards =
        subst (λ n. All (IsAnswering shard n) d'.shards) (sym id)
          (subst (All (IsAnswering shard dtx_id)) (sym shards) h) in
      execute_returns d' answering aligned
