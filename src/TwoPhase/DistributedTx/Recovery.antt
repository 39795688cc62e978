-- ===== src/TwoPhase/DistributedTx/Recovery.antt =====
-- src/uhs/twophase/coordinator/distributed_tx.cpp: a dtx that is recovered in its last phase, and
-- the locking shard behind the interface.
use cbdc_forensics.Common.{
  ℕ, ◌≡◌, refl, sym, ap, ◌∙◌, Bool, true, false, Option, none, some, List, [], ◌∷◌, arith, length,
  replicate, Bool-cases, inl, inr, ◌≢◌, if◌then◌else◌, find,
}
use cbdc_forensics.Transaction.{CompactTx}
use cbdc_forensics.Transaction.Crypto.{Crypto}
use cbdc_forensics.TwoPhase.Outcome.{Outcome, fatal, ok}
use cbdc_forensics.TwoPhase.LockingShard
use cbdc_forensics.TwoPhase.LockingShard.{LockingShard}
use cbdc_forensics.TwoPhase.DistributedTx.{
  ShardInterface, Callbacks, DistributedTx, new, discard_each, succeeded, discard_dtx, execute,
  execute_commit, execute_discard, recover_discard,
}
use cbdc_forensics.TwoPhase.DistributedTx.Progress.{IsAnswering}

module _ {S : Type 0} {R : Type 0} (shard : ShardInterface S) (cbs : Callbacks R) where
  -- No shard is asked when none has a transaction.
  discard_each_none :
      (dtx_id : ℕ) (ss : List S)
      → discard_each shard cbs dtx_id (replicate (length ss) []) ss ≡ ([], ss)
  unfolding discard_each
  discard_each_none dtx_id [] = refl
  discard_each_none dtx_id (s ∷ ss) = simp (discard_each_none dtx_id ss)

  recovered_discard :
      (dtx_id : ℕ) (ss : List S) (r : R)
      → (discard_dtx shard cbs (recover_discard shard cbs (new shard cbs dtx_id ss r))).1.shards
        ≡ ss
  unfolding discard_dtx recover_discard new succeeded
  recovered_discard dtx_id ss r = rw (discard_each_none dtx_id ss) (ground arith)

  either_shards :
      (res : Bool) (d' e : DistributedTx S R) (o p q : Option (List Bool)) (ss : List S)
      → d'.shards ≡ ss
      → if◌then◌else◌ {A = Outcome (Option (List Bool) × DistributedTx S R)} res
          (ok (p, d'))
          (ok (q, d'))
        ≡ ok (o, e)
      → e.shards ≡ ss
  either_shards true d' e o p q ss k h = let same : d' ≡ e = cc in ap (λ x. x.shards) (sym same) ∙ k
  either_shards false d' e o p q ss k h =
      let same : d' ≡ e = cc in ap (λ x. x.shards) (sym same) ∙ k

  -- When the execution of a new dtx that was recovered in its last phase returns, no shard was
  -- asked to discard the dtx: all shards are as they were.
  pub recover_discard_asks_none :
      (dtx_id : ℕ) (ss : List S) (r : R) (o : Option (List Bool)) (d' : DistributedTx S R)
      → execute shard cbs (recover_discard shard cbs (new shard cbs dtx_id ss r)) ≡ ok (o, d')
      → d'.shards ≡ ss
  unfolding execute execute_commit execute_discard recover_discard new
  recover_discard_asks_none dtx_id ss r o d' h =
      let (res, e) =
        discard_dtx shard cbs (recover_discard shard cbs (new shard cbs dtx_id ss r)) in
      either_shards res e d' o (some e.complete_txs) none ss (recovered_discard dtx_id ss r) h

module _ (c : Crypto) where
  -- A locking shard in the place of the interface; ended by a fatal line, it does not answer.
  answer : LockingShard → Outcome (Bool × LockingShard) → Bool × LockingShard
  answer s fatal = (false, s)
  answer s (ok r) = r

  unfoldable pub locking_shard_interface : ShardInterface LockingShard
  unfolding answer
  locking_shard_interface = record {
    lock_outputs = LockingShard.lock_outputs c;
    apply_outputs = λ flags dtx_id s. answer s (LockingShard.apply_outputs flags dtx_id s);
    discard_dtx = LockingShard.discard_dtx;
    in_range = λ s. LockingShard.hash_in_shard_range s.output_range;
  }

  length-lock_txs :
      (txs : List CompactTx) (s : LockingShard)
      → length (LockingShard.lock_txs c txs s).0 ≡ length txs
  unfolding LockingShard.lock_txs
  length-lock_txs [] s = refl
  length-lock_txs (tx ∷ txs) s =
      omega (arith, length-lock_txs txs (LockingShard.check_and_lock_tx c tx s).1)

  lock_outputs_new :
      (txs : List CompactTx) (dtx_id : ℕ) (s : LockingShard)
      → s.running ≡ true
      → find dtx_id s.prepared_dtxs ≡ none
      → (LockingShard.lock_outputs c txs dtx_id s).0 ≡ some (LockingShard.lock_txs c txs s).0
  unfolding LockingShard.lock_outputs
  lock_outputs_new txs dtx_id s run h = simp (run, h)

  lock_outputs_stopped :
      (txs : List CompactTx) (dtx_id : ℕ) (s : LockingShard)
      → s.running ≡ false
      → (LockingShard.lock_outputs c txs dtx_id s).0 ≡ none
  unfolding LockingShard.lock_outputs
  lock_outputs_stopped txs dtx_id s stopped = simp stopped

  stopped_no_answer :
      (txs : List CompactTx) (dtx_id : ℕ) (s : LockingShard)
      → s.running ≡ false
      → (res : List Bool) → (LockingShard.lock_outputs c txs dtx_id s).0 ≢ some res
  stopped_no_answer txs dtx_id s stopped res e =
      let no : (LockingShard.lock_outputs c txs dtx_id s).0 ≡ none =
        lock_outputs_stopped txs dtx_id s stopped in
      cc

  -- A locking shard that has not prepared the dtx answers with a flag for each transaction.
  pub locking_shard-IsAnswering :
      (s : LockingShard) (dtx_id : ℕ)
      → find dtx_id s.prepared_dtxs ≡ none
      → IsAnswering locking_shard_interface dtx_id s
  unfolding locking_shard_interface
  locking_shard-IsAnswering s dtx_id h txs res e = elim (Bool-cases s.running) [
    | inl run ↦
        let same : res ≡ (LockingShard.lock_txs c txs s).0 =
          cc (e, lock_outputs_new txs dtx_id s run h) in
        ap length same ∙ length-lock_txs txs s
    | inr stopped ↦ absurd (stopped_no_answer txs dtx_id s stopped res e)
  ]
