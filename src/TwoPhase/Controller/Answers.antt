-- ===== src/TwoPhase/Controller/Answers.antt =====
-- src/uhs/twophase/coordinator/controller.cpp, `batch_executor_func`: what the callbacks of a batch are
-- called with.
use cbdc_forensics.Common.{
  ℕ, ◌≤◌, ◌≡◌, refl, sym, ap, ◌∙◌, Bool, true, ◌||◌, Option, none, some, List, length, All,
}
use cbdc_forensics.Transaction.Crypto.{Crypto}
use cbdc_forensics.Transaction.Validation.{check_attestations}
use cbdc_forensics.TwoPhase.Outcome.{fatal, ok}
use cbdc_forensics.TwoPhase.DistributedTx.{
  ShardInterface, DistributedTx, start, prepare, is_state, execute,
}
use cbdc_forensics.TwoPhase.DistributedTx.Flags.{Result, GivesFlags, execute-GivesFlags}
use cbdc_forensics.TwoPhase.Controller.{
  Controller, Raft, respond, cbs_of, take_batch, after_dtx, answer_batch, run_dtx, run_batch,
}
use cbdc_forensics.TwoPhase.Controller.Batch.{
  Accepted, length-txs_of, answers_to, no_answers, respond-none, respond-some, IsBatch, Filled,
  Filled-IsBatch,
}

-- No callback has a result, or each has the flag at the place of its transaction.
abbrev pub IsAnswered :
    {C : Type 0} → Accepted C → Option (List Bool) → List (C × Option Bool) → Type 0
IsAnswered subs none answers = answers ≡ no_answers subs
IsAnswered subs (some flags) answers =
    (length flags ≡ length subs) × (answers ≡ answers_to subs flags)

module _ {S R C : Type 0} (c : Crypto) (shard : ShardInterface S) (raft : Raft R) where
  ran_flags :
      (n : ℕ) (o : Result S R) (s s'' : Controller S R C) (flags : List Bool)
      → GivesFlags n o
      → after_dtx s o ≡ ok (some flags, s'')
      → length flags ≡ n
  unfolding after_dtx
  ran_flags n fatal s s'' flags h e = cc
  ran_flags n (ok (none, d)) s s'' flags h e = cc
  ran_flags n (ok (some fs, d)) s s'' flags h e =
      let same : fs ≡ flags = cc in ap length (sym same) ∙ h

  run_dtx_flags :
      (d : DistributedTx S R) (s s'' : Controller S R C) (flags : List Bool)
      → d.state ≡ start
      → run_dtx shard raft d s ≡ ok (some flags, s'')
      → length flags ≡ length d.full_txs
  unfolding run_dtx
  run_dtx_flags d s s'' flags first e =
      let here : DistributedTx S R = record d { shards = s.shards; replicated = s.replicated } in
      let begins : (is_state here.state prepare || is_state here.state start) ≡ true =
        rw first refl in
      ran_flags (length d.full_txs) (execute shard (cbs_of raft d) here) s s'' flags
        (execute-GivesFlags shard (cbs_of raft d) here begins) e

  respond-IsAnswered :
      (subs : Accepted C) (s s' s'' : Controller S R C) (res : Option (List Bool))
      → IsBatch c subs s
      → run_dtx shard raft s.current_batch s' ≡ ok (res, s'')
      → IsAnswered subs res (respond res s.current_txs)
  respond-IsAnswered subs s s' s'' none h e = ap (respond none) h.known ∙ respond-none 0 subs
  respond-IsAnswered subs s s' s'' (some flags) h e =
      let n : length flags ≡ length subs =
        run_dtx_flags s.current_batch s' s'' flags h.starts e
        ∙ ap length h.full
        ∙ length-txs_of subs in
      (n, ap (respond (some flags)) h.known ∙ respond-some subs flags n)

  -- A coordinator took a batch and answered calls of `execute_transaction`, accepting some
  -- (`Filled`): these are at most `batch_size`, and attested. When it takes the batch of these and
  -- the execution of its dtx ends, with flags or without, then the callbacks are called so: without
  -- flags, each without a result; and with flags, of which there is one for each transaction, each
  -- with the flag at the place of its transaction.
  pub run_batch_answers :
      (s₀ s s'' : Controller S R C) (subs : Accepted C) (dtx_id : ℕ) (res : Option (List Bool))
      → Filled c shard raft s₀ subs s
      → run_dtx shard raft s.current_batch (take_batch shard raft dtx_id s).2 ≡ ok (res, s'')
      → (length subs ≤ s.batch_size)
        × All
            (λ sub.
              check_attestations c sub.0 s.sentinel_public_keys s.attestation_threshold ≡ true)
            subs
        × (answers : List (C × Option Bool)) × (run_batch shard raft s.current_batch s.current_txs
              (take_batch shard raft dtx_id s).2
            ≡ ok (answers, s''))
        × IsAnswered subs res answers
  unfolding run_batch answer_batch
  run_batch_answers s₀ s s'' subs dtx_id res filled e =
      let h : IsBatch c subs s = Filled-IsBatch c shard raft s₀ s subs filled in
      (
        h.room,
        h.attested,
        respond res s.current_txs,
        ap (answer_batch s.current_txs) e,
        respond-IsAnswered subs s (take_batch shard raft dtx_id s).2 s'' res h e,
      )
