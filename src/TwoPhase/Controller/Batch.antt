-- ===== src/TwoPhase/Controller/Batch.antt =====
-- src/uhs/twophase/coordinator/controller.cpp: the batch that `execute_transaction` fills, and the
-- answers to its callbacks.
use cbdc_forensics.Common.{
  ℕ, suc, ◌+◌, ◌-◌, ◌<◌, ◌≤◌, ◌≡◌, refl, sym, ap, subst, ◌∙◌, inl, inr, Bool, true, false, not,
  ◌&&◌, Option, none, some, List, [], ◌∷◌, ◌++◌, arith, length, length-append, get_or, All,
  All-append, ltb, if◌then◌else◌, Option-cases, Map, find, put_new,
}
use cbdc_forensics.Transaction.{CompactTx}
use cbdc_forensics.Transaction.Crypto.{Crypto}
use cbdc_forensics.Transaction.Validation.{check_attestations}
use cbdc_forensics.TwoPhase.DistributedTx.{ShardInterface, start, add_tx, new}
use cbdc_forensics.TwoPhase.Controller.{
  Controller, Raft, respond, add_to_batch, is_new, execute_transaction, take_batch,
}

-- The transactions accepted for a batch, with their callbacks, in order.
abbrev pub Accepted : Type 0 → Type 0
Accepted C = List (CompactTx × C)

abbrev pub txs_of : {C : Type 0} → Accepted C → List CompactTx
txs_of [] = []
txs_of ((tx, cb) ∷ subs) = tx ∷ txs_of subs

abbrev pub numbered : {C : Type 0} → ℕ → Accepted C → Map (C × ℕ)
numbered i [] = []
numbered i ((tx, cb) ∷ subs) = (tx.id, (cb, i)) ∷ numbered (suc i) subs

-- The callback of each gets the flag at its place in the batch.
unfoldable pub answers_to : {C : Type 0} → Accepted C → List Bool → List (C × Option Bool)
answers_to [] flags = []
answers_to ((tx, cb) ∷ subs) [] = []
answers_to ((tx, cb) ∷ subs) (flag ∷ flags) = (cb, some flag) ∷ answers_to subs flags

unfoldable pub no_answers : {C : Type 0} → Accepted C → List (C × Option Bool)
no_answers [] = []
no_answers ((tx, cb) ∷ subs) = (cb, none) ∷ no_answers subs

module _ {C : Type 0} where
  numbered-append :
      (i : ℕ) (subs : Accepted C) (tx : CompactTx) (cb : C)
      → numbered i (subs ++ ((tx, cb) ∷ []))
        ≡ numbered i subs ++ ((tx.id, (cb, i + length subs)) ∷ [])
  numbered-append i [] tx cb = ap (λ k. (tx.id, (cb, k)) ∷ []) (omega arith)
  numbered-append i ((t, b) ∷ subs) tx cb =
      ap (λ m. (t.id, (b, i)) ∷ m)
        (numbered-append (suc i) subs tx cb
          ∙ ap (λ k. numbered (suc i) subs ++ ((tx.id, (cb, k)) ∷ [])) (omega arith))

  pub length-numbered : (i : ℕ) (subs : Accepted C) → length (numbered i subs) ≡ length subs
  length-numbered i [] = refl
  length-numbered i ((tx, cb) ∷ subs) = ap suc (length-numbered (suc i) subs)

  txs_of-append :
      (subs : Accepted C) (tx : CompactTx) (cb : C)
      → txs_of (subs ++ ((tx, cb) ∷ [])) ≡ txs_of subs ++ (tx ∷ [])
  txs_of-append [] tx cb = refl
  txs_of-append ((t, b) ∷ subs) tx cb = ap (λ m. t ∷ m) (txs_of-append subs tx cb)

  pub length-txs_of : (subs : Accepted C) → length (txs_of subs) ≡ length subs
  length-txs_of [] = refl
  length-txs_of ((tx, cb) ∷ subs) = ap suc (length-txs_of subs)

  pub respond-none : (i : ℕ) (subs : Accepted C) → respond none (numbered i subs) ≡ no_answers subs
  unfolding respond no_answers
  respond-none i [] = refl
  respond-none i ((tx, cb) ∷ subs) = ap (λ m. (cb, none) ∷ m) (respond-none (suc i) subs)

  respond_shift :
      (i : ℕ) (subs : Accepted C) (flag : Bool) (flags : List Bool)
      → respond (some (flag ∷ flags)) (numbered (suc i) subs)
        ≡ respond (some flags) (numbered i subs)
  unfolding respond
  respond_shift i [] flag flags = refl
  respond_shift i ((tx, cb) ∷ subs) flag flags =
      ap (λ m. (cb, some (get_or flags i false)) ∷ m) (respond_shift (suc i) subs flag flags)

  pub respond-some :
      (subs : Accepted C) (flags : List Bool)
      → length flags ≡ length subs
      → respond (some flags) (numbered 0 subs) ≡ answers_to subs flags
  unfolding respond answers_to
  respond-some [] flags h = refl
  respond-some ((tx, cb) ∷ subs) [] h = absurd (omega (arith, h))
  respond-some ((tx, cb) ∷ subs) (flag ∷ flags) h =
      ap (λ m. (cb, some flag) ∷ m)
        (respond_shift 0 subs flag flags ∙ respond-some subs flags (omega (arith, h)))

module _ {S R C : Type 0} (c : Crypto) where
  -- The current batch is of the accepted transactions.
  pub record IsBatch (subs : Accepted C) (s : Controller S R C) : Type 0 where
    pub full : s.current_batch.full_txs ≡ txs_of subs
    pub known : s.current_txs ≡ numbered 0 subs
    pub room : length subs ≤ s.batch_size
    pub attested :
        All
          (λ sub. check_attestations c sub.0 s.sentinel_public_keys s.attestation_threshold ≡ true)
          subs
    pub starts : s.current_batch.state ≡ start

module _ {S R C : Type 0} (c : Crypto) (shard : ShardInterface S) (raft : Raft R) where
  absent :
      (tx : CompactTx) (s : Controller S R C) → is_new tx s ≡ true → find tx.id s.current_txs ≡ none
  absent tx s h = elim (Option-cases (find tx.id s.current_txs)) [
    | inl none_there ↦ none_there
    | inr (entry, e) ↦ absurd (ground (arith, h, e))
  ]

  add_to_batch-IsBatch :
      (tx : CompactTx) (cb : C) (subs : Accepted C) (s : Controller S R C)
      → check_attestations c tx s.sentinel_public_keys s.attestation_threshold ≡ true
      → length s.current_txs < s.batch_size
      → find tx.id s.current_txs ≡ none
      → IsBatch c subs s
      → IsBatch c (subs ++ ((tx, cb) ∷ [])) (add_to_batch shard raft tx cb s)
  unfolding add_to_batch add_tx
  add_to_batch-IsBatch tx cb subs s good room fresh h =
      let n : length s.current_batch.full_txs ≡ length subs =
        ap length h.full ∙ length-txs_of subs in
      let idx : length (s.current_batch.full_txs ++ (tx ∷ [])) - 1 ≡ 0 + length subs =
        omega (arith, n, length-append s.current_batch.full_txs (tx ∷ [])) in
      record {
        full = ap (λ m. m ++ (tx ∷ [])) h.full ∙ sym (txs_of-append subs tx cb);
        known =
            put_new tx.id (cb, length (s.current_batch.full_txs ++ (tx ∷ [])) - 1) s.current_txs
              fresh
            ∙ ap (λ k. s.current_txs ++ ((tx.id, (cb, k)) ∷ [])) idx
            ∙ ap (λ m. m ++ ((tx.id, (cb, 0 + length subs)) ∷ [])) h.known
            ∙ sym (numbered-append 0 subs tx cb);
        room = omega (
          arith,
          length-append subs ((tx, cb) ∷ []),
          room,
          ap length h.known,
          length-numbered 0 subs,
        );
        attested = All-append _ subs ((tx, cb) ∷ []) h.attested (good, tt);
        starts = h.starts;
      }

  -- A call that is not left waiting gives a batch again.
  abbrev GivesBatch : Accepted C → CompactTx → C → Option (Bool × Controller S R C) → Type 0
  GivesBatch subs tx cb none = Unit {0}
  GivesBatch subs tx cb (some (added, s')) =
      IsBatch c (if added then subs ++ ((tx, cb) ∷ []) else subs) s'

  if-GivesBatch :
      (subs : Accepted C) (tx : CompactTx) (cb : C) (b : Bool)
      (x y : Option (Bool × Controller S R C))
      → (b ≡ true → GivesBatch subs tx cb x)
      → (b ≡ false → GivesBatch subs tx cb y)
      → GivesBatch subs tx cb (if b then x else y)
  if-GivesBatch subs tx cb true x y h k = h refl
  if-GivesBatch subs tx cb false x y h k = k refl

  execute_transaction-GivesBatch :
      (tx : CompactTx) (cb : C) (subs : Accepted C) (s : Controller S R C)
      → IsBatch c subs s
      → GivesBatch subs tx cb (execute_transaction c shard raft tx cb s)
  unfolding execute_transaction
  execute_transaction-GivesBatch tx cb subs s h =
      let good = check_attestations c tx s.sentinel_public_keys s.attestation_threshold in
      let full = not (ltb (length s.current_txs) s.batch_size) && s.running in
      let no : Option (Bool × Controller S R C) = some (false, s) in
      let yes : Option (Bool × Controller S R C) = some (true, add_to_batch shard raft tx cb s) in
      let added = if is_new tx s then yes else no in
      let awake = if not s.running then no else added in
      let waited = if full then none else awake in
      let attested = if not good then no else waited in
      let choose = if-GivesBatch subs tx cb in
      choose (not (raft.is_leader s.replicated)) no attested (λ e. h)
        (λ e.
          choose (not good) no waited (λ e. h)
            (λ ok.
              choose full none awake (λ e. tt)
                (λ room.
                  choose (not s.running) no added (λ e. h)
                    (λ runs.
                      choose (is_new tx s) yes no
                        (λ fresh.
                          add_to_batch-IsBatch tx cb subs s (ground (arith, ok))
                            (ground (arith, room, runs)) (absent tx s fresh) h)
                        (λ e. h)))))

  -- The calls of `execute_transaction` on a coordinator after it has taken a batch: a call is answered
  -- `true` and its transaction is accepted, or `false`.
  pub data Filled (s₀ : Controller S R C) : Accepted C → Controller S R C → Type 0 where
    taken : (dtx_id : ℕ) → Filled s₀ [] (take_batch shard raft dtx_id s₀).2
    accepted :
        (tx : CompactTx) (cb : C) (subs : Accepted C) (s s' : Controller S R C)
        → Filled s₀ subs s
        → execute_transaction c shard raft tx cb s ≡ some (true, s')
        → Filled s₀ (subs ++ ((tx, cb) ∷ [])) s'
    refused :
        (tx : CompactTx) (cb : C) (subs : Accepted C) (s s' : Controller S R C)
        → Filled s₀ subs s
        → execute_transaction c shard raft tx cb s ≡ some (false, s')
        → Filled s₀ subs s'

  pub Filled-IsBatch :
      (s₀ s : Controller S R C) (subs : Accepted C) → Filled s₀ subs s → IsBatch c subs s
  unfolding take_batch new
  Filled-IsBatch s₀ _ _ (taken dtx_id) = record {
    full = refl;
    known = refl;
    room = omega arith;
    attested = tt;
    starts = refl;
  }
  Filled-IsBatch s₀ _ _ (accepted tx cb subs s s' before e) =
      subst (GivesBatch subs tx cb) e
        (execute_transaction-GivesBatch tx cb subs s (Filled-IsBatch s₀ s subs before))
  Filled-IsBatch s₀ _ _ (refused tx cb subs s s' before e) =
      subst (GivesBatch subs tx cb) e
        (execute_transaction-GivesBatch tx cb subs s (Filled-IsBatch s₀ s subs before))
