-- ===== src/Client/Abandon.antt =====
-- src/uhs/client/client.cpp: what abandoning a pending transaction does.
use cbdc_forensics.Common.{
  ℕ, ◌≡◌, refl, ap, ◌∙◌, inl, inr, true, false, List, [], ◌∷◌, some, map, arith, ◌==◌,
  if◌then◌else◌, Option-cases, All, Map, find, put, remove, find-put, find-remove, member,
  IsDistinct,
}
use cbdc_forensics.Transaction.{Input, FullTx}
use cbdc_forensics.Transaction.Crypto.{Crypto}
use cbdc_forensics.Transaction.Ids.{input_hash}
use cbdc_forensics.Transaction.Wallet.{credit_all, confirm_inputs, update_balance, debit_all}
use cbdc_forensics.Client.{
  Client, check_pending, is_some, put_inputs, erase_inputs, release_inputs, abandon_pending,
  abandon_transaction,
}

module _ (c : Crypto) where
  abbrev pub IsHeld : Map Input → Input → Type 0
  IsHeld m inp = is_some (find (input_hash c inp) m) ≡ true

  remove-IsHeld :
      (k : ℕ) (m : Map Input) (inps : List Input)
      → member k (map (input_hash c) inps) ≡ false
      → All (IsHeld m) inps
      → All (IsHeld (remove k m)) inps
  unfolding member is_some
  remove-IsHeld k m [] new held = tt
  remove-IsHeld k m (inp ∷ inps) new held =
      let apart : (input_hash c inp == k) ≡ false = ground (arith, new) in
      (
        rw (find-remove (input_hash c inp) k m, apart) held.0,
        remove-IsHeld k m inps (ground (arith, new)) held.1,
      )

  release_inputs_lem :
      (inps : List Input) (cl : Client)
      → All (IsHeld cl.pending_spend) inps
      → IsDistinct (map (input_hash c) inps)
      → All (λ inp. check_pending inp cl.pending_txs ≡ false) inps
      → release_inputs c inps cl ≡ record cl {
        pending_spend = erase_inputs c inps cl.pending_spend;
        wallet = credit_all inps cl.wallet;
      }
  unfolding release_inputs erase_inputs credit_all confirm_inputs update_balance debit_all
  release_inputs_lem [] cl held distinct free = refl
  release_inputs_lem (inp ∷ inps) cl held distinct free =
      let cl' : Client = record cl {
        pending_spend = remove (input_hash c inp) cl.pending_spend;
        wallet = confirm_inputs (inp ∷ []) cl.wallet;
      } in
      rw (held.0, free.0)
        (release_inputs_lem inps cl'
          (remove-IsHeld (input_hash c inp) cl.pending_spend inps distinct.0 held.1) distinct.1
          free.1)

  -- A pending transaction, whose inputs have distinct hashes, are held and are in no other pending
  -- transaction, is abandoned: it is not pending, its inputs are not held, and the wallet has
  -- confirmed them.
  pub abandon_transaction_lem :
      (id : ℕ) (tx : FullTx) (cl : Client)
      → find id cl.pending_txs ≡ some tx
      → All (IsHeld cl.pending_spend) tx.inputs
      → IsDistinct (map (input_hash c) tx.inputs)
      → All (λ inp. check_pending inp (remove id cl.pending_txs) ≡ false) tx.inputs
      → abandon_transaction c id cl ≡ (
        true,
        record cl {
          pending_txs = remove id cl.pending_txs;
          pending_spend = erase_inputs c tx.inputs cl.pending_spend;
          wallet = credit_all tx.inputs cl.wallet;
        },
      )
  unfolding abandon_transaction abandon_pending
  abandon_transaction_lem id tx cl e held distinct free =
      ap (λ o. abandon_pending c id o cl) e
      ∙ ap (λ x. (true, x))
          (release_inputs_lem tx.inputs (record cl { pending_txs = remove id cl.pending_txs }) held
            distinct free)

  is_some-find-put :
      (j k : ℕ) (inp : Input) (m : Map Input)
      → is_some (find j (put k inp m)) ≡ (if j == k then true else is_some (find j m))
  unfolding is_some
  is_some-find-put j k inp m = elim (Option-cases (find k m)) [
    | inl new ↦ ground (arith, find-put j k inp m, new)
    | inr (other, old) ↦ ground (arith, find-put j k inp m, old)
  ]

  -- What was registered is held.
  find-put_inputs :
      (k : ℕ) (inps : List Input) (m : Map Input)
      → is_some (find k m) ≡ true
      → is_some (find k (put_inputs c inps m)) ≡ true
  unfolding put_inputs is_some
  find-put_inputs k [] m h = h
  find-put_inputs k (inp ∷ inps) m h =
      find-put_inputs k inps (put (input_hash c inp) inp m)
        (ground (arith, is_some-find-put k (input_hash c inp) inp m, h))

  pub put_inputs-IsHeld :
      (inps : List Input) (m : Map Input) → All (IsHeld (put_inputs c inps m)) inps
  unfolding put_inputs
  put_inputs-IsHeld [] m = tt
  put_inputs-IsHeld (inp ∷ inps) m = (
    find-put_inputs (input_hash c inp) inps (put (input_hash c inp) inp m)
        (ground (arith, is_some-find-put (input_hash c inp) (input_hash c inp) inp m)),
    put_inputs-IsHeld inps _,
  )
