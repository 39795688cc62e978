-- ===== src/Transaction/Wallet/Accepted.antt =====
-- src/uhs/transaction/wallet.cpp and validation.cpp: a transaction that `send_to` makes and signs passes
-- `check_tx`.
use native.Mathlib.Nat.{zero-mul}
use cbdc_forensics.Common.{
  ℕ, ◌+◌, ◌-◌, ◌*◌, ◌^◌, ◌<◌, ◌≤◌, ◌≡◌, ◌≢◌, refl, sym, ap, subst, ◌∙◌, inl, inr, Bool, true, List,
  [], ◌∷◌, none, some, arith, length, get_elem?, All, All-map, All-prefix, sum_by, ltb, Bool-cases,
}
use cbdc_forensics.Transaction.{Input, FullTx}
use cbdc_forensics.Transaction.Crypto.{Crypto}
use cbdc_forensics.Transaction.Ids.{tx_id}
use cbdc_forensics.Transaction.Validation.{
  check_tx, input_value, output_value, commitment_at, witness_at,
}
use cbdc_forensics.Transaction.Validation.Loops.{AllAt, AllAt-pointwise}
use cbdc_forensics.Transaction.Validation.Inputs.{IsDistinctInputs, distinct_prefix}
use cbdc_forensics.Transaction.Validation.Witness.{IsAuthorised}
use cbdc_forensics.Transaction.Validation.Accept.{IsValidTx, IsValidTx-check_tx}
use cbdc_forensics.Transaction.Wallet.{Wallet, Draw, is_spendable, balance, sign}
use cbdc_forensics.Transaction.Wallet.Spend.{
  Gathered, add_utxo_witness, below, gather_coins, take_enough, accumulate_inputs, drop_fronts,
  change, pay_to, pay, finish, send_to,
}
use cbdc_forensics.Transaction.Wallet.Coins.{
  Gathers, gather_coins-Gathers, HasSeedRange, add_utxo_witness-Adds,
}
use cbdc_forensics.Transaction.Wallet.Ledger.{
  IsSound, KeepsRest, sum_by-append, drop_fronts-KeepsRest,
}
use cbdc_forensics.Transaction.Wallet.Funds.{IsReady, funds, accumulate_inputs-eq_none}
use cbdc_forensics.Transaction.Wallet.Signing.{
  IsSignatureScheme, HasKeys, AllSigned, sign-AllSigned,
}
use cbdc_forensics.Transaction.Wallet.Keyring.{change-HasKeys, KeepsRest-HasKeys, KeepsRest-Extends}

length_zero : (xs : List Input) → length xs ≡ 0 → xs ≡ []
length_zero [] h = refl
length_zero (x ∷ xs) h = absurd (omega (arith, h))

module _ (c : Crypto) where
  -- Outputs for the payee and for change take all of the inputs.
  change_outputs :
      (total amount : ℕ) (draw : Draw) (w : Wallet)
      → amount ≤ total
      → total < 2 ^ 64
      → let outs = (change c total amount draw w).0 in
        All (λ out. 1 ≤ output_value out) outs × (amount + sum_by output_value outs ≡ total)
  unfolding change
  change_outputs total amount draw w enough lim = elim (Bool-cases (ltb amount total)) [
    | inl over ↦ rw over ((ground arith, tt), ground arith)
    | inr exact ↦ rw exact (tt, ground arith)
  ]

  -- A coin of the wallet's: it is worth something, and the wallet has its key.
  abbrev pub IsCoin : Wallet → Input → Type 0
  IsCoin w inp = (1 ≤ input_value inp) × (is_spendable inp w ≡ true)

  signed-IsAuthorised :
      (tx : FullTx) (wits : List (List ℕ))
      → AllSigned c (tx_id c tx) tx.inputs wits
      → let signed = record tx { witness = wits } in
        AllAt
          (λ i wit. IsAuthorised c (tx_id c signed) (commitment_at signed i) (witness_at signed i))
          0
          wits
  unfolding tx_id
  signed-IsAuthorised tx wits (len, all) =
      let signed : FullTx = record tx { witness = wits } in
      let good =
        λ (i : ℕ). IsAuthorised c (tx_id c signed) (commitment_at signed i) (witness_at signed i) in
      AllAt-pointwise good 0 wits
        (λ i lt. subst good {x = i} {y = i + 0} (omega arith) (all i (omega (arith, lt, len))))

  -- A payment of distinct coins, signed with their keys, is valid.
  payment-IsValidTx :
      (tx : FullTx) (w : Wallet)
      → IsSignatureScheme c
      → HasKeys c w
      → All (IsCoin w) tx.inputs
      → IsDistinctInputs tx.inputs
      → tx.inputs ≢ []
      → tx.outputs ≢ []
      → All (λ out. 1 ≤ output_value out) tx.outputs
      → sum_by input_value tx.inputs ≡ sum_by output_value tx.outputs
      → sum_by input_value tx.inputs < 2 ^ 64
      → (signed : FullTx) × (sign c tx w ≡ some signed)
        × (signed.outputs ≡ tx.outputs)
        × (check_tx c signed ≡ none)
  payment-IsValidTx tx w law keys coins distinct ins outs positive equal fits =
      let (wits, e, all) =
        sign-AllSigned c tx w law keys (All-map (λ inp k. k.1) tx.inputs coins) in
      let signed : FullTx = record tx { witness = wits } in
      let valid : IsValidTx c signed = record {
        has_inputs = ins;
        has_outputs = outs;
        witnessed = sym all.0;
        distinct = distinct;
        balanced = record {
          inputs_positive = All-map (λ inp k. k.0) tx.inputs coins;
          outputs_positive = positive;
          equal = equal;
          fits = fits;
        };
        authorised = signed-IsAuthorised tx wits all;
      } in
      (signed, e, refl, IsValidTx-check_tx c signed valid)

  -- `accumulate_inputs` with the amount in the wallet: a prefix of the queue, worth the amount.
  accumulate_inputs-eq_some :
      (amount : ℕ) (w : Wallet)
      → IsReady w
      → funds w < 2 ^ 64
      → amount ≤ balance w
      → (g : Gathered) × (w' : Wallet) × (n : ℕ) × (accumulate_inputs c amount w
          ≡ (some g, drop_fronts n w'))
        × Gathers (below amount) w g w'
        × (amount ≤ g.total)
  unfolding accumulate_inputs take_enough
  accumulate_inputs-eq_some amount w r fits enough =
      let (g, w') = gather_coins c add_utxo_witness (below amount) w in
      let h : Gathers (below amount) w g w' =
        gather_coins-Gathers c add_utxo_witness (below amount) w add_utxo_witness-Adds r.1 in
      let n = length g.inputs - g.seeded in
      elim (Bool-cases (ltb g.total amount)) [
        | inl short ↦
            let fails : (accumulate_inputs c amount w).0 ≡ none = rw short refl in
            absurd
              (omega (arith, ((accumulate_inputs-eq_none c amount w r fits).0).0 fails, enough))
        | inr found ↦ (g, w', n, rw found refl, h, ground (arith, found))
      ]

  pub no_seed_inputs :
      (more : Gathered → Bool) (w w' : Wallet) (g : Gathered)
      → w.seed_from ≡ w.seed_to
      → HasSeedRange w
      → funds w < 2 ^ 64
      → (h : Gathers more w g w')
      → (g.inputs ≡ h.taken)
        × (g.total ≡ sum_by input_value h.taken)
        × (sum_by input_value h.taken < 2 ^ 64)
  no_seed_inputs more w w' g e lim fits h =
      let none_left : h.seeds ≡ 0 = omega (arith, h.seeds_bound, lim.0, lim.1, e) in
      let worth : h.seeds * w.seed_value ≡ 0 =
        ap (λ k. k * w.seed_value) none_left ∙ zero-mul w.seed_value in
      let parts : sum_by input_value w.spend_queue
          ≡ sum_by input_value h.taken + sum_by input_value h.rest =
        ap (sum_by input_value) h.queue_is ∙ sum_by-append input_value h.taken h.rest in
      let no_inputs : h.seed_inputs ≡ [] = length_zero h.seed_inputs (h.seed_count ∙ none_left) in
      (
        rw no_inputs at h.inputs,
        omega (arith, h.total, worth, parts, fits),
        omega (arith, parts, fits),
      )

  pays_to :
      (amount payee : ℕ) (draw : Draw) (g : Gathered) (v : Wallet)
      → IsSignatureScheme c
      → HasKeys c v
      → All (IsCoin v) g.inputs
      → IsDistinctInputs g.inputs
      → g.total ≡ sum_by input_value g.inputs
      → g.total < 2 ^ 64
      → 1 ≤ amount
      → amount ≤ g.total
      → (signed : FullTx) × ((finish c true (pay c amount payee draw (g, v))).0
          ≡ some (some signed))
        × (check_tx c signed ≡ none)
        × (get_elem? signed.outputs 0 ≡ some (pay_to c payee amount))
  unfolding pay finish
  pays_to amount payee draw g v law keys coins distinct sum lim pos enough =
      let (outs, v') = change c g.total amount draw v in
      let (positive, equal) = change_outputs g.total amount draw v enough lim in
      let (keys', ext) = change-HasKeys c g.total amount draw v keys in
      let tx : FullTx = record {
        inputs = g.inputs;
        outputs = pay_to c payee amount ∷ outs;
        witness = g.witness;
      } in
      let coins' : All (IsCoin v') g.inputs =
        All-map (λ inp k. (k.0, ext inp k.1)) g.inputs coins in
      let some_inputs : g.inputs ≢ [] =
        λ empty. absurd (omega (arith, sum, enough, pos, ap (sum_by input_value) empty)) in
      let (signed, e, same, passes) =
        payment-IsValidTx tx v' law keys' coins' distinct some_inputs (λ bad. cc) (pos, positive)
          (omega (arith, sum, equal)) (omega (arith, sum, lim)) in
      (signed, rw e refl, passes, rw same refl)

  -- A wallet that can pay: it is sound, it has no seeds left, every output that it holds is a coin of
  -- its own, and all of them are worth less than 2^64.
  pub record CanPay (w : Wallet) : Type 0 where
    pub sound : IsSound w
    pub seeds : HasSeedRange w
    pub no_seeds : w.seed_from ≡ w.seed_to
    pub keys : HasKeys c w
    pub coins : All (IsCoin w) w.spend_queue
    pub fits : funds w < 2 ^ 64

  -- With a signature scheme that verifies what it signs, whose keys have 32 bytes and whose
  -- signatures have 64: when a wallet can pay (`CanPay`: it is sound, has no seeds left, has the
  -- keys of the outputs that it holds, none of which is worth 0, and they are worth less than 2^64
  -- in all) and its `balance` is at least the amount, which is not zero, `send_to` with the flag to
  -- sign returns a transaction that passes `check_tx` and whose first output pays the amount to the
  -- payee.
  pub send_to-check_tx :
      (amount payee : ℕ) (draw : Draw) (w : Wallet)
      → IsSignatureScheme c
      → CanPay w
      → 1 ≤ amount
      → amount ≤ balance w
      → (tx : FullTx) × ((send_to c amount payee true draw w).0 ≡ some (some tx))
        × (check_tx c tx ≡ none)
        × (get_elem? tx.outputs 0 ≡ some (pay_to c payee amount))
  unfolding send_to
  send_to-check_tx amount payee draw w law can pos enough =
      let (g, w', n, acc, h, found) =
        accumulate_inputs-eq_some amount w (can.sound, can.seeds) can.fits enough in
      let (inputs, total, lim) =
        no_seed_inputs (below amount) w w' g can.no_seeds can.seeds can.fits h in
      let v = drop_fronts n w' in
      let rest : KeepsRest w' v = drop_fronts-KeepsRest n w' in
      let same_seeds : w'.seed_from ≡ w.seed_from =
        rw h.wallet (omega (arith, h.seeds_bound, can.seeds.0, can.seeds.1, can.no_seeds)) in
      let keeps : KeepsRest w v = record {
        seed_from = rest.seed_from ∙ same_seeds;
        seed_to = rest.seed_to ∙ (rw h.wallet refl);
        keys = rest.keys ∙ (rw h.wallet refl);
        witness_programs = rest.witness_programs ∙ (rw h.wallet refl);
      } in
      let coins : All (IsCoin v) h.taken =
        All-map (λ inp k. (k.0, KeepsRest-Extends c w v keeps inp k.1)) h.taken
          (All-prefix (IsCoin w) h.taken h.rest
            (subst (λ q. All (IsCoin w) q) h.queue_is can.coins)) in
      let distinct : IsDistinctInputs h.taken =
        distinct_prefix h.taken h.rest (subst IsDistinctInputs h.queue_is can.sound.distinct) in
      let (tx, e, passes, first) =
        pays_to amount payee draw g v law (KeepsRest-HasKeys c w v keeps can.keys) (rw inputs coins)
          (rw inputs distinct) (rw inputs total) (omega (arith, total, lim)) pos found in
      (tx, rw acc e, passes, first)
