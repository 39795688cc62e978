-- ===== src/Transaction/Wallet/Refund.antt =====
-- src/uhs/transaction/wallet.cpp: what `send_to` spends, and what confirming it again gives back.
use cbdc_forensics.Common.{
  ℕ, ◌+◌, ◌-◌, ◌%◌, ◌^◌, ◌<◌, ◌≡◌, ◌≢◌, refl, sym, ap, subst, ◌∙◌, inl, inr, Bool, true, false,
  List, [], ◌∷◌, ◌++◌, Option, none, some, arith, length, All, All-suffix, sum_by, ltb, ◌==◌,
  if◌then◌else◌, Bool-cases, Option-cases,
}
use cbdc_forensics.Transaction.{Input, OutPoint, FullTx}
use cbdc_forensics.Transaction.Crypto.{Crypto}
use cbdc_forensics.Transaction.Ids.{tx_id}
use cbdc_forensics.Transaction.Validation.{input_value, out_point_eq}
use cbdc_forensics.Transaction.Validation.Inputs.{IsDistinctInputs, distinct_prefix}
use cbdc_forensics.Transaction.Wallet.{
  Wallet, Draw, add64, has_utxo, credit_all, balance, sign, sign_inputs, resize,
}
use cbdc_forensics.Transaction.Wallet.Spend.{
  Gathered, drop_front, drop_fronts, take_enough, gather_coins, add_utxo_witness, below,
  accumulate_inputs, change, pay, finish, send_to,
}
use cbdc_forensics.Transaction.Wallet.Coins.{Gathers, gather_coins-Gathers, add_utxo_witness-Adds}
use cbdc_forensics.Transaction.Wallet.Ledger.{
  KeepsRest, drop_fronts-KeepsRest, credit_all-KeepsRest, sum_by-append, out_point_neq,
}
use cbdc_forensics.Transaction.Wallet.Funds.{IsReady, funds}
use cbdc_forensics.Transaction.Wallet.Keys.{KeepsCoins, change-KeepsCoins, finish_wallet}
use cbdc_forensics.Transaction.Wallet.Accepted.{no_seed_inputs}
use cbdc_forensics.Transaction.Wallet.Steps.{sent, start, next, Steps-IsReady}

has_utxo-append :
    (p : OutPoint) (set : List Input) (inp : Input)
    → has_utxo p (set ++ (inp ∷ [])) ≡ (if has_utxo p set then true else out_point_eq p inp.prevout)
unfolding has_utxo
has_utxo-append p [] inp = ground arith
has_utxo-append p (x ∷ set) inp = ground (arith, has_utxo-append p set inp)

has_utxo_absent :
    (p : OutPoint) (set : List Input)
    → All (λ other. other.prevout ≢ p) set
    → has_utxo p set ≡ false
unfolding has_utxo
has_utxo_absent p [] h = refl
has_utxo_absent p (x ∷ set) h =
    rw (out_point_neq p x.prevout (λ e. h.0 (sym e))) (has_utxo_absent p set h.1)

absent_after :
    (inp : Input) (set inps : List Input)
    → All (λ other. other.prevout ≢ inp.prevout) inps
    → All (λ other. has_utxo other.prevout set ≡ false) inps
    → All (λ other. has_utxo other.prevout (set ++ (inp ∷ [])) ≡ false) inps
absent_after inp set [] h k = tt
absent_after inp set (x ∷ inps) h k = (
  rw (has_utxo-append x.prevout set inp, k.0, out_point_neq x.prevout inp.prevout h.0) refl,
  absent_after inp set inps h.1 k.1,
)

pub credit_all_balance :
    (inps : List Input) (w : Wallet)
    → IsDistinctInputs inps
    → All (λ inp. has_utxo inp.prevout w.utxos_set ≡ false) inps
    → w.balance < 2 ^ 64
    → (credit_all inps w).balance ≡ (w.balance + sum_by input_value inps) % 2 ^ 64
unfolding credit_all
credit_all_balance [] w d h lim = omega arith
credit_all_balance (inp ∷ inps) w d h lim =
    let w' : Wallet = record w {
      utxos_set = w.utxos_set ++ (inp ∷ []);
      balance = add64 w.balance inp.prevout_data.value;
      spend_queue = w.spend_queue ++ (inp ∷ []);
    } in
    let rest =
      credit_all_balance inps w' d.1 (absent_after inp w.utxos_set inps d.0 h.1) (omega arith) in
    subst
      (λ b.
        (credit_all inps (if b then w else w')).balance
        ≡ (w.balance + sum_by input_value (inp ∷ inps)) % 2 ^ 64)
      (sym h.0) (rest ∙ omega arith)

-- The queue loses its front.
drop_fronts_queue :
    (taken rest : List Input) (w : Wallet)
    → w.spend_queue ≡ taken ++ rest
    → (drop_fronts (length taken) w).spend_queue ≡ rest
unfolding drop_fronts drop_front
drop_fronts_queue [] rest w e = e
drop_fronts_queue (inp ∷ taken) rest w e =
    let front : (drop_front w.spend_queue w).spend_queue ≡ taken ++ rest = rw e refl in
    drop_fronts_queue taken rest (drop_front w.spend_queue w) front

-- The outputs that are spent are apart from those that are left.
apart :
    (taken rest : List Input)
    → IsDistinctInputs (taken ++ rest)
    → All (λ inp. has_utxo inp.prevout rest ≡ false) taken
apart [] rest d = tt
apart (inp ∷ taken) rest d = (
  has_utxo_absent inp.prevout rest
      (All-suffix (λ other. other.prevout ≢ inp.prevout) taken rest d.0),
  apart taken rest d.1,
)

was_signed :
    (o : Option FullTx) (ret : FullTx)
    → (elim o as (λ x. Option (Option FullTx)) [ none ↦ none | some signed ↦ some (some signed) ])
      ≡ some (some ret)
    → o ≡ some ret
was_signed none ret e = cc
was_signed (some tx) ret e = cc

module _ (c : Crypto) where
  -- Signing leaves the inputs.
  sign_inputs_same :
      (tx signed : FullTx) (w : Wallet) → sign c tx w ≡ some signed → signed.inputs ≡ tx.inputs
  unfolding sign
  sign_inputs_same tx signed w e =
      elim (Option-cases
        (sign_inputs c (tx_id c tx) w tx.inputs (resize (length tx.inputs) tx.witness))) [
          | inl thrown ↦ let bad : none ≡ some signed = rw thrown at e in cc
          | inr (wits, done) ↦
              let same : some (record tx { witness = wits }) ≡ some signed = rw done at e in
              let is : record tx { witness = wits } ≡ signed = cc in sym (ap (λ t. t.inputs) is)
        ]

  finish_inputs :
      (sign_tx : Bool) (tx ret : FullTx) (w : Wallet)
      → (finish c sign_tx (tx, w)).0 ≡ some (some ret)
      → ret.inputs ≡ tx.inputs
  unfolding finish
  finish_inputs false tx ret w e = let is : tx ≡ ret = cc in sym (ap (λ t. t.inputs) is)
  finish_inputs true tx ret w e = sign_inputs_same tx ret w (was_signed (sign c tx w) ret e)

  -- A payment from a wallet without seeds: its inputs are the front of the queue.
  pub record Spends (w v : Wallet) (tx : FullTx) : Type 0 where
    pub rest : List Input
    pub queue : w.spend_queue ≡ tx.inputs ++ rest
    pub left : v.spend_queue ≡ rest
    pub seeds : v.seed_from ≡ v.seed_to
    pub ready : IsReady v

  paid-Spends :
      (amount payee : ℕ) (sign_tx : Bool) (draw : Draw) (w w' : Wallet) (g : Gathered) (tx : FullTx)
      → IsReady w
      → w.seed_from ≡ w.seed_to
      → funds w < 2 ^ 64
      → Gathers (below amount) w g w'
      → let v = drop_fronts (length g.inputs - g.seeded) w' in
        let r = finish c sign_tx (pay c amount payee draw (g, v)) in
        (r.0 ≡ some (some tx)) → IsReady r.1 → Spends w r.1 tx
  unfolding pay
  paid-Spends amount payee sign_tx draw w w' g tx ready e fits h paid ready' =
      let (inputs, total, lim) = no_seed_inputs c (below amount) w w' g e ready.1 fits h in
      let n = length g.inputs - g.seeded in
      let v = drop_fronts n w' in
      let (outs, v') = change c g.total amount draw v in
      let keeps : KeepsCoins v v' = change-KeepsCoins c g.total amount draw v in
      let count : n ≡ length h.taken =
        omega (arith, ap length inputs, h.seeded, h.seeds_bound, e, ready.1.0, ready.1.1) in
      let queue : w'.spend_queue ≡ h.taken ++ h.rest = rw h.wallet h.queue_is in
      let left : v.spend_queue ≡ h.rest =
        subst (λ k. (drop_fronts k w').spend_queue ≡ h.rest) (sym count)
          (drop_fronts_queue h.taken h.rest w' queue) in
      let ins : tx.inputs ≡ h.taken = finish_inputs sign_tx _ tx v' paid ∙ inputs in
      let same_from : w'.seed_from ≡ w.seed_from =
        rw h.wallet (omega (arith, h.seeds_bound, ready.1.0, ready.1.1, e)) in
      let same_to : w'.seed_to ≡ w.seed_to = rw h.wallet refl in
      let kept : KeepsRest w' v = drop_fronts-KeepsRest n w' in
      let seeds : v'.seed_from ≡ v'.seed_to = omega (
        arith, keeps.seed_from, keeps.seed_to, kept.seed_from, kept.seed_to, same_from, same_to, e,
      ) in
      record {
        rest = h.rest;
        queue = rw ins h.queue_is;
        left = rw (finish_wallet c sign_tx _ v') (keeps.spend_queue ∙ left);
        seeds = rw (finish_wallet c sign_tx _ v') seeds;
        ready = ready';
      }

  pub send_to-Spends :
      (amount payee : ℕ) (sign_tx : Bool) (draw : Draw) (w : Wallet) (tx : FullTx)
      → IsReady w
      → w.seed_from ≡ w.seed_to
      → funds w < 2 ^ 64
      → (send_to c amount payee sign_tx draw w).0 ≡ some (some tx)
      → Spends w (send_to c amount payee sign_tx draw w).1 tx
  unfolding send_to accumulate_inputs take_enough
  send_to-Spends amount payee sign_tx draw w tx ready e fits paid =
      let (g, w') = gather_coins c add_utxo_witness (below amount) w in
      let h : Gathers (below amount) w g w' =
        gather_coins-Gathers c add_utxo_witness (below amount) w add_utxo_witness-Adds ready.1 in
      let ready' : IsReady (send_to c amount payee sign_tx draw w).1 =
        Steps-IsReady c w _ (next w w _ (start w) (sent amount payee sign_tx draw w)) ready in
      elim (Bool-cases (ltb g.total amount)) [
        | inl short ↦ let bad : some none ≡ some (some tx) = rw short at paid in cc
        | inr found ↦ rw found (
            paid-Spends amount payee sign_tx draw w w' g tx ready e fits h (rw found at paid)
              (rw found at ready'))
      ]

  -- Confirming the inputs again gives the balance back.
  pub Spends-balance :
      (w v : Wallet) (tx : FullTx)
      → IsReady w
      → w.seed_from ≡ w.seed_to
      → Spends w v tx
      → balance (credit_all tx.inputs v) ≡ balance w
  unfolding balance
  Spends-balance w v tx (s, lim) e h =
      let distinct : IsDistinctInputs (tx.inputs ++ h.rest) =
        subst IsDistinctInputs h.queue s.distinct in
      let absent : All (λ inp. has_utxo inp.prevout v.utxos_set ≡ false) tx.inputs =
        rw (h.ready.0.same, h.left) (apart tx.inputs h.rest distinct) in
      let credited =
        credit_all_balance tx.inputs v (distinct_prefix tx.inputs h.rest distinct) absent
          (omega (arith, h.ready.0.total)) in
      let total : w.balance ≡ (sum_by input_value tx.inputs + sum_by input_value h.rest) % 2 ^ 64 =
        s.total
        ∙ ap (λ q. sum_by input_value q % 2 ^ 64) h.queue
        ∙ ap (λ k. k % 2 ^ 64) (sum_by-append input_value tx.inputs h.rest) in
      let left : v.balance ≡ sum_by input_value h.rest % 2 ^ 64 =
        h.ready.0.total ∙ ap (λ q. sum_by input_value q % 2 ^ 64) h.left in
      let keeps : KeepsRest v (credit_all tx.inputs v) = credit_all-KeepsRest tx.inputs v in
      let no_seeds : ((credit_all tx.inputs v).seed_from == (credit_all tx.inputs v).seed_to)
          ≡ true =
        ground (arith, keeps.seed_from, keeps.seed_to, h.seeds) in
      let no_seeds' : (w.seed_from == w.seed_to) ≡ true = ground (arith, e) in
      rw (no_seeds, no_seeds') (omega (arith, credited, total, left))
