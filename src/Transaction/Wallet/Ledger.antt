-- ===== src/Transaction/Wallet/Ledger.antt =====
-- src/uhs/transaction/wallet.cpp: the unspent outputs, the queue and the balance of a wallet.
use cbdc_forensics.Common.{
  ℕ, zero, suc, ◌+◌, ◌%◌, ◌^◌, ◌<◌, ◌≡◌, ◌≢◌, refl, sym, ap, subst, ◌∙◌, inl, inr, true, false,
  List, [], ◌∷◌, ◌++◌, arith, All, All-append, sum_by, Bool-cases,
}
use cbdc_forensics.Transaction.{Input, OutPoint}
use cbdc_forensics.Transaction.Validation.{input_value, out_point_eq}
use cbdc_forensics.Transaction.Validation.Inputs.{IsDistinctInputs}
use cbdc_forensics.Transaction.Wallet.{Wallet, add64, sub64, has_utxo, erase_utxo, credit_all}
use cbdc_forensics.Transaction.Wallet.Spend.{drop_front, drop_fronts, drop_inputs, pop}

-- The queue has the unspent outputs, no output twice, and the balance is the sum of their values,
-- to 64 bits.
pub record IsSound (w : Wallet) : Type 0 where
  pub same : w.utxos_set ≡ w.spend_queue
  pub distinct : IsDistinctInputs w.spend_queue
  pub values : All (λ inp. input_value inp < 2 ^ 64) w.spend_queue
  pub total : w.balance ≡ sum_by input_value w.spend_queue % 2 ^ 64

pub out_point_eq_iff : (p q : OutPoint) → (out_point_eq p q ≡ false) → p ≢ q
out_point_eq_iff p q h e = ground arith

pub out_point_neq : (p q : OutPoint) → p ≢ q → out_point_eq p q ≡ false
out_point_neq p q h = ground arith

-- An output that is not in the set is none of the set's.
absent_apart :
    (inp : Input) (set : List Input)
    → has_utxo inp.prevout set ≡ false
    → All (λ other. inp.prevout ≢ other.prevout) set
unfolding has_utxo
absent_apart inp [] h = tt
absent_apart inp (x ∷ set) h = (ground arith, absent_apart inp set (ground arith))

distinct_append :
    (set : List Input) (inp : Input)
    → IsDistinctInputs set
    → All (λ other. inp.prevout ≢ other.prevout) set
    → IsDistinctInputs (set ++ (inp ∷ []))
distinct_append [] inp h k = (tt, tt)
distinct_append (x ∷ set) inp h k = (
  All-append (λ other. other.prevout ≢ x.prevout) set (inp ∷ []) h.0 (k.0, tt),
  distinct_append set inp h.1 k.1,
)

erase_utxo_absent :
    (p : OutPoint) (set : List Input)
    → All (λ other. other.prevout ≢ p) set
    → erase_utxo p set ≡ set
unfolding erase_utxo
erase_utxo_absent p [] h = refl
erase_utxo_absent p (x ∷ set) h =
    rw (out_point_neq p x.prevout (λ e. h.0 (sym e)), erase_utxo_absent p set h.1) refl

pub sum_by-append :
    {A : Type 0} (f : A → ℕ) (xs ys : List A) → sum_by f (xs ++ ys) ≡ sum_by f xs + sum_by f ys
sum_by-append f [] ys = omega arith
sum_by-append f (x ∷ xs) ys = omega (arith, sum_by-append f xs ys)

front_leaves :
    (inp : Input) (queue : List Input)
    → IsDistinctInputs (inp ∷ queue)
    → erase_utxo inp.prevout (inp ∷ queue) ≡ queue
unfolding erase_utxo
front_leaves inp queue h =
    let self : out_point_eq inp.prevout inp.prevout ≡ true = ground arith in
    rw self (erase_utxo_absent inp.prevout queue h.0)

-- The front of the queue leaves a sound wallet sound.
front-IsSound :
    (inp : Input) (queue : List Input) (w : Wallet)
    → w.spend_queue ≡ inp ∷ queue
    → IsSound w
    → IsSound (record w {
      balance = sub64 w.balance (input_value inp);
      utxos_set = erase_utxo inp.prevout w.utxos_set;
      spend_queue = queue;
    })
front-IsSound inp queue w e s =
    let distinct : IsDistinctInputs (inp ∷ queue) = rw e at s.distinct in
    let values : All (λ i. input_value i < 2 ^ 64) (inp ∷ queue) = rw e at s.values in
    let total : w.balance ≡ sum_by input_value (inp ∷ queue) % 2 ^ 64 = rw e at s.total in
    record {
      same = rw (s.same, e) (front_leaves inp queue distinct);
      distinct = distinct.1;
      values = values.1;
      total = omega (arith, total, values.0);
    }

drop_front-IsSound :
    (queue : List Input) (w : Wallet)
    → w.spend_queue ≡ queue
    → IsSound w
    → IsSound (drop_front queue w)
unfolding drop_front
drop_front-IsSound [] w e s = s
drop_front-IsSound (inp ∷ queue) w e s = front-IsSound inp queue w e s

pub drop_fronts-IsSound : (n : ℕ) (w : Wallet) → IsSound w → IsSound (drop_fronts n w)
unfolding drop_fronts
drop_fronts-IsSound zero w s = s
drop_fronts-IsSound (suc n) w s =
    drop_fronts-IsSound n (drop_front w.spend_queue w) (drop_front-IsSound w.spend_queue w refl s)

pub drop_inputs-IsSound :
    (taken rest : List Input) (w : Wallet)
    → w.spend_queue ≡ taken ++ rest
    → IsSound w
    → IsSound (drop_inputs taken w)
unfolding drop_inputs
drop_inputs-IsSound [] rest w e s = s
drop_inputs-IsSound (inp ∷ taken) rest w e s =
    let popped : pop w.spend_queue ≡ taken ++ rest = rw e refl in
    drop_inputs-IsSound taken rest _ popped (rw popped (front-IsSound inp (taken ++ rest) w e s))

-- A new output keeps a wallet sound.
credit-IsSound :
    (inp : Input) (w : Wallet)
    → input_value inp < 2 ^ 64
    → has_utxo inp.prevout w.utxos_set ≡ false
    → IsSound w
    → IsSound (record w {
      utxos_set = w.utxos_set ++ (inp ∷ []);
      balance = add64 w.balance (input_value inp);
      spend_queue = w.spend_queue ++ (inp ∷ []);
    })
credit-IsSound inp w lim new s = record {
  same = ap (λ q. q ++ (inp ∷ [])) s.same;
  distinct = distinct_append w.spend_queue inp s.distinct (
      subst (λ q. All (λ other. inp.prevout ≢ other.prevout) q) s.same
        (absent_apart inp w.utxos_set new));
  values = All-append (λ i. input_value i < 2 ^ 64) w.spend_queue (inp ∷ []) s.values (lim, tt);
  total = omega (arith, s.total, sum_by-append input_value w.spend_queue (inp ∷ []));
}

pub credit_all-IsSound :
    (credits : List Input) (w : Wallet)
    → All (λ inp. input_value inp < 2 ^ 64) credits
    → IsSound w
    → IsSound (credit_all credits w)
unfolding credit_all
credit_all-IsSound [] w h s = s
credit_all-IsSound (inp ∷ credits) w h s = elim (Bool-cases (has_utxo inp.prevout w.utxos_set)) [
  | inl known ↦ rw known (credit_all-IsSound credits w h.1 s)
  | inr new ↦ rw new (credit_all-IsSound credits _ h.1 (credit-IsSound inp w h.0 new s))
]

-- What the removal of outputs leaves as it is.
pub record KeepsRest (w w' : Wallet) : Type 0 where
  pub seed_from : w'.seed_from ≡ w.seed_from
  pub seed_to : w'.seed_to ≡ w.seed_to
  pub keys : w'.keys ≡ w.keys
  pub witness_programs : w'.witness_programs ≡ w.witness_programs

KeepsRest-trans : (a b d : Wallet) → KeepsRest a b → KeepsRest b d → KeepsRest a d
KeepsRest-trans a b d h k = record {
  seed_from = k.seed_from ∙ h.seed_from;
  seed_to = k.seed_to ∙ h.seed_to;
  keys = k.keys ∙ h.keys;
  witness_programs = k.witness_programs ∙ h.witness_programs;
}

KeepsRest-refl : (w : Wallet) → KeepsRest w w
KeepsRest-refl w = record { seed_from = refl; seed_to = refl; keys = refl; witness_programs = refl }

drop_front-KeepsRest : (queue : List Input) (w : Wallet) → KeepsRest w (drop_front queue w)
unfolding drop_front
drop_front-KeepsRest [] w = KeepsRest-refl w
drop_front-KeepsRest (inp ∷ queue) w = record {
  seed_from = refl;
  seed_to = refl;
  keys = refl;
  witness_programs = refl;
}

pub drop_fronts-KeepsRest : (n : ℕ) (w : Wallet) → KeepsRest w (drop_fronts n w)
unfolding drop_fronts
drop_fronts-KeepsRest zero w = KeepsRest-refl w
drop_fronts-KeepsRest (suc n) w =
    KeepsRest-trans w _ _ (drop_front-KeepsRest w.spend_queue w)
      (drop_fronts-KeepsRest n (drop_front w.spend_queue w))

pub drop_inputs-KeepsRest : (inps : List Input) (w : Wallet) → KeepsRest w (drop_inputs inps w)
unfolding drop_inputs
drop_inputs-KeepsRest [] w = KeepsRest-refl w
drop_inputs-KeepsRest (inp ∷ inps) w =
    KeepsRest-trans w _ _
      record { seed_from = refl; seed_to = refl; keys = refl; witness_programs = refl }
      (drop_inputs-KeepsRest inps _)

pub credit_all-KeepsRest : (credits : List Input) (w : Wallet) → KeepsRest w (credit_all credits w)
unfolding credit_all
credit_all-KeepsRest [] w = KeepsRest-refl w
credit_all-KeepsRest (inp ∷ credits) w = elim (Bool-cases (has_utxo inp.prevout w.utxos_set)) [
  | inl known ↦ rw known (credit_all-KeepsRest credits w)
  | inr new ↦ rw new (
      KeepsRest-trans w _ _
        record { seed_from = refl; seed_to = refl; keys = refl; witness_programs = refl }
        (credit_all-KeepsRest credits _))
]
