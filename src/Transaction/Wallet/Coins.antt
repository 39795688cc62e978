-- ===== src/Transaction/Wallet/Coins.antt =====
-- src/uhs/transaction/wallet.cpp: what the loops of `accumulate_inputs` and `send_to` take.
use cbdc_forensics.Common.{
  ℕ, zero, suc, ◌+◌, ◌*◌, ◌%◌, ◌^◌, ◌<◌, ◌≤◌, ◌≡◌, refl, sym, ap, ◌∙◌, ◌⊎◌, inl, inr, Bool, false,
  List, [], ◌∷◌, ◌++◌, append_assoc, append-nil, arith, length, length-append, sum_by, ◌==◌,
  Bool-cases,
}
use cbdc_forensics.Transaction.{Input}
use cbdc_forensics.Transaction.Crypto.{Crypto}
use cbdc_forensics.Transaction.Validation.{input_value}
use cbdc_forensics.Transaction.Wallet.{Wallet, add64, seeds_left}
use cbdc_forensics.Transaction.Wallet.Spend.{
  Gathered, add_seed, add_utxo, add_utxo_witness, take_utxos, take_seeds, gather_coins, nothing,
}

-- An input is added at the end, and its value to the total.
pub record Adds (add : Input → Gathered → Gathered) : Type 0 where
  pub inputs : (inp : Input) (g : Gathered) → (add inp g).inputs ≡ g.inputs ++ (inp ∷ [])
  pub total : (inp : Input) (g : Gathered) → (add inp g).total ≡ add64 g.total (input_value inp)
  pub seeded : (inp : Input) (g : Gathered) → (add inp g).seeded ≡ g.seeded

pub add_utxo-Adds : Adds add_utxo
add_utxo-Adds = record { inputs = λ inp g. refl; total = λ inp g. refl; seeded = λ inp g. refl }

pub add_utxo_witness-Adds : Adds add_utxo_witness
add_utxo_witness-Adds = record {
  inputs = λ inp g. refl;
  total = λ inp g. refl;
  seeded = λ inp g. refl;
}

-- The loop over the queue takes a prefix of it, and stops when no more is wanted or all is taken.
pub record Takes (more : Gathered → Bool) (queue : List Input) (g g' : Gathered) : Type 0 where
  pub taken : List Input
  pub rest : List Input
  pub queue_is : queue ≡ taken ++ rest
  pub inputs : g'.inputs ≡ g.inputs ++ taken
  pub total : g'.total ≡ (g.total + sum_by input_value taken) % 2 ^ 64
  pub seeded : g'.seeded ≡ g.seeded
  pub done : (more g' ≡ false) ⊎ (rest ≡ [])

Takes-none :
    (more : Gathered → Bool) (queue : List Input) (g : Gathered)
    → g.total < 2 ^ 64
    → (more g ≡ false) ⊎ (queue ≡ [])
    → Takes more queue g g
Takes-none more queue g lim h = record {
  taken = [];
  rest = queue;
  queue_is = refl;
  inputs = sym (append-nil g.inputs);
  total = omega arith;
  seeded = refl;
  done = h;
}

Takes-one :
    (add : Input → Gathered → Gathered) (more : Gathered → Bool) (inp : Input) (queue : List Input)
    (g g' : Gathered)
    → Adds add
    → Takes more queue (add inp g) g'
    → Takes more (inp ∷ queue) g g'
Takes-one add more inp queue g g' a t = record {
  taken = inp ∷ t.taken;
  rest = t.rest;
  queue_is = ap (λ q. inp ∷ q) t.queue_is;
  inputs = rw (t.inputs, a.inputs inp g, append_assoc) refl;
  total = rw (t.total, a.total inp g) (omega arith);
  seeded = rw (t.seeded) (a.seeded inp g);
  done = t.done;
}

pub take_utxos-Takes :
    (add : Input → Gathered → Gathered) (more : Gathered → Bool) (queue : List Input) (g : Gathered)
    → Adds add
    → g.total < 2 ^ 64
    → Takes more queue g (take_utxos add more queue g)
unfolding take_utxos
take_utxos-Takes add more [] g a lim = Takes-none more [] g lim (inr refl)
take_utxos-Takes add more (inp ∷ queue) g a lim = elim (Bool-cases (more g)) [
  | inl wanted ↦ rw wanted (
      Takes-one add more inp queue g (take_utxos add more queue (add inp g)) a
        (take_utxos-Takes add more queue (add inp g) a (rw (a.total inp g) (omega arith))))
  | inr enough ↦ rw enough (Takes-none more (inp ∷ queue) g lim (inl enough))
]

-- What the loop over the seeds does: it takes `n` of them.
pub record TakesSeeds (more : Gathered → Bool) (left : ℕ) (g : Gathered) (w : Wallet)
    (g' : Gathered) (w' : Wallet) : Type 0 where
  pub n : ℕ
  pub bound : n ≤ left
  pub wallet : w' ≡ record w { seed_from = (w.seed_from + n) % 2 ^ 64 }
  pub inputs : length g'.inputs ≡ length g.inputs + n
  pub seeded : g'.seeded ≡ g.seeded + n
  pub total : g'.total ≡ (g.total + n * w.seed_value) % 2 ^ 64
  pub done : (more g' ≡ false) ⊎ (n ≡ left)

-- What `gather_coins` comes to: first seeds, then a prefix of the queue.
pub record Gathers (more : Gathered → Bool) (w : Wallet) (g : Gathered) (w' : Wallet) : Type 0 where
  pub seeds : ℕ
  pub seed_inputs : List Input
  pub taken : List Input
  pub rest : List Input
  pub queue_is : w.spend_queue ≡ taken ++ rest
  pub seeds_bound : seeds ≤ seeds_left w
  pub wallet : w' ≡ record w { seed_from = (w.seed_from + seeds) % 2 ^ 64 }
  pub inputs : g.inputs ≡ seed_inputs ++ taken
  pub seed_count : length seed_inputs ≡ seeds
  pub seeded : g.seeded ≡ seeds
  pub total : g.total ≡ (seeds * w.seed_value + sum_by input_value taken) % 2 ^ 64
  pub done : (more g ≡ false) ⊎ ((seeds ≡ seeds_left w) × (rest ≡ []))

abbrev pub HasSeedRange : Wallet → Type 0
HasSeedRange w = (w.seed_from < 2 ^ 64) × (w.seed_to < 2 ^ 64)

-- A loop that stopped early does not start again.
take_utxos_stops :
    (add : Input → Gathered → Gathered) (more : Gathered → Bool) (queue : List Input) (g : Gathered)
    → more g ≡ false
    → take_utxos add more queue g ≡ g
unfolding take_utxos
take_utxos_stops add more [] g h = refl
take_utxos_stops add more (inp ∷ queue) g h = rw h refl

module _ (c : Crypto) where
  seeds_none :
      (more : Gathered → Bool) (left : ℕ) (g : Gathered) (w : Wallet)
      → w.seed_from < 2 ^ 64
      → g.total < 2 ^ 64
      → (more g ≡ false) ⊎ (0 ≡ left)
      → TakesSeeds more left g w g w
  seeds_none more left g w lim total h = record {
    n = 0;
    bound = omega arith;
    wallet = ap (λ s. record w { seed_from = s }) (omega arith);
    inputs = omega arith;
    seeded = omega arith;
    total = omega arith;
    done = h;
  }

  seeds_one :
      (more : Gathered → Bool) (left : ℕ) (inp : Input) (g : Gathered) (w : Wallet) (g' : Gathered)
      (w' : Wallet)
      → TakesSeeds more left
          (add_seed inp w.seed_value g)
          (record w { seed_from = add64 w.seed_from 1 })
          g'
          w'
      → TakesSeeds more (suc left) g w g' w'
  seeds_one more left inp g w g' w' t = record {
    n = suc t.n;
    bound = omega (arith, t.bound);
    wallet = rw t.wallet (ap (λ s. record w { seed_from = s }) (omega arith));
    inputs = omega (arith, t.inputs, length-append g.inputs (inp ∷ []));
    seeded = omega (arith, t.seeded);
    total = omega (arith, t.total);
    done = elim t.done [ inl enough ↦ inl enough | inr all ↦ inr (ap suc all) ];
  }

  pub take_seeds-TakesSeeds :
      (left : ℕ) (more : Gathered → Bool) (g : Gathered) (w : Wallet)
      → w.seed_from < 2 ^ 64
      → w.seed_to < 2 ^ 64
      → left ≡ seeds_left w
      → g.total < 2 ^ 64
      → let r = take_seeds c left more (g, w) in TakesSeeds more left g w r.0 r.1
  unfolding take_seeds
  take_seeds-TakesSeeds zero more g w lf lt e lim = seeds_none more 0 g w lf lim (inr refl)
  take_seeds-TakesSeeds (suc left) more g w lf lt e lim =
      let differ : (w.seed_from == w.seed_to) ≡ false = ground arith in
      elim (Bool-cases (more g)) [
        | inl wanted ↦
            rw (differ, wanted)
              (seeds_one more left _ g w _ _ (
                take_seeds-TakesSeeds left more (add_seed _ w.seed_value g)
                  (record w { seed_from = add64 w.seed_from 1 }) (omega arith) lt (omega arith)
                  (omega arith)))
        | inr enough ↦ rw (differ, enough) (seeds_none more (suc left) g w lf lim (inl enough))
      ]

  pub gather_coins-Gathers :
      (add : Input → Gathered → Gathered) (more : Gathered → Bool) (w : Wallet)
      → Adds add
      → HasSeedRange w
      → let r = gather_coins c add more w in Gathers more w r.0 r.1
  unfolding gather_coins
  gather_coins-Gathers add more w a (lf, lt) =
      let (g, w') = take_seeds c (seeds_left w) more (nothing, w) in
      let s : TakesSeeds more (seeds_left w) nothing w g w' =
        take_seeds-TakesSeeds (seeds_left w) more nothing w lf lt refl (omega arith) in
      let same : w'.spend_queue ≡ w.spend_queue = rw s.wallet refl in
      let t : Takes more w'.spend_queue g (take_utxos add more w'.spend_queue g) =
        take_utxos-Takes add more w'.spend_queue g a (omega (arith, s.total)) in
      record {
        seeds = s.n;
        seed_inputs = g.inputs;
        taken = t.taken;
        rest = t.rest;
        queue_is = sym same ∙ t.queue_is;
        seeds_bound = s.bound;
        wallet = s.wallet;
        inputs = t.inputs;
        seed_count = omega (arith, s.inputs);
        seeded = omega (arith, t.seeded, s.seeded);
        total = omega (arith, t.total, s.total);
        done = elim s.done [
          | inl enough ↦ inl (rw (take_utxos_stops add more w'.spend_queue g enough) enough)
          | inr all ↦ elim t.done [ inl enough ↦ inl enough | inr empty ↦ inr (all, empty) ]
        ];
      }
