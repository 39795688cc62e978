-- ===== src/Transaction/Wallet/Funds.antt =====
-- src/uhs/transaction/wallet.cpp, `accumulate_inputs`: when it finds enough coins, and what it leaves.
use native.Mathlib.Nat.{mul-le-mul_right, zero-mul}
use cbdc_forensics.Common.{
  ℕ, ◌+◌, ◌*◌, ◌%◌, ◌^◌, ◌<◌, ◌≤◌, ◌≡◌, ◌↔◌, refl, ap, subst, ◌∙◌, inl, inr, Bool, true, append-nil,
  none, arith, sum_by, ltb, ◌==◌, Bool-cases,
}
use cbdc_forensics.Transaction.Crypto.{Crypto}
use cbdc_forensics.Transaction.Validation.{input_value}
use cbdc_forensics.Transaction.Wallet.{Wallet, seeds_left, balance}
use cbdc_forensics.Transaction.Wallet.Spend.{
  Gathered, add_utxo_witness, below, gather_coins, take_enough, accumulate_inputs, restore_seeds,
}
use cbdc_forensics.Transaction.Wallet.Coins.{
  Gathers, gather_coins-Gathers, HasSeedRange, add_utxo_witness-Adds,
}
use cbdc_forensics.Transaction.Wallet.Ledger.{IsSound, sum_by-append}

-- A sound wallet whose range of seeds is a range of 64-bit numbers.
abbrev pub IsReady : Wallet → Type 0
IsReady w = IsSound w × HasSeedRange w

-- Seeds do not matter to the outputs.
pub IsSound-seed_from : (w : Wallet) (s : ℕ) → IsSound w → IsSound (record w { seed_from = s })
IsSound-seed_from w s h = record {
  same = h.same;
  distinct = h.distinct;
  values = h.values;
  total = h.total;
}

-- All the coins: the seeds that are left and the outputs.
abbrev pub funds : Wallet → ℕ
funds w = seeds_left w * w.seed_value + sum_by input_value w.spend_queue

pub no_seeds : (w : Wallet) → HasSeedRange w → w.seed_from ≡ w.seed_to → seeds_left w ≡ 0
no_seeds w lim e = omega (arith, lim.0, lim.1)

pub balance-funds :
    (w : Wallet) → IsSound w → HasSeedRange w → funds w < 2 ^ 64 → balance w ≡ funds w
unfolding balance
balance-funds w s lim fits = elim (Bool-cases (w.seed_from == w.seed_to)) [
  | inl none_left ↦
      let n : seeds_left w ≡ 0 = no_seeds w lim (ground arith) in
      let product : seeds_left w * w.seed_value ≡ 0 =
        ap (λ k. k * w.seed_value) n ∙ zero-mul w.seed_value in
      rw none_left (omega (arith, s.total, product, fits))
  | inr some_left ↦ rw some_left (omega (arith, s.total, fits))
]

module _ (c : Crypto) where
  restored :
      (more : Gathered → Bool) (w w' : Wallet) (g : Gathered)
      → HasSeedRange w
      → Gathers more w g w'
      → restore_seeds g w' ≡ w
  restored more w w' g lim h =
      rw h.wallet (
        ap (λ s. record w { seed_from = s }) (omega (arith, h.seeded, h.seeds_bound, lim.0, lim.1)))

  -- The total falls short only when everything is taken.
  short_total :
      (amount : ℕ) (w w' : Wallet) (g : Gathered)
      → Gathers (below amount) w g w'
      → ltb g.total amount ≡ true
      → g.total ≡ funds w % 2 ^ 64
  short_total amount w w' g h short = elim h.done [
    | inl enough ↦ ground arith
    | inr (all, empty) ↦
        let same : w.spend_queue ≡ h.taken = rw empty at h.queue_is ∙ append-nil h.taken in
        rw same (
          subst (λ n. g.total ≡ (n * w.seed_value + sum_by input_value h.taken) % 2 ^ 64) all
            h.total)
  ]

  bounded_total :
      (amount : ℕ) (w w' : Wallet) (g : Gathered)
      → Gathers (below amount) w g w'
      → funds w < 2 ^ 64
      → g.total ≤ funds w
  bounded_total amount w w' g h lim = omega (
    arith,
    h.total,
    mul-le-mul_right w.seed_value h.seeds_bound,
    sum_by-append input_value h.taken h.rest,
    ap (sum_by input_value) h.queue_is,
  )

  take_enough_fails :
      (amount : ℕ) (g : Gathered) (w' : Wallet)
      → ((take_enough amount (g, w')).0 ≡ none) ↔ (ltb g.total amount ≡ true)
  unfolding take_enough
  take_enough_fails amount g w' = (λ h. ground arith, λ h. rw h refl)

  take_enough_restores :
      (amount : ℕ) (g : Gathered) (w' : Wallet)
      → ltb g.total amount ≡ true
      → (take_enough amount (g, w')).1 ≡ restore_seeds g w'
  unfolding take_enough
  take_enough_restores amount g w' h = rw h refl

  -- In a ready wallet whose seeds and outputs are worth less than 2^64 in all, `accumulate_inputs`
  -- fails exactly when `balance` is less than the amount; and when it fails, the wallet is
  -- unchanged.
  pub accumulate_inputs-eq_none :
      (amount : ℕ) (w : Wallet)
      → IsReady w
      → funds w < 2 ^ 64
      → (((accumulate_inputs c amount w).0 ≡ none) ↔ (balance w < amount))
        × ((accumulate_inputs c amount w).0 ≡ none → (accumulate_inputs c amount w).1 ≡ w)
  unfolding accumulate_inputs balance
  accumulate_inputs-eq_none amount w (s, lim) fits =
      let (g, w') = gather_coins c add_utxo_witness (below amount) w in
      let h : Gathers (below amount) w g w' =
        gather_coins-Gathers c add_utxo_witness (below amount) w add_utxo_witness-Adds lim in
      let all : balance w ≡ funds w = balance-funds w s lim fits in
      let fails = take_enough_fails amount g w' in
      (
        (
          λ e. let short = fails.0 e in ground (arith, short_total amount w w' g h short, all),
          λ e. fails.1 (ground (arith, bounded_total amount w w' g h fits, all)),
        ),
        λ e. take_enough_restores amount g w' (fails.0 e) ∙ restored (below amount) w w' g lim h,
      )
