-- ===== src/Transaction/Wallet/Keys.antt =====
-- src/uhs/transaction/wallet.cpp: the operations on keys leave the coins as they are.
use cbdc_forensics.Common.{
  ℕ, ◌≡◌, refl, sym, ◌∙◌, inl, inr, Bool, true, false, List, [], ◌∷◌, length, ltb, Bool-cases,
}
use cbdc_forensics.Transaction.{FullTx}
use cbdc_forensics.Transaction.Crypto.{Crypto}
use cbdc_forensics.Transaction.Wallet.{Wallet, Draw, generate_key, add_key, mint_outputs}
use cbdc_forensics.Transaction.Wallet.Spend.{change, finish}
use cbdc_forensics.Transaction.Wallet.Funds.{IsReady}

-- Outputs, queue, balance and seeds as they were.
pub record KeepsCoins (w w' : Wallet) : Type 0 where
  pub utxos_set : w'.utxos_set ≡ w.utxos_set
  pub spend_queue : w'.spend_queue ≡ w.spend_queue
  pub balance : w'.balance ≡ w.balance
  pub seed_from : w'.seed_from ≡ w.seed_from
  pub seed_to : w'.seed_to ≡ w.seed_to

pub KeepsCoins-refl : (w : Wallet) → KeepsCoins w w
KeepsCoins-refl w = record {
  utxos_set = refl;
  spend_queue = refl;
  balance = refl;
  seed_from = refl;
  seed_to = refl;
}

KeepsCoins-trans : (a b d : Wallet) → KeepsCoins a b → KeepsCoins b d → KeepsCoins a d
KeepsCoins-trans a b d h k = record {
  utxos_set = k.utxos_set ∙ h.utxos_set;
  spend_queue = k.spend_queue ∙ h.spend_queue;
  balance = k.balance ∙ h.balance;
  seed_from = k.seed_from ∙ h.seed_from;
  seed_to = k.seed_to ∙ h.seed_to;
}

pub KeepsCoins-IsReady : (w w' : Wallet) → KeepsCoins w w' → IsReady w → IsReady w'
KeepsCoins-IsReady w w' k (s, lim) = (
  record {
    same = k.utxos_set ∙ s.same ∙ sym k.spend_queue;
    distinct = rw k.spend_queue s.distinct;
    values = rw k.spend_queue s.values;
    total = rw (k.balance, k.spend_queue) s.total;
  },
  rw (k.seed_from, k.seed_to) lim,
)

module _ (c : Crypto) where
  pub generate_key-KeepsCoins : (draw : Draw) (w : Wallet) → KeepsCoins w (generate_key c draw w).1
  unfolding generate_key add_key
  generate_key-KeepsCoins draw w = elim (Bool-cases (ltb 10000 (length w.keys))) [
    | inl full ↦ rw full (KeepsCoins-refl w)
    | inr room ↦ rw room (record {
      utxos_set = refl;
      spend_queue = refl;
      balance = refl;
      seed_from = refl;
      seed_to = refl;
    })
  ]

  pub mint_outputs-KeepsCoins :
      (draws : List Draw) (value : ℕ) (w : Wallet) → KeepsCoins w (mint_outputs c draws value w).1
  unfolding mint_outputs
  mint_outputs-KeepsCoins [] value w = KeepsCoins-refl w
  mint_outputs-KeepsCoins (draw ∷ draws) value w =
      let w' = (generate_key c draw w).1 in
      KeepsCoins-trans w w' _ (generate_key-KeepsCoins draw w)
        (mint_outputs-KeepsCoins draws value w')

  pub change-KeepsCoins :
      (total amount : ℕ) (draw : Draw) (w : Wallet) → KeepsCoins w (change c total amount draw w).1
  unfolding change
  change-KeepsCoins total amount draw w = elim (Bool-cases (ltb amount total)) [
    | inl over ↦ rw over (generate_key-KeepsCoins draw w)
    | inr exact ↦ rw exact (KeepsCoins-refl w)
  ]

  pub finish_wallet : (sign_tx : Bool) (tx : FullTx) (w : Wallet) → (finish c sign_tx (tx, w)).1 ≡ w
  unfolding finish
  finish_wallet false tx w = refl
  finish_wallet true tx w = refl
