-- ===== src/Transaction/Wallet/Examples.antt =====
-- Tests of the wallet, and the theorems at concrete inputs.
use cbdc_forensics.Common.{
  ℕ, ◌+◌, ◌%◌, ◌^◌, ◌<◌, ◌≡◌, ◌↔◌, refl, sym, ap, ◌∙◌, inl, inr, Bool-cases, none, some, [], ◌∷◌,
  true, arith, get_elem?, ◌==◌, ==_iff, find, put,
}
use cbdc_forensics.Util.Serialization.{encode_vector, encode_items}
use cbdc_forensics.Util.Serialization.Bytes.{le_bytes}
use cbdc_forensics.Transaction.{Input, FullTx}
use cbdc_forensics.Transaction.Crypto.{Crypto}
use cbdc_forensics.Transaction.Toy.{toy}
use cbdc_forensics.Transaction.Messages.{encode_input, encode_out_point, encode_output}
use cbdc_forensics.Transaction.Ids.{tx_id}
use cbdc_forensics.Transaction.Validation.{check_tx, get_p2pk_witness_commitment}
use cbdc_forensics.Transaction.Wallet.{Wallet, balance, seed, update_balance, is_spendable}
use cbdc_forensics.Transaction.Wallet.Spend.{accumulate_inputs, send_to, pay_to}
use cbdc_forensics.Transaction.Wallet.Ledger.{IsSound}
use cbdc_forensics.Transaction.Wallet.Funds.{IsReady, accumulate_inputs-eq_none}
use cbdc_forensics.Transaction.Wallet.Signing.{IsSignatureScheme, HasKeys}
use cbdc_forensics.Transaction.Wallet.Accepted.{CanPay, send_to-check_tx}
use cbdc_forensics.Transaction.Wallet.Steps.{start, next, seeded, sent, Steps-IsReady}

-- A stand-in for the signatures, with keys and signatures of 64 bits.
abbrev bounded : Crypto
bounded = record toy {
  schnorrsig_verify = λ sig msg key. sig == (key + msg) % 2 ^ 64;
  schnorrsig_sign = λ msg key. (key % 2 ^ 64 + msg) % 2 ^ 64;
  pubkey_from_privkey = λ key. key % 2 ^ 64;
}

bounded-IsSignatureScheme : IsSignatureScheme bounded
bounded-IsSignatureScheme = record {
  pubkey_bytes = λ key. omega arith;
  sig_bytes = λ msg key. omega arith;
  signer = λ key msg. record {
    pubkey = key % 2 ^ 64;
    parsed = refl;
    verifies = (==_iff ((key % 2 ^ 64 + msg) % 2 ^ 64) ((key % 2 ^ 64 + msg) % 2 ^ 64)).1 refl;
  };
}

abbrev coin : ℕ → ℕ → Input
coin i v = record {
  prevout = record { tx_id = 9; index = i };
  prevout_data = record { witness_program_commitment = 3; value = v };
}

-- Two coins of ten, for the key 3, whose commitment is 3 as well.
abbrev rich : Wallet
rich = record {
  balance = 20;
  utxos_set = coin 0 10 ∷ coin 1 10 ∷ [];
  seed_from = 0;
  seed_to = 0;
  seed_value = 0;
  seed_witness_commitment = 0;
  spend_queue = coin 0 10 ∷ coin 1 10 ∷ [];
  keys = (3, 3) ∷ [];
  pubkeys = 3 ∷ [];
  witness_programs = (3, 3) ∷ [];
}

rich-IsSound : IsSound rich
rich-IsSound = record {
  same = refl;
  distinct = ((λ e. ground arith, tt), (tt, tt));
  values = (omega arith, (omega arith, tt));
  total = refl;
}

rich-IsReady : IsReady rich
rich-IsReady = (rich-IsSound, (omega arith, omega arith))

only_key : (a k : ℕ) → find a rich.witness_programs ≡ some k → (a ≡ 3) × (k ≡ 3)
unfolding find
only_key a k e = elim (Bool-cases (a == 3)) [
  | inl same ↦ (ground arith, ground arith)
  | inr other ↦ absurd (ground arith)
]

commitment_of_3 : get_p2pk_witness_commitment bounded 3 ≡ 3
unfolding get_p2pk_witness_commitment le_bytes
commitment_of_3 = refl

rich-HasKeys : HasKeys bounded rich
unfolding find
rich-HasKeys = record {
  of_private = λ k s e. let (key, sec) = only_key k s e in key ∙ sym (ap (λ x. x % 2 ^ 64) sec);
  known = λ a k e.
      let (is_3, key) = only_key a k e in
      (is_3 ∙ sym (ap (get_p2pk_witness_commitment bounded) key ∙ commitment_of_3), 3, rw key refl);
}

rich-CanPay : CanPay bounded rich
unfolding is_spendable find
rich-CanPay = record {
  sound = rich-IsSound;
  seeds = rich-IsReady.1;
  no_seeds = refl;
  keys = rich-HasKeys;
  coins = ((omega arith, refl), ((omega arith, refl), tt));
  fits = omega arith;
}

send_to-check_tx_example :
    (tx : FullTx) × ((send_to bounded 13 77 true (record { index = 0; seckey = 5 }) rich).0
      ≡ some (some tx))
    × (check_tx bounded tx ≡ none)
    × (get_elem? tx.outputs 0 ≡ some (pay_to bounded 77 13))
unfolding balance
send_to-check_tx_example =
    send_to-check_tx bounded 13 77 (record { index = 0; seckey = 5 }) rich bounded-IsSignatureScheme
      rich-CanPay (omega arith) (omega arith)

accumulate_inputs-eq_none_example :
    (((accumulate_inputs toy 21 rich).0 ≡ none) ↔ (balance rich < 21))
    × ((accumulate_inputs toy 21 rich).0 ≡ none → (accumulate_inputs toy 21 rich).1 ≡ rich)
accumulate_inputs-eq_none_example = accumulate_inputs-eq_none toy 21 rich rich-IsReady (omega arith)

-- A new wallet: no keys, no coins.
abbrev empty_wallet : Wallet
empty_wallet = record {
  balance = 0;
  utxos_set = [];
  seed_from = 0;
  seed_to = 0;
  seed_value = 0;
  seed_witness_commitment = 0;
  spend_queue = [];
  keys = [];
  pubkeys = [];
  witness_programs = [];
}

empty_wallet-IsReady : IsReady empty_wallet
empty_wallet-IsReady =
    (record { same = refl; distinct = tt; values = tt; total = refl }, (omega arith, omega arith))

-- Ten seeds of five units, and a payment of twelve.
abbrev seeded_wallet : Wallet
seeded_wallet = (seed toy 3 5 0 10 empty_wallet).1

abbrev after_payment : Wallet
after_payment = (send_to toy 12 77 true (record { index = 0; seckey = 5 }) seeded_wallet).1

seeds_spent : after_payment.seed_from ≡ 3
unfolding put seed send_to encode_vector encode_items encode_input encode_out_point encode_output
    le_bytes tx_id get_p2pk_witness_commitment
seeds_spent = refl

Steps-IsReady_example : IsReady after_payment
Steps-IsReady_example =
    Steps-IsReady toy empty_wallet after_payment
      (next _ _ _
        (next _ _ _ (start empty_wallet) (seeded 3 5 0 10 empty_wallet (omega arith) (omega arith)))
        (sent 12 77 true (record { index = 0; seckey = 5 }) seeded_wallet))
      empty_wallet-IsReady

-- A coin that a transaction spends and another wallet has confirmed stays in the queue.
spent_stays_queued :
    (update_balance [] (coin 0 10 ∷ []) rich).spend_queue ≡ coin 0 10 ∷ coin 1 10 ∷ []
unfolding update_balance
spent_stays_queued = refl

spent_leaves_set : (update_balance [] (coin 0 10 ∷ []) rich).utxos_set ≡ coin 1 10 ∷ []
unfolding update_balance
spent_leaves_set = refl
