-- ===== src/Transaction/Wallet/Steps.antt =====
-- src/uhs/transaction/wallet.cpp: the operations that change a wallet, as steps. `confirm_transaction`
-- is not one: the inputs it takes out of the set stay in the queue.
use cbdc_forensics.Common.{
  drop-append, ◌/◌, ◌&&◌, ℕ, ◌-◌, ◌*◌, ◌%◌, ◌^◌, ◌<◌, ◌≡◌, inl, inr, Bool, List, ◌++◌, Option, none,
  some, arith, length, All, ltb, leb, ◌==◌, Bool-cases, drop,
}
use cbdc_forensics.Transaction.{Input, FullTx}
use cbdc_forensics.Transaction.Crypto.{Crypto}
use cbdc_forensics.Transaction.Validation.{input_value}
use cbdc_forensics.Transaction.Wallet.{
  Wallet, Draw, add64, sub64, debit_all, generate_key, add_key, mint_new_coins, seed, seed_readonly,
  confirm_inputs, update_balance,
}
use cbdc_forensics.Transaction.Wallet.Spend.{
  Gathered, add_utxo, add_utxo_witness, below, fewer, gather_coins, take_enough, accumulate_inputs,
  restore_seeds, pay, fan_out, finish, if_gathered, send_to, fan, split, send_count,
}
use cbdc_forensics.Transaction.Wallet.Coins.{
  Gathers, gather_coins-Gathers, HasSeedRange, add_utxo-Adds, add_utxo_witness-Adds,
}
use cbdc_forensics.Transaction.Wallet.Ledger.{
  drop_fronts-IsSound, drop_fronts-KeepsRest, drop_inputs-IsSound, drop_inputs-KeepsRest,
  credit_all-IsSound, credit_all-KeepsRest, KeepsRest,
}
use cbdc_forensics.Transaction.Wallet.Funds.{IsReady, IsSound-seed_from}
use cbdc_forensics.Transaction.Wallet.Keys.{
  KeepsCoins-IsReady, generate_key-KeepsCoins, mint_outputs-KeepsCoins, change-KeepsCoins,
  finish_wallet,
}

-- A call is with 64-bit numbers.
pub data Step (c : Crypto) : Wallet → Wallet → Type 0 where
  confirmed :
      (credits : List Input) (w : Wallet)
      → All (λ inp. input_value inp < 2 ^ 64) credits
      → Step c w (confirm_inputs credits w)
  sent :
      (amount payee : ℕ) (sign_tx : Bool) (draw : Draw) (w : Wallet)
      → Step c w (send_to c amount payee sign_tx draw w).1
  fanned :
      (output_count value payee : ℕ) (sign_tx : Bool) (draw : Draw) (w : Wallet)
      → Step c w (fan c output_count value payee sign_tx draw w).1
  sent_count :
      (input_count output_count payee : ℕ) (sign_tx : Bool) (w : Wallet)
      → Step c w (send_count c input_count output_count payee sign_tx w).1
  minted :
      (draws : List Draw) (value : ℕ) (w : Wallet) → Step c w (mint_new_coins c draws value w).1
  generated : (draw : Draw) (w : Wallet) → Step c w (generate_key c draw w).1
  seeded :
      (privkey value begin_seed end_seed : ℕ) (w : Wallet)
      → begin_seed < 2 ^ 64
      → end_seed < 2 ^ 64
      → Step c w (seed c privkey value begin_seed end_seed w).1

pub data Steps (c : Crypto) : Wallet → Wallet → Type 0 where
  start : (w : Wallet) → Steps c w w
  next : (w w' w'' : Wallet) → Steps c w w' → Step c w' w'' → Steps c w w''

KeepsRest-HasSeedRange : (w w' : Wallet) → KeepsRest w w' → HasSeedRange w → HasSeedRange w'
KeepsRest-HasSeedRange w w' k lim = rw (k.seed_from, k.seed_to) lim

module _ (c : Crypto) where
  -- What `gather_coins` gives is a ready wallet, with the queue as it was.
  gathered-IsReady :
      (more : Gathered → Bool) (w w' : Wallet) (g : Gathered)
      → Gathers more w g w'
      → IsReady w
      → IsReady w'
  gathered-IsReady more w w' g h (s, lim) =
      rw h.wallet (IsSound-seed_from w _ s, (omega arith, lim.1))

  restored-IsReady : (g : Gathered) (w : Wallet) → IsReady w → IsReady (restore_seeds g w)
  restored-IsReady g w (s, lim) = (IsSound-seed_from w _ s, (omega arith, lim.1))

  take_enough-IsReady :
      (amount : ℕ) (g : Gathered) (w : Wallet) → IsReady w → IsReady (take_enough amount (g, w)).1
  unfolding take_enough
  take_enough-IsReady amount g w h = elim (Bool-cases (ltb g.total amount)) [
    | inl short ↦ rw short (restored-IsReady g w h)
    | inr enough ↦
        let n = length g.inputs - g.seeded in
        rw enough
          (drop_fronts-IsSound n w h.0, KeepsRest-HasSeedRange w _ (drop_fronts-KeepsRest n w) h.1)
  ]

  accumulate_inputs-IsReady :
      (amount : ℕ) (w : Wallet) → IsReady w → IsReady (accumulate_inputs c amount w).1
  unfolding accumulate_inputs
  accumulate_inputs-IsReady amount w h =
      let (g, w') = gather_coins c add_utxo_witness (below amount) w in
      take_enough-IsReady amount g w' (
        gathered-IsReady (below amount) w w' g
          (gather_coins-Gathers c add_utxo_witness (below amount) w add_utxo_witness-Adds h.1) h)

  pay-IsReady :
      (amount payee : ℕ) (draw : Draw) (g : Gathered) (w : Wallet)
      → IsReady w
      → IsReady (pay c amount payee draw (g, w)).1
  unfolding pay
  pay-IsReady amount payee draw g w =
      KeepsCoins-IsReady w _ (change-KeepsCoins c g.total amount draw w)

  fan_out-IsReady :
      (output_count value payee : ℕ) (draw : Draw) (g : Gathered) (w : Wallet)
      → IsReady w
      → IsReady (fan_out c output_count value payee draw (g, w)).1
  unfolding fan_out
  fan_out-IsReady output_count value payee draw g w =
      KeepsCoins-IsReady w _ (change-KeepsCoins c g.total (output_count * value % 2 ^ 64) draw w)

  finish-IsReady :
      (sign_tx : Bool) (r : FullTx × Wallet) → IsReady r.1 → IsReady (finish c sign_tx r).1
  finish-IsReady sign_tx (tx, w) h = rw (finish_wallet c sign_tx tx w) h

  if_gathered-IsReady :
      (rest : Gathered × Wallet → Option (Option FullTx) × Wallet) (r : Option Gathered × Wallet)
      → IsReady r.1
      → ((g : Gathered) (w : Wallet) → IsReady w → IsReady (rest (g, w)).1)
      → IsReady (if_gathered rest r).1
  if_gathered-IsReady rest (none, w) h k = h
  if_gathered-IsReady rest (some g, w) h k = k g w h

  split-IsReady :
      (more : Gathered → Bool) (output_count payee : ℕ) (sign_tx : Bool) (w w' : Wallet)
      (g : Gathered)
      → Gathers more w g w'
      → IsReady w'
      → IsReady (split c output_count payee sign_tx (g, w')).1
  unfolding split
  split-IsReady more output_count payee sign_tx w w' g h r =
      let queue : w'.spend_queue ≡ h.taken ++ h.rest = rw h.wallet h.queue_is in
      let taken : drop g.seeded g.inputs ≡ h.taken =
        rw (h.seeded, h.inputs, ← h.seed_count) (drop-append h.seed_inputs h.taken) in
      elim (Bool-cases (g.total / output_count == 0 && ltb 1 output_count)) [
        | inl poor ↦ rw poor (restored-IsReady g w' r)
        | inr rich ↦ rw rich (
            finish-IsReady sign_tx _ (
              rw taken (
                drop_inputs-IsSound h.taken h.rest w' queue r.0,
                KeepsRest-HasSeedRange w' _ (drop_inputs-KeepsRest h.taken w') r.1,
              )))
      ]

  send_count-IsReady :
      (input_count output_count payee : ℕ) (sign_tx : Bool) (w : Wallet)
      → IsReady w
      → IsReady (send_count c input_count output_count payee sign_tx w).1
  unfolding send_count
  send_count-IsReady input_count output_count payee sign_tx w r =
      let more = fewer input_count in
      let (g, w') = gather_coins c add_utxo more w in
      let h : Gathers more w g w' = gather_coins-Gathers c add_utxo more w add_utxo-Adds r.1 in
      let test = ltb (sub64 (add64 (length w.utxos_set) w.seed_to) w.seed_from) input_count in
      elim (Bool-cases test) [
        | inl poor ↦ rw poor r
        | inr enough ↦ rw enough (
            split-IsReady more output_count payee sign_tx w w' g h
              (gathered-IsReady more w w' g h r))
      ]

  seed-IsReady :
      (privkey value begin_seed end_seed : ℕ) (w : Wallet)
      → begin_seed < 2 ^ 64
      → end_seed < 2 ^ 64
      → IsReady w
      → IsReady (seed c privkey value begin_seed end_seed w).1
  unfolding seed seed_readonly add_key
  seed-IsReady privkey value begin_seed end_seed w hb he (s, lim) =
      elim (Bool-cases (leb end_seed begin_seed)) [
        | inl empty ↦ rw empty (s, lim)
        | inr range ↦ elim (Bool-cases (length w.keys == 0)) [
          | inl new ↦
              rw (range, new)
                (
                  record {
                    same = s.same;
                    distinct = s.distinct;
                    values = s.values;
                    total = s.total;
                  },
                  (hb, he),
                )
          | inr used ↦ rw (range, used) (s, lim)
        ]
      ]

  Step-IsReady : (w w' : Wallet) → Step c w w' → IsReady w → IsReady w'
  unfolding send_to fan mint_new_coins confirm_inputs update_balance debit_all
  Step-IsReady _ _ (confirmed credits w h) r = (
    credit_all-IsSound credits w h r.0,
    KeepsRest-HasSeedRange w _ (credit_all-KeepsRest credits w) r.1,
  )
  Step-IsReady _ _ (sent amount payee sign_tx draw w) r =
      let rest : Gathered × Wallet → FullTx × Wallet = λ s. pay c amount payee draw s in
      if_gathered-IsReady (λ s. finish c sign_tx (rest s)) (accumulate_inputs c amount w)
        (accumulate_inputs-IsReady amount w r)
        (λ g v k. finish-IsReady sign_tx (rest (g, v)) (pay-IsReady amount payee draw g v k))
  Step-IsReady _ _ (fanned output_count value payee sign_tx draw w) r =
      let amount = output_count * value % 2 ^ 64 in
      let rest : Gathered × Wallet → FullTx × Wallet =
        λ s. fan_out c output_count value payee draw s in
      if_gathered-IsReady (λ s. finish c sign_tx (rest s)) (accumulate_inputs c amount w)
        (accumulate_inputs-IsReady amount w r)
        (λ g v k.
          finish-IsReady sign_tx (rest (g, v))
            (fan_out-IsReady output_count value payee draw g v k))
  Step-IsReady _ _ (sent_count input_count output_count payee sign_tx w) r =
      send_count-IsReady input_count output_count payee sign_tx w r
  Step-IsReady _ _ (minted draws value w) r =
      KeepsCoins-IsReady w _ (mint_outputs-KeepsCoins c draws value w) r
  Step-IsReady _ _ (generated draw w) r =
      KeepsCoins-IsReady w _ (generate_key-KeepsCoins c draw w) r
  Step-IsReady _ _ (seeded privkey value begin_seed end_seed w hb he) r =
      seed-IsReady privkey value begin_seed end_seed w hb he r

  -- Confirming inputs with 64-bit values, both forms of `send_to`, `fan`, minting, making keys and
  -- seeding with a 64-bit range, in any order, keep a wallet ready (`IsReady`): its queue lists the
  -- outputs of its set, none twice, each with a 64-bit value, the balance is the sum of their
  -- values modulo 2^64, and the bounds of its seeds are 64-bit numbers.
  pub Steps-IsReady : (w w' : Wallet) → Steps c w w' → IsReady w → IsReady w'
  Steps-IsReady _ _ (start w) r = r
  Steps-IsReady _ _ (next w w' w'' before step) r =
      Step-IsReady w' w'' step (Steps-IsReady w w' before r)
