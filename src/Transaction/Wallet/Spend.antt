-- ===== src/Transaction/Wallet/Spend.antt =====
-- src/uhs/transaction/wallet.cpp, `accumulate_inputs`, `send_to` and `fan`. The exception of `sign` is
-- the absence of an outer result.
use cbdc_forensics.Common.{
  ℕ, zero, suc, ◌-◌, ◌*◌, ◌/◌, ◌%◌, ◌^◌, Bool, true, false, not, ◌&&◌, Option, none, some, List, [],
  ◌∷◌, ◌++◌, length, replicate, drop, ltb, ◌==◌, if◌then◌else◌,
}
use cbdc_forensics.Transaction.{Output, Input, FullTx}
use cbdc_forensics.Transaction.Crypto.{Crypto}
use cbdc_forensics.Transaction.Validation.{get_p2pk_witness_commitment}
use cbdc_forensics.Transaction.Wallet.{
  Wallet, Draw, add64, sub64, erase_utxo, seeds_left, create_seeded_input, generate_key, sign,
}

-- The local variables of the loops: the transaction's inputs and witness, the total and the number of
-- inputs that were seeded.
pub record Gathered : Type 0 where
  pub inputs : List Input
  pub witness : List (List ℕ)
  pub total : ℕ
  pub seeded : ℕ

abbrev pub nothing : Gathered
nothing = record { inputs = []; witness = []; total = 0; seeded = 0 }

-- `sig_len` zero bytes.
abbrev pub empty_sig : List ℕ
empty_sig = replicate 64 0

abbrev pub add_seed : Input → ℕ → Gathered → Gathered
add_seed inp value g = record {
  inputs = g.inputs ++ (inp ∷ []);
  witness = g.witness ++ (empty_sig ∷ []);
  total = add64 g.total value;
  seeded = suc g.seeded;
}

abbrev pub add_utxo : Input → Gathered → Gathered
add_utxo inp g = record g {
  inputs = g.inputs ++ (inp ∷ []);
  total = add64 g.total inp.prevout_data.value;
}

abbrev pub add_utxo_witness : Input → Gathered → Gathered
add_utxo_witness inp g = record g {
  inputs = g.inputs ++ (inp ∷ []);
  witness = g.witness ++ (empty_sig ∷ []);
  total = add64 g.total inp.prevout_data.value;
}

-- The loop over the queue, while `more` inputs are wanted.
unfoldable pub take_utxos :
    (Input → Gathered → Gathered) → (Gathered → Bool) → List Input → Gathered → Gathered
take_utxos add more [] g = g
take_utxos add more (inp ∷ queue) g =
    let rest = take_utxos add more queue (add inp g) in if more g then rest else g

-- `m_spend_queue.pop_front()` and the removal of what it held; an empty queue is undefined.
unfoldable pub drop_front : List Input → Wallet → Wallet
unfolding erase_utxo
drop_front [] w = w
drop_front (inp ∷ queue) w = record w {
  balance = sub64 w.balance inp.prevout_data.value;
  utxos_set = erase_utxo inp.prevout w.utxos_set;
  spend_queue = queue;
}

-- The last loop of `accumulate_inputs`.
unfoldable pub drop_fronts : ℕ → Wallet → Wallet
unfolding drop_front
drop_fronts zero w = w
drop_fronts (suc n) w = drop_fronts n (drop_front w.spend_queue w)

abbrev pub pop : List Input → List Input
pop [] = []
pop (inp ∷ queue) = queue

-- The last loop of the other `send_to`: what is removed is an input, and the queue loses its front.
unfoldable pub drop_inputs : List Input → Wallet → Wallet
unfolding erase_utxo
drop_inputs [] w = w
drop_inputs (inp ∷ inps) w = drop_inputs inps (record w {
  balance = sub64 w.balance inp.prevout_data.value;
  utxos_set = erase_utxo inp.prevout w.utxos_set;
  spend_queue = pop w.spend_queue;
})

-- `m_seed_from -= seeded_inputs`
abbrev pub restore_seeds : Gathered → Wallet → Wallet
restore_seeds g w = record w { seed_from = sub64 w.seed_from g.seeded }

-- After the loops of `accumulate_inputs`.
unfoldable pub take_enough : ℕ → Gathered × Wallet → Option Gathered × Wallet
unfolding drop_fronts
take_enough amount (g, w) =
    if ltb g.total amount
    then (none, restore_seeds g w)
    else (some g, drop_fronts (length g.inputs - g.seeded) w)

-- The outputs of the other `send_to`, which divides `total`: the last takes what is left.
unfoldable pub split_outputs : ℕ → ℕ → ℕ → ℕ → List Output
split_outputs zero commitment value total = []
split_outputs (suc n) commitment value total =
    let v = if n == 0 then total else value in
    record { witness_program_commitment = commitment; value = v }
    ∷ split_outputs n commitment value (sub64 total v)

abbrev pub below : ℕ → Gathered → Bool
below amount g = ltb g.total amount

abbrev pub fewer : ℕ → Gathered → Bool
fewer input_count g = ltb (length g.inputs) input_count

-- `if(!maybe_tx.has_value()) { return std::nullopt; }`, then the rest.
abbrev pub if_gathered :
    (Gathered × Wallet → Option (Option FullTx) × Wallet)
    → Option Gathered × Wallet
    → Option (Option FullTx) × Wallet
if_gathered rest (none, w) = (some none, w)
if_gathered rest (some g, w) = rest (g, w)

module _ (c : Crypto) where
  -- The loop over the seeds; the seeds that are left are enough rounds.
  unfoldable pub take_seeds : ℕ → (Gathered → Bool) → Gathered × Wallet → Gathered × Wallet
  unfolding create_seeded_input
  take_seeds zero more (g, w) = (g, w)
  take_seeds (suc left) more (g, w) =
      if not (w.seed_from == w.seed_to) && more g
      then elim (create_seeded_input c w.seed_from w) [
        | none ↦ (g, w)
        | some inp ↦
            take_seeds left more
              (add_seed inp w.seed_value g, record w { seed_from = add64 w.seed_from 1 })
      ]
      else (g, w)

  -- Both loops.
  unfoldable pub gather_coins :
      (Input → Gathered → Gathered) → (Gathered → Bool) → Wallet → Gathered × Wallet
  unfolding take_seeds take_utxos
  gather_coins add more w =
      let (g, w') = take_seeds (seeds_left w) more (nothing, w) in
      (take_utxos add more w'.spend_queue g, w')

  unfoldable pub accumulate_inputs : ℕ → Wallet → Option Gathered × Wallet
  unfolding gather_coins take_enough
  accumulate_inputs amount w = take_enough amount (gather_coins add_utxo_witness (below amount) w)

  abbrev pub pay_to : ℕ → ℕ → Output
  pay_to payee value = record {
    witness_program_commitment = get_p2pk_witness_commitment c payee;
    value = value;
  }

  -- `if(sign_tx) { sign(ret); } return ret;`
  unfoldable pub finish : Bool → FullTx × Wallet → Option (Option FullTx) × Wallet
  unfolding sign
  finish false (tx, w) = (some (some tx), w)
  finish true (tx, w) = (elim (sign c tx w) [ none ↦ none | some signed ↦ some (some signed) ], w)

  -- The change output, if the inputs are more than the amount.
  unfoldable pub change : ℕ → ℕ → Draw → Wallet → List Output × Wallet
  unfolding generate_key
  change total amount draw w =
      let (pubkey, w') = generate_key c draw w in
      if ltb amount total then (pay_to pubkey (sub64 total amount) ∷ [], w') else ([], w)

  unfoldable pub pay : ℕ → ℕ → Draw → Gathered × Wallet → FullTx × Wallet
  unfolding change
  pay amount payee draw (g, w) =
      let (outs, w') = change g.total amount draw w in
      (record { inputs = g.inputs; outputs = pay_to payee amount ∷ outs; witness = g.witness }, w')

  unfoldable pub fan_out : ℕ → ℕ → ℕ → Draw → Gathered × Wallet → FullTx × Wallet
  unfolding change
  fan_out output_count value payee draw (g, w) =
      let (outs, w') = change g.total (output_count * value % 2 ^ 64) draw w in
      (
        record {
          inputs = g.inputs;
          outputs = outs ++ replicate output_count (pay_to payee value);
          witness = g.witness;
        },
        w',
      )

  -- `send_to(amount, payee, sign_tx)`
  unfoldable pub send_to : ℕ → ℕ → Bool → Draw → Wallet → Option (Option FullTx) × Wallet
  unfolding accumulate_inputs pay finish
  send_to amount payee sign_tx draw w =
      if_gathered (λ s. finish sign_tx (pay amount payee draw s)) (accumulate_inputs amount w)

  unfoldable pub fan : ℕ → ℕ → ℕ → Bool → Draw → Wallet → Option (Option FullTx) × Wallet
  unfolding accumulate_inputs fan_out finish
  fan output_count value payee sign_tx draw w =
      if_gathered (λ s. finish sign_tx (fan_out output_count value payee draw s))
        (accumulate_inputs (output_count * value % 2 ^ 64) w)

  -- The part of the other `send_to` after its loops.
  unfoldable pub split : ℕ → ℕ → Bool → Gathered × Wallet → Option (Option FullTx) × Wallet
  unfolding drop_inputs split_outputs finish
  split output_count payee sign_tx (g, w) =
      let output_val = g.total / output_count in
      if output_val == 0 && ltb 1 output_count
      then (some none, restore_seeds g w)
      else finish sign_tx (
        record {
          inputs = g.inputs;
          outputs =
              split_outputs output_count (get_p2pk_witness_commitment c payee) output_val g.total;
          witness = g.witness;
        },
        drop_inputs (drop g.seeded g.inputs) w,
      )

  -- `send_to(input_count, output_count, payee, sign_tx)`, where neither count is zero.
  unfoldable pub send_count : ℕ → ℕ → ℕ → Bool → Wallet → Option (Option FullTx) × Wallet
  unfolding gather_coins split
  send_count input_count output_count payee sign_tx w =
      if ltb (sub64 (add64 (length w.utxos_set) w.seed_to) w.seed_from) input_count
      then (some none, w)
      else split output_count payee sign_tx (gather_coins add_utxo (fewer input_count) w)
