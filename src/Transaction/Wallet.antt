-- ===== src/Transaction/Wallet.antt =====
-- src/uhs/transaction/wallet.cpp: keys, unspent outputs and seeded outputs of a client. The random
-- numbers that a call draws are its arguments. The files of `save` and `load` are left out.
pub mod Spend
pub mod Coins
pub mod Signing
pub mod Accepted
pub mod Ledger
pub mod Keys
pub mod Keyring
pub mod Steps
pub mod Funds
pub mod Refund
mod Examples
use cbdc_forensics.Common.{
  ℕ, suc, ◌+◌, ◌-◌, ◌*◌, ◌%◌, ◌^◌, Bool, true, false, Option, none, some, List, [], ◌∷◌, ◌++◌,
  length, get_or, take, replicate, ltb, leb, ◌==◌, if◌then◌else◌, ◌>>=◌, Map, find, put,
}
use cbdc_forensics.Util.Serialization.Bytes.{le_bytes}
use cbdc_forensics.Transaction.{OutPoint, Output, Input, FullTx}
use cbdc_forensics.Transaction.Crypto.{Crypto}
use cbdc_forensics.Transaction.Ids.{tx_id, input_from_output, input_from_tx}
use cbdc_forensics.Transaction.Validation.{out_point_eq, get_p2pk_witness_commitment}

-- `utxos_set` is ordered by outpoint in the source and holds an outpoint once; `witness_programs` has
-- the key of a commitment.
pub record Wallet : Type 0 where
  pub balance : ℕ
  pub utxos_set : List Input
  pub seed_from : ℕ
  pub seed_to : ℕ
  pub seed_value : ℕ
  pub seed_witness_commitment : ℕ
  pub spend_queue : List Input
  pub keys : Map ℕ
  pub pubkeys : List ℕ
  pub witness_programs : Map ℕ

-- What `generate_key` draws: an index into the keys, and a private key.
pub record Draw : Type 0 where
  pub index : ℕ
  pub seckey : ℕ

abbrev pub max_keys : ℕ
max_keys = 10000

-- 64-bit arithmetic.
abbrev pub add64 : ℕ → ℕ → ℕ
add64 a b = (a + b) % 2 ^ 64

abbrev pub sub64 : ℕ → ℕ → ℕ
sub64 a b = (a + (2 ^ 64 - b)) % 2 ^ 64

unfoldable pub has_utxo : OutPoint → List Input → Bool
has_utxo p [] = false
has_utxo p (inp ∷ set) = if out_point_eq p inp.prevout then true else has_utxo p set

unfoldable pub erase_utxo : OutPoint → List Input → List Input
erase_utxo p [] = []
erase_utxo p (inp ∷ set) =
    let rest = erase_utxo p set in if out_point_eq p inp.prevout then rest else inp ∷ rest

-- The first loop of `update_balance`.
unfoldable pub credit_all : List Input → Wallet → Wallet
unfolding has_utxo
credit_all [] w = w
credit_all (inp ∷ credits) w = credit_all credits (
    if has_utxo inp.prevout w.utxos_set then w else record w {
      utxos_set = w.utxos_set ++ (inp ∷ []);
      balance = add64 w.balance inp.prevout_data.value;
      spend_queue = w.spend_queue ++ (inp ∷ []);
    })

-- The second loop: an output leaves the set, and stays in the queue.
unfoldable pub debit_all : List Input → Wallet → Wallet
unfolding has_utxo erase_utxo
debit_all [] w = w
debit_all (inp ∷ debits) w = debit_all debits (
    if has_utxo inp.prevout w.utxos_set
    then record w {
      utxos_set = erase_utxo inp.prevout w.utxos_set;
      balance = sub64 w.balance inp.prevout_data.value;
    }
    else w)

unfoldable pub update_balance : List Input → List Input → Wallet → Wallet
unfolding credit_all debit_all
update_balance credits debits w = debit_all debits (credit_all credits w)

unfoldable pub confirm_inputs : List Input → Wallet → Wallet
unfolding update_balance
confirm_inputs credits w = update_balance credits [] w

unfoldable pub seed_readonly : ℕ → ℕ → ℕ → ℕ → Wallet → Wallet
seed_readonly commitment value begin_seed end_seed w = record w {
  seed_from = begin_seed;
  seed_to = end_seed;
  seed_value = value;
  seed_witness_commitment = commitment;
}

-- The seeds that are left: what a loop on `m_seed_from != m_seed_to` runs through.
abbrev pub seeds_left : Wallet → ℕ
seeds_left w = sub64 w.seed_to w.seed_from

unfoldable pub balance : Wallet → ℕ
balance w =
    if w.seed_from == w.seed_to
    then w.balance
    else add64 w.balance (seeds_left w * w.seed_value % 2 ^ 64)

unfoldable pub count : Wallet → ℕ
count w =
    if w.seed_from == w.seed_to
    then length w.utxos_set
    else add64 (length w.utxos_set) (seeds_left w)

unfoldable pub is_spendable : Input → Wallet → Bool
is_spendable inp w = elim (find inp.prevout_data.witness_program_commitment w.witness_programs) [
  | none ↦ false
  | some pubkey ↦ true
]

-- `std::vector::resize`
unfoldable pub resize : ℕ → List (List ℕ) → List (List ℕ)
resize n xs = take n xs ++ replicate (n - length xs) []

module _ (c : Crypto) where
  unfoldable pub add_key : ℕ → ℕ → Wallet → Wallet
  add_key pubkey seckey w = record w {
    pubkeys = w.pubkeys ++ (pubkey ∷ []);
    keys = put pubkey seckey w.keys;
    witness_programs = put (get_p2pk_witness_commitment c pubkey) pubkey w.witness_programs;
  }

  -- With more than `max_keys` keys one of them is used again.
  unfoldable pub generate_key : Draw → Wallet → ℕ × Wallet
  unfolding add_key
  generate_key draw w =
      let pubkey = c.pubkey_from_privkey draw.seckey in
      if ltb max_keys (length w.keys)
      then (get_or w.pubkeys draw.index 0, w)
      else (pubkey, add_key pubkey draw.seckey w)

  -- One draw for each output.
  unfoldable pub mint_outputs : List Draw → ℕ → Wallet → List Output × Wallet
  unfolding generate_key
  mint_outputs [] value w = ([], w)
  mint_outputs (draw ∷ draws) value w =
      let (pubkey, w') = generate_key draw w in
      let (outs, w'') = mint_outputs draws value w' in
      (
        record { witness_program_commitment = get_p2pk_witness_commitment c pubkey; value = value }
            ∷ outs,
        w'',
      )

  unfoldable pub mint_new_coins : List Draw → ℕ → Wallet → FullTx × Wallet
  unfolding mint_outputs
  mint_new_coins draws value w =
      let (outs, w') = mint_outputs draws value w in
      (record { inputs = []; outputs = outs; witness = [] }, w')

  unfoldable pub create_seeded_transaction : ℕ → Wallet → Option FullTx
  create_seeded_transaction seed_idx w =
      if w.seed_from == w.seed_to
      then none
      else some (record {
        inputs =
            record {
              prevout = record { tx_id = 0; index = seed_idx };
              prevout_data = record { witness_program_commitment = 0; value = w.seed_value };
            }
            ∷ [];
        outputs =
            record { witness_program_commitment = w.seed_witness_commitment; value = w.seed_value }
            ∷ [];
        witness = [];
      })

  unfoldable pub create_seeded_input : ℕ → Wallet → Option Input
  unfolding create_seeded_transaction input_from_output
  create_seeded_input seed_idx w = do
    tx ← create_seeded_transaction seed_idx w
    input_from_output tx 0 (tx_id c tx)

  -- The outputs for `commitment` from index `i`, as inputs.
  unfoldable pub inputs_for : FullTx → ℕ → ℕ → List Output → List Input
  inputs_for tx commitment i [] = []
  inputs_for tx commitment i (out ∷ outs) =
      let rest = inputs_for tx commitment (suc i) outs in
      if out.witness_program_commitment == commitment
      then record { prevout = record { tx_id = tx_id c tx; index = i }; prevout_data = out } ∷ rest
      else rest

  unfoldable pub export_send_inputs : FullTx → ℕ → List Input
  unfolding inputs_for
  export_send_inputs tx payee = inputs_for tx (get_p2pk_witness_commitment c payee) 0 tx.outputs

  -- The 97 bytes of a witness: the type, the key and the signature.
  unfoldable pub p2pk_witness : ℕ → ℕ → ℕ → List ℕ
  p2pk_witness pubkey seckey sighash =
      0 ∷ (le_bytes 32 pubkey ++ le_bytes 64 (c.schnorrsig_sign sighash seckey))

  -- One round of `sign`: a witness of an input with a key of ours is replaced. The exception of
  -- `m_keys.at` is the absence of a result.
  unfoldable pub sign_input : ℕ → Wallet → Input → List ℕ → Option (List ℕ)
  unfolding p2pk_witness
  sign_input sighash w inp wit =
      elim (find inp.prevout_data.witness_program_commitment w.witness_programs) [
        | none ↦ some wit
        | some pubkey ↦ elim (find pubkey w.keys) [
          | none ↦ none
          | some seckey ↦ some (p2pk_witness pubkey seckey sighash)
        ]
      ]

  unfoldable pub sign_inputs : ℕ → Wallet → List Input → List (List ℕ) → Option (List (List ℕ))
  unfolding sign_input
  sign_inputs sighash w (inp ∷ inps) (wit ∷ wits) = do
    wit' ← sign_input sighash w inp wit
    rest ← sign_inputs sighash w inps wits
    some (wit' ∷ rest)
  sign_inputs sighash w [] wits = some []
  sign_inputs sighash w (inp ∷ inps) [] = some []

  unfoldable pub sign : FullTx → Wallet → Option FullTx
  unfolding sign_inputs resize
  sign tx w = do
    wits ← sign_inputs (tx_id c tx) w tx.inputs (resize (length tx.inputs) tx.witness)
    some (record tx { witness = wits })

  -- The outputs from index `i` that are for a key of ours, as inputs.
  unfoldable pub own_outputs : FullTx → Wallet → ℕ → List Output → List Input
  unfolding is_spendable
  own_outputs tx w i [] = []
  own_outputs tx w i (out ∷ outs) =
      let inp : Input = record {
        prevout = record { tx_id = tx_id c tx; index = i };
        prevout_data = out;
      } in
      let rest = own_outputs tx w (suc i) outs in if is_spendable inp w then inp ∷ rest else rest

  unfoldable pub confirm_transaction : FullTx → Wallet → Wallet
  unfolding own_outputs update_balance
  confirm_transaction tx w = update_balance (own_outputs tx w 0 tx.outputs) tx.inputs w

  unfoldable pub seed : ℕ → ℕ → ℕ → ℕ → Wallet → Bool × Wallet
  unfolding add_key seed_readonly
  seed privkey value begin_seed end_seed w =
      let pubkey = c.pubkey_from_privkey privkey in
      if leb end_seed begin_seed
      then (false, w)
      else if length w.keys == 0
      then (
        true,
        seed_readonly (get_p2pk_witness_commitment c pubkey) value begin_seed end_seed
            (add_key pubkey privkey w),
      )
      else (false, w)
