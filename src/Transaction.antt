-- ===== src/Transaction.antt =====
-- src/uhs/transaction/transaction.hpp: transactions. A `hash_t`, a public key and a signature is the
-- number whose bytes, least first, are the array; `val[0]` is the number modulo 256.
pub mod Messages
pub mod Crypto
pub mod Toy
pub mod Ids
pub mod Validation
pub mod Wallet
pub mod Payment
mod Examples
use cbdc_forensics.Common.{ℕ, List, Map}

pub record OutPoint : Type 0 where
  pub tx_id : ℕ
  pub index : ℕ

pub record Output : Type 0 where
  pub witness_program_commitment : ℕ
  pub value : ℕ

pub record Input : Type 0 where
  pub prevout : OutPoint
  pub prevout_data : Output

pub record FullTx : Type 0 where
  pub inputs : List Input
  pub outputs : List Output
  pub witness : List (List ℕ)

-- The attestations are a map from public keys to signatures.
pub record CompactTx : Type 0 where
  pub id : ℕ
  pub inputs : List ℕ
  pub uhs_outputs : List ℕ
  pub attestations : Map ℕ
