-- ===== src/Sentinel.antt =====
-- src/uhs/sentinel/interface.hpp, and what src/uhs/twophase/sentinel_2pc/controller.cpp and
-- src/uhs/atomizer/sentinel/controller.cpp have in common: `validate_transaction`,
-- `gather_attestations` and `validate_result_handler`.
pub mod Gather
pub mod Enough
use cbdc_forensics.Common.{
  ℕ, Bool, true, false, List, [], ◌∷◌, Option, none, some, length, ltb, if◌then◌else◌, member,
  emplace, put,
}
use cbdc_forensics.Transaction.{FullTx, CompactTx}
use cbdc_forensics.Transaction.Crypto.{Crypto}
use cbdc_forensics.Transaction.Ids.{compact_tx, sign}
use cbdc_forensics.Transaction.Validation.{TxError, check_tx}

pub data TxStatus : Type 0 where
  pending static_invalid state_invalid confirmed : TxStatus

pub record ExecuteResponse : Type 0 where
  pub tx_status : TxStatus
  pub tx_error : Option TxError

-- An attestation: the public key of a sentinel, and its signature.
unfoldable pub valid_answer : Crypto → ℕ → FullTx → Option TxError → Option (ℕ × ℕ)
valid_answer c key tx none = some (sign c (compact_tx c tx) key)
valid_answer c key tx (some e) = none

-- `validate_transaction` of a sentinel with this private key.
unfoldable pub validate_transaction : Crypto → ℕ → FullTx → Option (ℕ × ℕ)
unfolding valid_answer
validate_transaction c key tx = valid_answer c key tx (check_tx c tx)

-- A round of the loop of `gather_attestations`: the sentinel that the random number names, whether
-- the request could be sent, and the answer that comes then.
pub record Round : Type 0 where
  pub sentinel_id : ℕ
  pub sent : Bool
  pub answer : Option (ℕ × ℕ)

pub data Gathered : Type 0 where
  -- a remote sentinel found the transaction invalid
  refused : Gathered
  -- enough attestations
  complete : CompactTx → Gathered
  -- the rounds are over and the loop, or an answer, is not
  unfinished : Gathered

-- `ctx.m_attestations.insert`
unfoldable pub insert_attestation : ℕ × ℕ → CompactTx → CompactTx
insert_attestation (pubkey, sig) ctx = record ctx { attestations = put pubkey sig ctx.attestations }

-- The callback: `gather` is the call of `gather_attestations` with the attestation inserted.
unfoldable pub validate_result_handler : Option (ℕ × ℕ) → (ℕ × ℕ → Gathered) → Gathered
validate_result_handler none gather = refused
validate_result_handler (some att) gather = gather att

unfoldable pub gather_attestations : ℕ → CompactTx → List ℕ → List Round → Gathered
unfolding insert_attestation validate_result_handler
gather_attestations threshold ctx requested [] =
    if ltb (length ctx.attestations) threshold then unfinished else complete ctx
gather_attestations threshold ctx requested (r ∷ rounds) =
    let again = gather_attestations threshold ctx requested rounds in
    let asked = validate_result_handler r.answer λ att.
      gather_attestations threshold (insert_attestation att ctx) (emplace r.sentinel_id requested)
        rounds in
    if ltb (length ctx.attestations) threshold
    then (if member r.sentinel_id requested then again else if r.sent then asked else again)
    else complete ctx
