-- ===== src/Watchtower/Service.antt =====
-- src/uhs/atomizer/watchtower/watchtower.cpp: the watchtower takes the blocks of the atomizer and the
-- errors of all, and answers requests for the status of outputs.
pub mod Status
mod Examples
use cbdc_forensics.Common.{
  ℕ, Bool, true, false, not, ◌||◌, Option, none, some, List, [], ◌∷◌, ◌++◌, ◌==◌, if◌then◌else◌,
  Map, put,
}
use cbdc_forensics.Atomizer.{
  Block, TxError, TxErrorInfo, tx_error_sync, tx_error_stxo_range, tx_error_incomplete,
  tx_error_inputs_dne, tx_error_inputs_spent,
}
use cbdc_forensics.Watchtower.BlockCache.{
  BlockCache, BlockCacheResult, push_block, check_spent, check_unspent, best_block_height,
}
use cbdc_forensics.Watchtower.ErrorCache.{ErrorCache, push_errors, check_tx_id, check_uhs_id}
use cbdc_forensics.Watchtower.BlockCache
use cbdc_forensics.Watchtower.ErrorCache

pub record Watchtower : Type 0 where
  pub bc : BlockCache
  pub ec : ErrorCache

pub data SearchStatus : Type 0 where
  no_history unspent spent tx_rejected invalid_input internal_error : SearchStatus

pub record StatusUpdateState : Type 0 where
  pub status : SearchStatus
  pub block_height : ℕ
  pub uhs_id : ℕ

unfoldable pub new : ℕ → ℕ → Watchtower
unfolding BlockCache.new ErrorCache.new
new block_cache_size error_cache_size = record {
  bc = BlockCache.new block_cache_size;
  ec = ErrorCache.new error_cache_size;
}

unfoldable pub add_block : Block → Watchtower → Watchtower
unfolding push_block
add_block blk w = record w { bc = push_block blk w.bc }

abbrev pub state_at : SearchStatus → ℕ → ℕ → StatusUpdateState
state_at s height id = record { status = s; block_height = height; uhs_id = id }

-- The entry of a cache names the transaction.
unfoldable pub names_tx : ℕ → Option BlockCacheResult → Bool
names_tx tx_id none = false
names_tx tx_id (some (height, id)) = tx_id == id

unfoldable pub check_uhs : ℕ → List ℕ → BlockCache → Bool
unfolding names_tx check_spent check_unspent
check_uhs tx_id [] bc = false
check_uhs tx_id (uhs ∷ ids) bc =
    names_tx tx_id (check_spent uhs bc)
    || (names_tx tx_id (check_unspent uhs bc) || check_uhs tx_id ids bc)

-- `repeated_tx_filter`, by the kind of the error.
unfoldable pub is_repeated : ℕ → TxErrorInfo → BlockCache → Bool
unfolding check_uhs
is_repeated tx_id (tx_error_inputs_spent ids) bc = check_uhs tx_id ids bc
is_repeated tx_id (tx_error_inputs_dne ids) bc = check_uhs tx_id ids bc
is_repeated tx_id tx_error_sync bc = false
is_repeated tx_id tx_error_stxo_range bc = false
is_repeated tx_id tx_error_incomplete bc = false

-- `std::remove_if` and `erase`
unfoldable pub remove_repeated : List TxError → BlockCache → List TxError
unfolding is_repeated
remove_repeated [] bc = []
remove_repeated (err ∷ errs) bc =
    let rest = remove_repeated errs bc in
    if is_repeated err.tx_id err.info bc then rest else err ∷ rest

unfoldable pub add_errors : List TxError → Watchtower → Watchtower
unfolding push_errors remove_repeated
add_errors errs w = record w { ec = push_errors (remove_repeated errs w.bc) w.ec }

-- The parts of the body of the loop of `check_uhs_id_statuses`: the state that an error gives.
unfoldable pub error_states : ℕ → Bool → Bool → ℕ → ErrorCache → List StatusUpdateState
unfolding check_uhs_id
error_states uhs_id internal_err tx_err best_height ec =
    if internal_err
    then state_at internal_error best_height uhs_id ∷ []
    else if tx_err
    then elim (check_uhs_id uhs_id ec) [
      | none ↦ state_at tx_rejected best_height uhs_id ∷ []
      | some err ↦ state_at invalid_input best_height uhs_id ∷ []
    ]
    else []

-- The state from an entry of a cache, if it names the transaction.
unfoldable pub entry_states : SearchStatus → ℕ → ℕ → BlockCacheResult → List StatusUpdateState
entry_states s uhs_id tx_id (height, id) = if id == tx_id then state_at s height uhs_id ∷ [] else []

-- `if(spent) … else if(unspent) …`
unfoldable pub block_states :
    ℕ → ℕ → Option BlockCacheResult → Option BlockCacheResult → List StatusUpdateState
unfolding entry_states
block_states uhs_id tx_id (some entry) other = entry_states spent uhs_id tx_id entry
block_states uhs_id tx_id none (some entry) = entry_states unspent uhs_id tx_id entry
block_states uhs_id tx_id none none = []

-- `if(!found_status)`
unfoldable pub or_no_history : ℕ → ℕ → List StatusUpdateState → List StatusUpdateState
or_no_history uhs_id best_height [] = state_at no_history best_height uhs_id ∷ []
or_no_history uhs_id best_height (s ∷ ss) = s ∷ ss

unfoldable pub uhs_id_states : ℕ → ℕ → Bool → Bool → ℕ → Watchtower → List StatusUpdateState
unfolding error_states block_states or_no_history check_spent check_unspent
uhs_id_states uhs_id tx_id internal_err tx_err best_height w = or_no_history uhs_id best_height (
    error_states uhs_id internal_err tx_err best_height w.ec
    ++ block_states uhs_id tx_id (check_spent uhs_id w.bc) (check_unspent uhs_id w.bc))

unfoldable pub check_uhs_id_statuses :
    List ℕ → ℕ → Bool → Bool → ℕ → Watchtower → List StatusUpdateState
unfolding uhs_id_states
check_uhs_id_statuses [] tx_id internal_err tx_err best_height w = []
check_uhs_id_statuses (uhs_id ∷ ids) tx_id internal_err tx_err best_height w =
    uhs_id_states uhs_id tx_id internal_err tx_err best_height w
    ++ check_uhs_id_statuses ids tx_id internal_err tx_err best_height w

-- `internal_err`, and `tx_err.has_value()`.
unfoldable pub is_internal : Option TxError → Bool
is_internal none = false
is_internal (some err) = elim err.info [
  | tx_error_sync ↦ true
  | tx_error_stxo_range ↦ true
  | tx_error_incomplete ↦ false
  | tx_error_inputs_dne ids ↦ false
  | tx_error_inputs_spent ids ↦ false
]

unfoldable pub has_error : Option TxError → Bool
has_error none = false
has_error (some err) = true

-- The request and the answer are maps from the identifiers of transactions.
unfoldable pub handle_status_update_request :
    Map (List ℕ) → Watchtower → Map (List StatusUpdateState)
unfolding check_uhs_id_statuses is_internal has_error check_tx_id best_block_height
handle_status_update_request [] w = []
handle_status_update_request ((tx_id, uhs_ids) ∷ req) w =
    let tx_err = check_tx_id tx_id w.ec in
    (
      tx_id,
      check_uhs_id_statuses uhs_ids tx_id (is_internal tx_err) (has_error tx_err)
          (best_block_height w.bc) w,
    )
    ∷ handle_status_update_request req w

unfoldable pub handle_best_block_height_request : Watchtower → ℕ
unfolding best_block_height
handle_best_block_height_request w = best_block_height w.bc
