-- ===== src/Watchtower/ErrorCache.antt =====
-- src/uhs/atomizer/watchtower/error_cache.cpp: the last errors, found by transaction and by output.
pub mod Sound
mod Examples
use cbdc_forensics.Common.{
  ℕ, Bool, true, false, not, ◌&&◌, Option, List, [], ◌∷◌, ◌++◌, length, ◌==◌, if◌then◌else◌, Map,
  find, put, remove,
}
use cbdc_forensics.Atomizer.{
  TxError, TxErrorInfo, tx_error_sync, tx_error_stxo_range, tx_error_incomplete,
  tx_error_inputs_dne, tx_error_inputs_spent,
}

-- The queue has the oldest error first; the maps share its errors.
pub record ErrorCache : Type 0 where
  pub k_errs : ℕ
  pub errs : List TxError
  pub uhs_errs : Map TxError
  pub tx_id_errs : Map TxError

unfoldable pub new : ℕ → ErrorCache
new k = record { k_errs = k; errs = []; uhs_errs = []; tx_id_errs = [] }

-- `std::visit`: the outputs that an error names.
unfoldable pub input_uhs_ids : TxErrorInfo → List ℕ
input_uhs_ids tx_error_sync = []
input_uhs_ids (tx_error_inputs_dne ids) = ids
input_uhs_ids (tx_error_inputs_spent ids) = ids
input_uhs_ids tx_error_stxo_range = []
input_uhs_ids tx_error_incomplete = []

unfoldable pub erase_errs : List ℕ → Map TxError → Map TxError
erase_errs [] m = m
erase_errs (id ∷ ids) m = erase_errs ids (remove id m)

unfoldable pub insert_errs : TxError → List ℕ → Map TxError → Map TxError
insert_errs e [] m = m
insert_errs e (id ∷ ids) m = insert_errs e ids (put id e m)

-- The oldest error leaves, with the entries under its transaction and its outputs.
unfoldable pub pop_error : List TxError → ErrorCache → ErrorCache
unfolding erase_errs input_uhs_ids
pop_error [] c = c
pop_error (old ∷ errs) c = record c {
  errs = errs;
  tx_id_errs = remove old.tx_id c.tx_id_errs;
  uhs_errs = erase_errs (input_uhs_ids old.info) c.uhs_errs;
}

abbrev pub is_full : ErrorCache → Bool
is_full c = not (c.k_errs == 0) && (length c.errs == c.k_errs)

-- An entry that is in a map already stays.
unfoldable pub add_error : TxError → ErrorCache → ErrorCache
unfolding insert_errs input_uhs_ids
add_error err c = record c {
  errs = c.errs ++ (err ∷ []);
  tx_id_errs = put err.tx_id err c.tx_id_errs;
  uhs_errs = insert_errs err (input_uhs_ids err.info) c.uhs_errs;
}

unfoldable pub push_errors : List TxError → ErrorCache → ErrorCache
unfolding pop_error add_error
push_errors [] c = c
push_errors (err ∷ errs) c =
    push_errors errs (add_error err (if is_full c then pop_error c.errs c else c))

unfoldable pub check_tx_id : ℕ → ErrorCache → Option TxError
check_tx_id tx_id c = find tx_id c.tx_id_errs

unfoldable pub check_uhs_id : ℕ → ErrorCache → Option TxError
check_uhs_id uhs_id c = find uhs_id c.uhs_errs
