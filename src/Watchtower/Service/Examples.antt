-- ===== src/Watchtower/Service/Examples.antt =====
-- Tests of the watchtower, and the theorem at a concrete input.
use cbdc_forensics.Common.{◌≡◌, refl, [], ◌∷◌, find, put, remove, member}
use cbdc_forensics.Transaction.{CompactTx}
use cbdc_forensics.Atomizer.{Block, tx_error_sync, tx_error_inputs_dne}
use cbdc_forensics.Watchtower.BlockCache.{check_spent}
use cbdc_forensics.Watchtower.ErrorCache.{check_tx_id}
use cbdc_forensics.Watchtower.Service.{
  Watchtower, new, add_block, add_errors, handle_status_update_request, state_at, spent, unspent,
  internal_error, no_history,
}
use cbdc_forensics.Watchtower.Service.Status.{spender, add_block_spent}

abbrev spends : CompactTx
spends = record { id = 4; inputs = 10 ∷ []; uhs_outputs = 11 ∷ 12 ∷ []; attestations = [] }

abbrev block_5 : Block
block_5 = record { height = 5; transactions = spends ∷ [] }

abbrev watching : Watchtower
watching = new 3 3

abbrev told : Watchtower
told = add_block block_5 watching

three_outputs :
    handle_status_update_request ((4, 10 ∷ 11 ∷ 13 ∷ []) ∷ []) told
    ≡ (4, state_at spent 5 10 ∷ state_at unspent 5 11 ∷ state_at no_history 5 13 ∷ []) ∷ []
unfolding handle_status_update_request add_block new find put remove
three_outputs = refl

-- The error is about a transaction that a block has: it is left out.
late_error_is_dropped :
    add_errors (record { tx_id = 4; info = tx_error_inputs_dne (10 ∷ []) } ∷ []) told ≡ told
unfolding add_errors add_block new find put
late_error_is_dropped = refl

-- An error of the other kinds is not, and the output has two states.
two_states :
    handle_status_update_request
      ((4, 10 ∷ []) ∷ [])
      (add_errors (record { tx_id = 4; info = tx_error_sync } ∷ []) told)
    ≡ (4, state_at internal_error 5 10 ∷ state_at spent 5 10 ∷ []) ∷ []
unfolding handle_status_update_request add_errors add_block new find put remove
two_states = refl

add_block_spent_example :
    handle_status_update_request ((4, 10 ∷ []) ∷ []) (add_block block_5 watching)
    ≡ (4, state_at spent 5 10 ∷ []) ∷ []
unfolding new spender find check_spent check_tx_id member
add_block_spent_example = add_block_spent block_5 watching 10 4 refl refl refl refl
