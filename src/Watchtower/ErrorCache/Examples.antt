-- ===== src/Watchtower/ErrorCache/Examples.antt =====
-- Tests of the model of the error cache, and the theorem at a concrete input.
use cbdc_forensics.Common.{◌≡◌, refl, none, some, [], ◌∷◌, find, put, remove}
use cbdc_forensics.Atomizer.{TxError, tx_error_incomplete, tx_error_inputs_spent}
use cbdc_forensics.Watchtower.ErrorCache.{new, push_errors, check_tx_id, check_uhs_id}
use cbdc_forensics.Watchtower.ErrorCache.Sound.{IsSound, new-IsSound, push_errors-IsSound}

abbrev spent : TxError
spent = record { tx_id = 1; info = tx_error_inputs_spent (5 ∷ 6 ∷ []) }

abbrev incomplete : TxError
incomplete = record { tx_id = 2; info = tx_error_incomplete }

found : check_uhs_id 6 (push_errors (spent ∷ incomplete ∷ []) (new 2)) ≡ some spent
unfolding check_uhs_id push_errors new find put remove
found = refl

-- The oldest of three errors has left the cache of two, and with it the entry that the newest one,
-- about the same transaction, relied on.
lost : check_tx_id 1 (push_errors (spent ∷ spent ∷ incomplete ∷ []) (new 2)) ≡ none
unfolding check_tx_id push_errors new find put remove
lost = refl

push_errors-IsSound_example : IsSound (push_errors (spent ∷ incomplete ∷ spent ∷ []) (new 2))
push_errors-IsSound_example =
    push_errors-IsSound (spent ∷ incomplete ∷ spent ∷ []) (new 2) (new-IsSound 2)
