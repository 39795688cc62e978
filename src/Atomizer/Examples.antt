-- ===== src/Atomizer/Examples.antt =====
-- Tests of the model of the atomizer, and the theorems at concrete inputs.
use cbdc_forensics.Common.{
  ◌<◌, ◌≡◌, ◌↔◌, refl, none, some, List, [], ◌∷◌, arith, member, emplace, emplace_all, find, put,
  remove, assign,
}
use cbdc_forensics.Transaction.{CompactTx}
use cbdc_forensics.Atomizer.{
  TxError, Atomizer, new, insert, insert_complete, get_notification_offset, make_block,
}
use cbdc_forensics.Atomizer.Spent.{Call, notified, made_block, after_all, blocks_of}
use cbdc_forensics.Atomizer.DoubleSpend.{no_double_spend}
use cbdc_forensics.Atomizer.Bounds.{insert_out_of_bounds_iff}

abbrev pay : CompactTx
pay = record { id = 1; inputs = 5 ∷ []; uhs_outputs = 6 ∷ []; attestations = [] }

abbrev again : CompactTx
again = record { id = 2; inputs = 5 ∷ []; uhs_outputs = 7 ∷ []; attestations = [] }

abbrev mint : CompactTx
mint = record { id = 3; inputs = []; uhs_outputs = 9 ∷ []; attestations = [] }

abbrev fresh : Atomizer
fresh = record {
  txs = [] ∷ [] ∷ [] ∷ [];
  complete_txs = [];
  spent = [] ∷ [] ∷ [] ∷ [];
  best_height = 10;
  spent_cache_depth = 2;
}

initial : new 10 2 ≡ fresh
unfolding new
initial = refl

-- Between the two transactions: a block, and another transaction.
abbrev calls : List Call
calls = made_block ∷ notified 11 (record pay { id = 4; inputs = 8 ∷ [] }) (0 ∷ []) ∷ []

abbrev paid : Atomizer
paid = (insert_complete 10 pay fresh).1

abbrev later : Atomizer
later = record {
  txs = [] ∷ [] ∷ [] ∷ [];
  complete_txs = record pay { id = 4; inputs = 8 ∷ [] } ∷ [];
  spent = (8 ∷ []) ∷ (5 ∷ []) ∷ [] ∷ [];
  best_height = 11;
  spent_cache_depth = 2;
}

paid_ok : insert_complete 10 pay fresh ≡ (none, paid)
unfolding insert_complete get_notification_offset member emplace emplace_all
paid_ok = refl

calls_run : after_all calls paid ≡ some later
unfolding after_all insert insert_complete make_block get_notification_offset member emplace
    emplace_all find put remove assign
calls_run = refl

no_double_spend_example : (err : TxError) × (insert_complete 9 again later ≡ (some err, later))
unfolding member blocks_of
no_double_spend_example =
    no_double_spend 5 10 9 pay again calls fresh paid later refl refl refl (omega arith)
      (omega arith) paid_ok calls_run

insert_out_of_bounds_iff_example :
    (insert 3 mint [] fresh ≡ none) ↔ ((mint.inputs ≡ []) × (2 < get_notification_offset 3 fresh))
insert_out_of_bounds_iff_example = insert_out_of_bounds_iff 3 mint [] fresh refl
