-- ===== src/TwoPhase/Sentinel/Examples.antt =====
-- Tests of the sentinel of the two-phase architecture, and the theorems at concrete inputs.
use cbdc_forensics.Common.{
  ℕ, ◌+◌, ◌<◌, ◌≡◌, refl, true, false, List, [], ◌∷◌, none, arith, member, emplace,
}
use cbdc_forensics.Transaction.{CompactTx}
use cbdc_forensics.Transaction.Ids.{compact_tx}
use cbdc_forensics.Transaction.Payment.{payment, payment_passes}
use cbdc_forensics.Transaction.Toy.{toy, toy-IsSigner}
use cbdc_forensics.Transaction.Validation.{check_tx, check_attestations}
use cbdc_forensics.Sentinel.{Round, validate_transaction}
use cbdc_forensics.Sentinel.Gather.{asked, IsNetwork, Answers}
use cbdc_forensics.TwoPhase.Sentinel.{forwarded, execute_transaction}
use cbdc_forensics.TwoPhase.Sentinel.Attested.{forwarded_is_attested, execute_transaction_forwards}

-- Two remote sentinels; the sentinel itself has the key 21.
abbrev keys : ℕ → ℕ
keys i = i + 22

abbrev pubkeys : List ℕ
pubkeys = 21 ∷ 22 ∷ 23 ∷ []

member_pubkeys : (i : ℕ) → i < 2 → member (i + 22) pubkeys ≡ true
unfolding member
member_pubkeys i lt = ground arith

network : IsNetwork toy payment pubkeys 2 keys
network = record {
  signs = λ i lt. toy-IsSigner (i + 22) _;
  known = member_pubkeys;
  distinct = λ i j p q e. omega (arith, e);
}

-- The first is asked once, although its number comes twice; the second at the second try.
abbrev rounds : List Round
rounds =
    record { sentinel_id = 0; sent = true; answer = validate_transaction toy 22 payment }
    ∷ record { sentinel_id = 0; sent = true; answer = validate_transaction toy 22 payment }
    ∷ record { sentinel_id = 1; sent = false; answer = validate_transaction toy 23 payment }
    ∷ record { sentinel_id = 1; sent = true; answer = validate_transaction toy 23 payment }
    ∷ []

rounds_answer : Answers toy payment 2 keys rounds
rounds_answer =
    let first : 0 < 2 = omega arith in
    let second : 1 < 2 = omega arith in
    ((first, refl), ((first, refl), ((second, refl), ((second, refl), tt))))

execute_transaction_forwards_example :
    (ctx : CompactTx) × (execute_transaction toy 21 3 payment rounds (false ∷ true ∷ [])
      ≡ forwarded ctx)
unfolding asked member emplace
execute_transaction_forwards_example =
    execute_transaction_forwards toy payment pubkeys 2 keys 21 3 rounds (false ∷ true ∷ [])
      payment_passes network (λ i lt e. omega (arith, e)) rounds_answer (omega arith) tt

payment_forwarded :
    (ctx : CompactTx) × (execute_transaction toy 21 3 payment rounds (false ∷ true ∷ [])
      ≡ forwarded ctx)
unfolding asked member emplace
payment_forwarded =
    execute_transaction_forwards toy payment pubkeys 2 keys 21 3 rounds (false ∷ true ∷ [])
      payment_passes network (λ i lt e. omega (arith, e)) rounds_answer (omega arith) tt

forwarded_is_attested_example :
    (check_tx toy payment ≡ none)
    × (record payment_forwarded.0 { attestations = [] } ≡ compact_tx toy payment)
    × (check_attestations toy payment_forwarded.0 pubkeys 3 ≡ true)
unfolding member
forwarded_is_attested_example =
    forwarded_is_attested toy payment pubkeys 2 keys 21 3 rounds (false ∷ true ∷ [])
      payment_forwarded.0 (toy-IsSigner 21 _) refl network rounds_answer payment_forwarded.1
