-- ===== src/Atomizer/Sentinel/Sending.antt =====
-- src/uhs/atomizer/sentinel/controller.cpp, `send_compact_tx`: the shards that get a transaction.
use cbdc_forensics.Common.{
  ℕ, zero, suc, ◌+◌, ◌-◌, ◌%◌, ◌≤◌, ◌<◌, ◌≡◌, refl, subst, inl, inr, Bool, true, false, List, [],
  ◌∷◌, Option, none, some, arith, length, get_elem?, get_or, ◌==◌, if◌then◌else◌, Bool-cases, All,
  All-map, member,
}
use cbdc_forensics.Transaction.{CompactTx}
use cbdc_forensics.TwoPhase.LockingShard.{hash_in_shard_range}
use cbdc_forensics.Atomizer.Sentinel.{
  ShardInfo, input_in_range, branch, mark_inputs, no_shard, marked, send_from, send_compact_tx,
}

member_below : (j : ℕ) (s : List ℕ) → All (λ k. k < j) s → member j s ≡ false
unfolding member
member_below j [] h = refl
member_below j (k ∷ s) h = ground (arith, member_below j s h.1)

-- An input out of the range of the shard marks nothing.
mark_inputs_outside :
    (n j : ℕ) (sent : List ℕ) (b : Bool) → mark_inputs (some false) n j sent b ≡ some (sent, b)
unfolding mark_inputs branch
mark_inputs_outside zero j sent b = refl
mark_inputs_outside (suc n) j sent b = elim (Bool-cases (member j sent)) [
  | inl old ↦ rw old (mark_inputs_outside n (suc j) sent b)
  | inr new ↦ rw new (mark_inputs_outside n (suc j) sent b)
]

-- An input in its range marks all the inputs from `j`.
mark_inputs_inside :
    (n j : ℕ) (sent : List ℕ) (b : Bool)
    → All (λ k. k < j) sent
    → (sent' : List ℕ) × (mark_inputs (some true) (suc n) j sent b ≡ some (sent', true))
      × (length sent' ≡ length sent + suc n)
unfolding mark_inputs branch
mark_inputs_inside zero j sent b below = (j ∷ sent, rw (member_below j sent below), omega arith)
mark_inputs_inside (suc n) j sent b below =
    let below' : All (λ k. k < suc j) (j ∷ sent) =
      (omega arith, All-map (λ k lt. omega arith) sent below) in
    let (sent', e, l) = mark_inputs_inside n (suc j) (j ∷ sent) true below' in
    (sent', rw (member_below j sent below) e, omega (arith, l))

abbrev AtMostOne : Option (List ℕ) → Type 0
AtMostOne none = Unit {0}
AtMostOne (some peers) = length peers ≤ 1

AtMostOne-if :
    (b : Bool) (x y : Option (List ℕ)) → AtMostOne x → AtMostOne y → AtMostOne (if b then x else y)
AtMostOne-if true x y p q = p
AtMostOne-if false x y p q = q

module _ (inputs : List ℕ) (shards : List ShardInfo) (offset : ℕ) where
  -- When all inputs are marked, the loop ends.
  send_from_marked :
      (n i : ℕ) (sent peers : List ℕ)
      → length sent ≡ length inputs
      → length peers ≤ 1
      → AtMostOne (send_from inputs shards offset n i sent peers)
  unfolding send_from
  send_from_marked zero i sent peers all one = one
  send_from_marked (suc n) i sent peers all one =
      let full : (length sent == length inputs) ≡ true = ground (arith, all) in rw full one

  marked_once :
      (m n i peer : ℕ) (test : Option Bool)
      → suc m ≡ length inputs
      → AtMostOne (send_from inputs shards offset n i [] [])
      → AtMostOne (
          marked (mark_inputs test (suc m) 0 [] false) peer [] (send_from inputs shards offset n i))
  unfolding marked mark_inputs branch member
  marked_once m n i peer none len rest = tt
  marked_once m n i peer (some false) len rest = rw (mark_inputs_outside (suc m) 0 [] false) rest
  marked_once m n i peer (some true) len rest =
      let (sent, e, l) = mark_inputs_inside m 0 [] false tt in
      rw e (send_from_marked n i sent (peer ∷ []) (omega (arith, l, len)) (omega arith))

  send_from_once :
      (m n i : ℕ) → suc m ≡ length inputs → AtMostOne (send_from inputs shards offset n i [] [])
  unfolding send_from
  send_from_once m zero i len = omega arith
  send_from_once m (suc n) i len =
      let shard = get_or shards ((i + offset) % length shards) no_shard in
      let rest = send_from_once m n (suc i) len in
      let test = input_in_range shard.range (get_elem? inputs i) in
      let first =
        subst
          (λ k. AtMostOne (
            marked (mark_inputs test k 0 [] false) shard.peer_id []
              (send_from inputs shards offset n (suc i))))
          len (marked_once m n (suc i) shard.peer_id test len rest) in
      let some_left : (0 == length inputs) ≡ false = ground (arith, len) in
      rw some_left (AtMostOne-if shard.connected _ _ first rest)

send_from-AtMostOne :
    (inputs : List ℕ) (shards : List ShardInfo) (offset n : ℕ)
    → AtMostOne (send_from inputs shards offset n 0 [] [])
unfolding send_from
send_from-AtMostOne [] shards offset zero = omega arith
send_from-AtMostOne [] shards offset (suc n) = omega arith
send_from-AtMostOne (x ∷ inputs) shards offset n =
    send_from_once (x ∷ inputs) shards offset (length inputs) n 0 refl

-- A compact transaction that the sentinel sends to the shards, without a read out of bounds, goes
-- to one shard at most, whatever the ranges of the shards and its inputs.
pub send_compact_tx_once :
    (shards : List ShardInfo) (offset : ℕ) (ctx : CompactTx) (peers : List ℕ)
    → send_compact_tx shards offset ctx ≡ some peers
    → length peers ≤ 1
unfolding send_compact_tx
send_compact_tx_once shards offset ctx peers e =
    subst AtMostOne e (send_from-AtMostOne ctx.inputs shards offset (length shards))

send_from_out_of_bounds :
    (shards : List ShardInfo) (offset input n : ℕ)
    → (get_or shards ((0 + offset) % length shards) no_shard).connected ≡ true
    → hash_in_shard_range (get_or shards ((0 + offset) % length shards) no_shard).range input
      ≡ false
    → (get_or shards ((1 + offset) % length shards) no_shard).connected ≡ true
    → send_from (input ∷ []) shards offset (suc (suc n)) 0 [] [] ≡ none
unfolding send_from marked mark_inputs branch input_in_range member
send_from_out_of_bounds shards offset input n up out up' = rw (up, out, up')

-- A transaction of one input, for which the shard that is visited first is connected and has another
-- range, makes the loop read out of bounds when there is a second shard that is connected.
pub send_compact_tx_out_of_bounds :
    (shards : List ShardInfo) (offset input : ℕ) (ctx : CompactTx)
    → ctx.inputs ≡ input ∷ []
    → 2 ≤ length shards
    → (get_or shards (offset % length shards) no_shard).connected ≡ true
    → hash_in_shard_range (get_or shards (offset % length shards) no_shard).range input ≡ false
    → (get_or shards ((1 + offset) % length shards) no_shard).connected ≡ true
    → send_compact_tx shards offset ctx ≡ none
unfolding send_compact_tx
send_compact_tx_out_of_bounds shards offset input ctx e two up out up' =
    let first : 0 + offset ≡ offset = omega arith in
    let count : length shards ≡ suc (suc (length shards - 2)) = omega (arith, two) in
    rw (e, count)
      (send_from_out_of_bounds shards offset input (length shards - 2) (rw first up) (rw first out)
        up')
