-- ===== src/Atomizer/Spent.antt =====
-- src/uhs/atomizer/atomizer/atomizer.cpp: sequences of calls, and what a call leaves of the cache of
-- spent outputs.
use cbdc_forensics.Common.{
  ℕ, zero, suc, ◌≡◌, refl, subst, Bool, true, false, Option, none, some, List, [], ◌∷◌, ◌++◌, arith,
  map, length, get_or, set, ltb, ◌==◌, if◌then◌else◌, ◌>>=◌, member, emplace_all,
  member-emplace_all, length-set, remove,
}
use cbdc_forensics.Transaction.{CompactTx}
use cbdc_forensics.Atomizer.{
  TxError, Atomizer, Gathered, get_notification_offset, check_notification_offset, check_stxo_cache,
  add_tx_to_stxo_cache, checked, insert_complete, complete_tx, complete_if_attested, notified_tx,
  notify, gather, insert_at, insert, make_block,
}

-- The cache has `x` among the outputs spent `k` blocks ago.
abbrev pub spent_at : ℕ → ℕ → Atomizer → Bool
spent_at k x s = member x (get_or s.spent k [])

-- As many entries as the depth, and one.
abbrev pub IsDeep : Atomizer → Type 0
IsDeep s = length s.spent ≡ suc s.spent_cache_depth

-- A call, and what it leaves of the atomizer.
pub data Call : Type 0 where
  notified : ℕ → CompactTx → List ℕ → Call
  completed : ℕ → CompactTx → Call
  made_block : Call

unfoldable pub after : Call → Atomizer → Option Atomizer
unfolding insert insert_complete make_block
after (notified h tx attestations) s = insert h tx attestations s >>= λ r. some r.1
after (completed h tx) s = some (insert_complete h tx s).1
after made_block s = some (make_block s).1

unfoldable pub after_all : List Call → Atomizer → Option Atomizer
unfolding after
after_all [] s = some s
after_all (c ∷ calls) s = after c s >>= after_all calls

unfoldable pub blocks_of : List Call → ℕ
blocks_of [] = 0
blocks_of (notified h tx attestations ∷ calls) = blocks_of calls
blocks_of (completed h tx ∷ calls) = blocks_of calls
blocks_of (made_block ∷ calls) = suc (blocks_of calls)

-- What stays of an entry: the shape, the height, and all that was spent.
pub record Extends (s s' : Atomizer) : Type 0 where
  pub depth : s'.spent_cache_depth ≡ s.spent_cache_depth
  pub height : s'.best_height ≡ s.best_height
  pub entries : length s'.spent ≡ length s.spent
  pub kept : (k x : ℕ) → spent_at k x s ≡ true → spent_at k x s' ≡ true

Extends-refl : (s : Atomizer) → Extends s s
Extends-refl s = record { depth = refl; height = refl; entries = refl; kept = λ k x h. h }

get_or-set :
    (xs : List (List ℕ)) (v : List ℕ) (k x : ℕ)
    → ((y : ℕ) → member y (get_or xs 0 []) ≡ true → member y v ≡ true)
    → member x (get_or xs k []) ≡ true
    → member x (get_or (set xs 0 v) k []) ≡ true
get_or-set [] v k x m h = h
get_or-set (e ∷ xs) v zero x m h = m x h
get_or-set (e ∷ xs) v (suc k) x m h = h

add_tx_to_stxo_cache-Extends :
    (tx : CompactTx) (s : Atomizer) → Extends s (add_tx_to_stxo_cache tx s)
unfolding add_tx_to_stxo_cache
add_tx_to_stxo_cache-Extends tx s = record {
  depth = refl;
  height = refl;
  entries = length-set s.spent 0 (emplace_all tx.inputs (get_or s.spent 0 []));
  kept = λ k x.
      get_or-set s.spent (emplace_all tx.inputs (get_or s.spent 0 [])) k x
        (λ y h. ground (arith, member-emplace_all y tx.inputs (get_or s.spent 0 []), h));
}

checked-Extends :
    (e : Option TxError) (s : Atomizer) (r : Option TxError × Atomizer)
    → Extends s r.1
    → Extends s (checked e s r).1
unfolding checked
checked-Extends none s r h = h
checked-Extends (some err) s r h = Extends-refl s

pub insert_complete-Extends :
    (h : ℕ) (tx : CompactTx) (s : Atomizer) → Extends s (insert_complete h tx s).1
unfolding insert_complete
insert_complete-Extends h tx s =
    let o = get_notification_offset h s in
    let s' = add_tx_to_stxo_cache tx s in
    let grown = add_tx_to_stxo_cache-Extends tx s in
    let done : Option TxError × Atomizer =
      (none, record s' { complete_txs = s.complete_txs ++ (tx ∷ []) }) in
    checked-Extends (check_notification_offset o tx s) s (checked (check_stxo_cache tx o s) s done)
      (checked-Extends (check_stxo_cache tx o s) s done (record {
        depth = grown.depth;
        height = grown.height;
        entries = grown.entries;
        kept = grown.kept;
      }))

complete_tx-Extends :
    (tx : CompactTx) (g : Gathered) (s : Atomizer) → Extends s (complete_tx tx g s).1
unfolding complete_tx
complete_tx-Extends tx g s =
    let s' = add_tx_to_stxo_cache tx s in
    let grown = add_tx_to_stxo_cache-Extends tx s in
    checked-Extends (check_stxo_cache tx g.oldest_attestation s) s
      (
        none,
        record s' {
          complete_txs = s.complete_txs ++ (g.oldest_tx ∷ []);
          txs = map (remove tx.id) s.txs;
        },
      )
      (record {
        depth = grown.depth;
        height = grown.height;
        entries = grown.entries;
        kept = grown.kept;
      })

if-Extends :
    (b : Bool) (s : Atomizer) (r q : Option TxError × Atomizer)
    → Extends s r.1
    → Extends s q.1
    → Extends s (if b then r else q).1
if-Extends true s r q h k = h
if-Extends false s r q h k = k

complete_if_attested-Extends :
    (tx : CompactTx) (g : Gathered) (s : Atomizer) → Extends s (complete_if_attested tx g s).1
unfolding complete_if_attested
complete_if_attested-Extends tx g s =
    if-Extends (length g.total_attestations == length tx.inputs) s (complete_tx tx g s) (none, s)
      (complete_tx-Extends tx g s) (Extends-refl s)

insert_at-Extends :
    (o : ℕ) (tx : CompactTx) (attestations : List ℕ) (s : Atomizer)
    → Extends s (insert_at o tx attestations s).1
unfolding insert_at
insert_at-Extends o tx attestations s =
    let txs = notify tx attestations (get_or s.txs o []) in
    let s' = record s { txs = set s.txs o txs } in
    let it = notified_tx tx txs in
    let g =
      gather tx.id 0 s'.txs
        (record { total_attestations = []; oldest_attestation = 0; oldest_tx = it }) in
    let e = complete_if_attested-Extends it g s' in
    record { depth = e.depth; height = e.height; entries = e.entries; kept = e.kept }

-- `insert` after its two checks.
insert_result-Extends :
    (e : Option TxError) (b : Bool) (s : Atomizer) (q r : Option TxError × Atomizer)
    → Extends s q.1
    → elim e as (λ o. Option (Option TxError × Atomizer)) [
      | some err ↦ some (some err, s)
      | none ↦ if b then some q else none
    ]
      ≡ some r
    → Extends s r.1
insert_result-Extends (some err) b s q r k h =
    let same : (some err, s) ≡ r = cc in subst (λ x. Extends s x.1) same (Extends-refl s)
insert_result-Extends none true s q r k h =
    let same : q ≡ r = cc in subst (λ x. Extends s x.1) same k
insert_result-Extends none false s q r k h = cc

pub insert-Extends :
    (h : ℕ) (tx : CompactTx) (attestations : List ℕ) (s : Atomizer) (r : Option TxError × Atomizer)
    → insert h tx attestations s ≡ some r
    → Extends s r.1
unfolding insert
insert-Extends h tx attestations s r e =
    let o = get_notification_offset h s in
    insert_result-Extends (check_notification_offset o tx s) (ltb o (length s.txs)) s
      (insert_at o tx attestations s) r (insert_at-Extends o tx attestations s) e
