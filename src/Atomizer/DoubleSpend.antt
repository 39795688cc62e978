-- ===== src/Atomizer/DoubleSpend.antt =====
-- src/uhs/atomizer/atomizer/atomizer.cpp: two transactions with a common input, and the
-- calls between them.
use cbdc_forensics.Common.{
  ℕ, suc, ◌+◌, ◌-◌, ◌^◌, ◌≤◌, ◌<◌, ◌≡◌, refl, ◌∙◌, ap, subst, ◌⊎◌, inl, inr, true, false, Option,
  none, some, List, [], ◌∷◌, ◌++◌, arith, length, get_or, set, length-set, take, ltb, member,
  emplace_all, member-emplace_all, Bool-cases, >>=-eq-some,
}
use cbdc_forensics.Transaction.{CompactTx}
use cbdc_forensics.Atomizer.{
  TxError, tx_error_stxo_range, tx_error_inputs_spent, Atomizer, get_notification_offset,
  check_notification_offset, collect_spent, is_empty, check_stxo_cache, add_tx_to_stxo_cache,
  checked, insert_complete, insert, make_block,
}
use cbdc_forensics.Atomizer.Spent.{
  spent_at, IsDeep, Call, notified, completed, made_block, after, after_all, blocks_of, Extends,
  insert_complete-Extends, insert-Extends,
}
use cbdc_forensics.Atomizer.Cache.{collect_spent_found, get_or-take, length-take}

-- The output `x` was spent `k` blocks before the height `h`, and is still in the cache if the cache
-- goes that deep.
pub record Remembers (x k depth h : ℕ) (s : Atomizer) : Type 0 where
  pub entries : length s.spent ≡ suc depth
  pub same : s.spent_cache_depth ≡ depth
  pub height : s.best_height ≡ h
  pub spent : k ≤ depth → spent_at k x s ≡ true

Extends-Remembers :
    (x k depth h : ℕ) (s s' : Atomizer)
    → Extends s s'
    → Remembers x k depth h s
    → Remembers x k depth h s'
Extends-Remembers x k depth h s s' e r = record {
  entries = e.entries ∙ r.entries;
  same = e.depth ∙ r.same;
  height = e.height ∙ r.height;
  spent = λ le. e.kept k x (r.spent le);
}

make_block-Remembers :
    (x k depth h : ℕ) (s : Atomizer)
    → suc h < 2 ^ 64
    → Remembers x k depth h s
    → Remembers x (suc k) depth (suc h) (make_block s).1
unfolding make_block
make_block-Remembers x k depth h s lt r = record {
  entries =
      omega
        (arith, length-take s.spent_cache_depth s.spent (omega (arith, r.entries, r.same)), r.same);
  same = r.same;
  height = omega (arith, r.height, lt);
  spent = λ le.
      ap (member x) (get_or-take s.spent_cache_depth k s.spent (omega (arith, r.same, le)))
      ∙ r.spent (omega (arith, le));
}

Remembers-cong :
    (x k k' depth h h' : ℕ) (s : Atomizer)
    → k ≡ k'
    → h ≡ h'
    → Remembers x k depth h s
    → Remembers x k' depth h' s
Remembers-cong x k k' depth h h' s ek eh r =
    subst (λ m. Remembers x m depth h' s) ek (subst (λ m. Remembers x k depth m s) eh r)

-- Any sequence of calls, when the heights stay within 64 bits.
pub after_all-Remembers :
    (calls : List Call) (x k depth h : ℕ) (s s' : Atomizer)
    → h + blocks_of calls < 2 ^ 64
    → Remembers x k depth h s
    → after_all calls s ≡ some s'
    → Remembers x (k + blocks_of calls) depth (h + blocks_of calls) s'
unfolding after_all after blocks_of
after_all-Remembers [] x k depth h s s' lt r e =
    let same : s ≡ s' = cc in
    subst (Remembers x (k + 0) depth (h + 0)) same
      (Remembers-cong x k (k + 0) depth h (h + 0) s (omega arith) (omega arith) r)
after_all-Remembers (notified b tx attestations ∷ calls) x k depth h s s' lt r e =
    let (s1, e1, rest) = >>=-eq-some (after (notified b tx attestations) s) (after_all calls) e in
    let (q, e2, e3) = >>=-eq-some (insert b tx attestations s) (λ r. some r.1) e1 in
    let same : q.1 ≡ s1 = cc in
    let r1 = Extends-Remembers x k depth h s q.1 (insert-Extends b tx attestations s q e2) r in
    after_all-Remembers calls x k depth h s1 s' lt (subst (Remembers x k depth h) same r1) rest
after_all-Remembers (completed b tx ∷ calls) x k depth h s s' lt r e =
    let s1 = (insert_complete b tx s).1 in
    after_all-Remembers calls x k depth h s1 s' lt
      (Extends-Remembers x k depth h s s1 (insert_complete-Extends b tx s) r) e
after_all-Remembers (made_block ∷ calls) x k depth h s s' lt r e =
    let n = blocks_of calls in
    let r1 = make_block-Remembers x k depth h s (omega (arith, lt)) r in
    Remembers-cong x (suc k + n) (k + suc n) depth (suc h + n) (h + suc n) s' (omega arith)
      (omega arith)
      (after_all-Remembers calls x (suc k) depth (suc h) (make_block s).1 s' (omega (arith, lt)) r1
        e)

checked-none :
    (e : Option TxError) (s s' : Atomizer) (r : Option TxError × Atomizer)
    → checked e s r ≡ (none, s')
    → (e ≡ none) × (r ≡ (none, s'))
unfolding checked
checked-none none s s' r h = (refl, h)
checked-none (some err) s s' r h = cc

checked-some :
    (e : Option TxError) (s : Atomizer) (r : Option TxError × Atomizer)
    → ((err : TxError) × (e ≡ some err)) ⊎ ((err : TxError) × (r ≡ (some err, s)))
    → (err : TxError) × (checked e s r ≡ (some err, s))
unfolding checked
checked-some (some err) s r h = (err, refl)
checked-some none s r (inl (err, h)) = cc
checked-some none s r (inr h) = h

get_or-set_zero :
    (xs : List (List ℕ)) (n : ℕ) (v : List ℕ) → length xs ≡ suc n → get_or (set xs 0 v) 0 [] ≡ v
get_or-set_zero [] n v h = absurd (omega arith)
get_or-set_zero (x ∷ xs) n v h = refl

member-is_empty : (x : ℕ) (xs : List ℕ) → member x xs ≡ true → is_empty xs ≡ false
unfolding member
member-is_empty x [] h = cc
member-is_empty x (y ∷ xs) h = refl

-- What was just completed is remembered.
insert_complete-Remembers :
    (x h : ℕ) (tx : CompactTx) (s s' : Atomizer)
    → IsDeep s
    → member x tx.inputs ≡ true
    → insert_complete h tx s ≡ (none, s')
    → Remembers x 0 s.spent_cache_depth s.best_height s'
unfolding insert_complete add_tx_to_stxo_cache
insert_complete-Remembers x h tx s s' deep i e =
    let o = get_notification_offset h s in
    let grown = add_tx_to_stxo_cache tx s in
    let done : Option TxError × Atomizer =
      (none, record grown { complete_txs = s.complete_txs ++ (tx ∷ []) }) in
    let (_, e1) =
      checked-none (check_notification_offset o tx s) s s'
        (checked (check_stxo_cache tx o s) s done) e in
    let (_, e2) = checked-none (check_stxo_cache tx o s) s s' done e1 in
    let same : done.1 ≡ s' = cc in
    let extended = insert_complete-Extends h tx s in
    let cache = emplace_all tx.inputs (get_or s.spent 0 []) in
    let here : member x (get_or (set s.spent 0 cache) 0 []) ≡ true =
      ap (member x) (get_or-set_zero s.spent s.spent_cache_depth cache deep)
      ∙ ground (arith, member-emplace_all x tx.inputs (get_or s.spent 0 []), i) in
    subst (Remembers x 0 s.spent_cache_depth s.best_height) same (record {
      entries = length-set s.spent 0 cache ∙ deep;
      same = refl;
      height = refl;
      spent = λ le. here;
    })

too_old :
    (o : ℕ) (tx : CompactTx) (s : Atomizer)
    → ltb s.spent_cache_depth o ≡ true
    → is_empty tx.inputs ≡ false
    → (err : TxError) × (check_notification_offset o tx s ≡ some err)
unfolding check_notification_offset
too_old o tx s far inputs =
    (record { tx_id = tx.id; info = tx_error_stxo_range }, simp (far, inputs))

spent_before :
    (x k o : ℕ) (tx : CompactTx) (s : Atomizer)
    → member x tx.inputs ≡ true
    → member x (get_or s.spent k []) ≡ true
    → k ≤ o
    → (err : TxError) × (check_stxo_cache tx o s ≡ some err)
unfolding check_stxo_cache
spent_before x k o tx s i found le =
    let caches = take (o + 1) s.spent in
    let errs = collect_spent caches tx.inputs [] in
    let here : member x (get_or caches k []) ≡ true =
      ap (member x) (get_or-take (o + 1) k s.spent (omega (arith, le))) ∙ found in
    let some_err = member-is_empty x errs (collect_spent_found x k caches tx.inputs [] i here) in
    (record { tx_id = tx.id; info = tx_error_inputs_spent errs }, simp some_err)

-- A transaction with a remembered input is refused, if its attestations are as old.
insert_complete_refused :
    (x k depth h b : ℕ) (tx : CompactTx) (s : Atomizer)
    → Remembers x k depth h s
    → member x tx.inputs ≡ true
    → h < 2 ^ 64
    → b + k ≤ h
    → (err : TxError) × (insert_complete b tx s ≡ (some err, s))
unfolding insert_complete get_notification_offset
insert_complete_refused x k depth h b tx s r i lt le =
    let o = get_notification_offset b s in
    let is : o ≡ h - b = omega (arith, r.height, lt, le) in
    let grown = add_tx_to_stxo_cache tx s in
    let done : Option TxError × Atomizer =
      (none, record grown { complete_txs = s.complete_txs ++ (tx ∷ []) }) in
    checked-some (check_notification_offset o tx s) s (checked (check_stxo_cache tx o s) s done)
      (elim (Bool-cases (ltb s.spent_cache_depth o)) [
        | inl far ↦ inl (too_old o tx s far (member-is_empty x tx.inputs i))
        | inr near ↦
            let found : member x (get_or s.spent k []) ≡ true =
              r.spent (ground (arith, near, is, le, r.same)) in
            inr (
              checked-some (check_stxo_cache tx o s) s done
                (inl (spent_before x k o tx s i found (omega (arith, is, le)))))
      ])

-- An atomizer, whose cache has an entry for every offset up to its depth, completes a transaction
-- that spends an output. After any sequence of notifications, completed transactions and blocks
-- that stays within the bounds of its vectors, it refuses every completed transaction that spends
-- the output again with attestations that are no newer than its height when the first was
-- completed, and changes nothing. The heights are to stay below 2^64.
pub no_double_spend :
    (x h b : ℕ) (tx tx' : CompactTx) (calls : List Call) (s s1 s2 : Atomizer)
    → IsDeep s
    → member x tx.inputs ≡ true
    → member x tx'.inputs ≡ true
    → s.best_height + blocks_of calls < 2 ^ 64
    → b ≤ s.best_height
    → insert_complete h tx s ≡ (none, s1)
    → after_all calls s1 ≡ some s2
    → (err : TxError) × (insert_complete b tx' s2 ≡ (some err, s2))
no_double_spend x h b tx tx' calls s s1 s2 deep i i' lt le e run =
    let n = blocks_of calls in
    let r = insert_complete-Remembers x h tx s s1 deep i e in
    let r2 = after_all-Remembers calls x 0 s.spent_cache_depth s.best_height s1 s2 lt r run in
    insert_complete_refused x (0 + n) s.spent_cache_depth (s.best_height + n) b tx' s2 r2 i' lt
      (omega (arith, le))
