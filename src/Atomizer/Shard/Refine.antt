-- ===== src/Atomizer/Shard/Refine.antt =====
-- src/uhs/atomizer/shard/shard.cpp, `digest_block` and `open_db`: the database has the unspent outputs of
-- the shard's range.
use cbdc_forensics.Common.{
  ℕ, ◌+◌, ◌%◌, ◌^◌, ◌<◌, ◌≡◌, ◌≢◌, refl, sym, subst, ◌∙◌, inl, inr, ◌⊎◌, Bool, true, false, Option,
  none, some, List, [], ◌∷◌, ◌++◌, arith, ◌==◌, if◌then◌else◌, Bool-cases, member,
}
use cbdc_forensics.Util.Serialization.Bytes.{le_bytes}
use cbdc_forensics.Transaction.{CompactTx}
use cbdc_forensics.Atomizer.{Block}
use cbdc_forensics.Atomizer.Leveldb.{
  Leveldb, IsStore, Update, put_, delete_, Key, best_block_height_key, output_key, updated, key_eq,
}
use cbdc_forensics.Atomizer.Shard.{
  Shard, is_output_on_shard, update_snapshot, put_outputs, delete_inputs, batch_of, digest_block,
}

abbrev pub is_found : Option (List ℕ) → Bool
is_found none = false
is_found (some v) = true

-- The set of unspent outputs after transactions, in order: a transaction creates its outputs, then
-- spends its inputs.
unfoldable pub after_txs : List CompactTx → (ℕ → Bool) → ℕ → Bool
after_txs [] u h = u h
after_txs (tx ∷ txs) u h =
    after_txs txs
      (λ k. if member k tx.inputs then false else if member k tx.uhs_outputs then true else u k) h

updated-append :
    (k : Key) (us vs : List Update) (v : Option (List ℕ))
    → updated k (us ++ vs) v ≡ updated k vs (updated k us v)
unfolding updated
updated-append k [] vs v = refl
updated-append k (put_ j w ∷ us) vs v = updated-append k us vs (if key_eq k j then some w else v)
updated-append k (delete_ j ∷ us) vs v = updated-append k us vs (if key_eq k j then none else v)

module _ (l : Leveldb) where
  -- An identifier that is not the shard's is none of the shard's.
  apart :
      (h x : ℕ) (s : Shard l)
      → is_output_on_shard l h s ≡ true
      → is_output_on_shard l x s ≡ false
      → (h == x) ≡ false
  apart h x s mine foreign = elim (Bool-cases (h == x)) [
    | inl same ↦
        let bad : is_output_on_shard l x s ≡ true =
          subst (λ k. is_output_on_shard l k s ≡ true) (ground (arith, same)) mine in
        absurd (ground (arith, bad, foreign))
    | inr other ↦ other
  ]

  put_outputs_found :
      (h : ℕ) (outs : List ℕ) (s : Shard l) (v : Option (List ℕ))
      → is_output_on_shard l h s ≡ true
      → is_found (updated (output_key h) (put_outputs l outs s) v)
        ≡ (if member h outs then true else is_found v)
  unfolding put_outputs updated member
  put_outputs_found h [] s v mine = refl
  put_outputs_found h (out ∷ outs) s v mine = elim (Bool-cases (is_output_on_shard l out s)) [
    | inl own ↦ elim (Bool-cases (h == out)) [
      | inl same ↦ ground (arith, put_outputs_found h outs s (some []) mine)
      | inr other ↦ ground (arith, put_outputs_found h outs s v mine)
    ]
    | inr foreign ↦ ground (arith, put_outputs_found h outs s v mine, apart h out s mine foreign)
  ]

  delete_inputs_found :
      (h : ℕ) (inps : List ℕ) (s : Shard l) (v : Option (List ℕ))
      → is_output_on_shard l h s ≡ true
      → is_found (updated (output_key h) (delete_inputs l inps s) v)
        ≡ (if member h inps then false else is_found v)
  unfolding delete_inputs updated member
  delete_inputs_found h [] s v mine = refl
  delete_inputs_found h (inp ∷ inps) s v mine = elim (Bool-cases (is_output_on_shard l inp s)) [
    | inl own ↦ elim (Bool-cases (h == inp)) [
      | inl same ↦ ground (arith, delete_inputs_found h inps s none mine)
      | inr other ↦ ground (arith, delete_inputs_found h inps s v mine)
    ]
    | inr foreign ↦ ground (arith, delete_inputs_found h inps s v mine, apart h inp s mine foreign)
  ]

  batch_of_found :
      (h : ℕ) (txs : List CompactTx) (s : Shard l) (v : Option (List ℕ)) (u : ℕ → Bool)
      → is_output_on_shard l h s ≡ true
      → is_found v ≡ u h
      → is_found (updated (output_key h) (batch_of l txs s) v) ≡ after_txs txs u h
  unfolding batch_of after_txs updated
  batch_of_found h [] s v u mine e = e
  batch_of_found h (tx ∷ txs) s v u mine e =
      let key = output_key h in
      let outs = put_outputs l tx.uhs_outputs s in
      let inps = delete_inputs l tx.inputs s in
      let v₁ = updated key outs v in
      let v₂ = updated key inps v₁ in
      let put_ok = put_outputs_found h tx.uhs_outputs s v mine in
      let delete_ok = delete_inputs_found h tx.inputs s v₁ mine in
      let now : is_found v₂
          ≡ (if member h tx.inputs then false else if member h tx.uhs_outputs then true else u h) =
        ground (arith, put_ok, delete_ok, e) in
      rw
        (
          updated-append key outs (inps ++ batch_of l txs s) v,
          updated-append key inps (batch_of l txs s) v₁,
        )
        (batch_of_found h txs s v₂ _ mine now)

  -- The database has the outputs of the shard's range that are in the set, and the height; the
  -- snapshot is of the database.
  pub record Represents (s : Shard l) (u : ℕ → Bool) : Type 0 where
    pub stored :
        (h : ℕ) → is_output_on_shard l h s ≡ true → is_found (l.get (output_key h) s.db) ≡ u h
    pub height : l.get best_block_height_key s.db ≡ some (le_bytes 8 s.best_block_height)
    pub bound : s.best_block_height < 2 ^ 64
    pub current : s.snp ≡ l.get_snapshot s.db
    pub snp_current : s.snp_height ≡ s.best_block_height

  digested :
      (law : IsStore l) (blk : Block) (s : Shard l) (u : ℕ → Bool) (height : ℕ)
      → Represents s u
      → height < 2 ^ 64
      → let batch =
          batch_of l blk.transactions s ++ (put_ best_block_height_key (le_bytes 8 height) ∷ []) in
        Represents
          (update_snapshot l (record s { best_block_height = height; db = l.write batch s.db }))
          (after_txs blk.transactions u)
  unfolding update_snapshot updated
  digested law blk s u height r lim =
      let txs = batch_of l blk.transactions s in
      let last = put_ best_block_height_key (le_bytes 8 height) ∷ [] in
      record {
        stored = λ h mine.
            rw
              (
                law.get-write (output_key h) (txs ++ last) s.db,
                updated-append (output_key h) txs last (l.get (output_key h) s.db),
              )
              (batch_of_found h blk.transactions s (l.get (output_key h) s.db) u mine
                (r.stored h mine));
        height =
            law.get-write best_block_height_key (txs ++ last) s.db
            ∙ updated-append best_block_height_key txs last (l.get best_block_height_key s.db);
        bound = lim;
        current = refl;
        snp_current = refl;
      }

  -- What a block of height one more than the shard's does, and what any other block does.
  abbrev pub Digests : Block → Shard l → (ℕ → Bool) → Type 0
  Digests blk s u =
      (blk.height ≡ (s.best_block_height + 1) % 2 ^ 64)
      × ((digest_block l blk s).0 ≡ true)
      × ((digest_block l blk s).1.best_block_height ≡ blk.height)
      × Represents (digest_block l blk s).1 (after_txs blk.transactions u)

  abbrev pub Ignores : Block → Shard l → Type 0
  Ignores blk s =
      (blk.height ≢ (s.best_block_height + 1) % 2 ^ 64) × (digest_block l blk s ≡ (false, s))

  -- A shard that represents a set of unspent outputs digests a block exactly when its height is one
  -- more than the shard's, modulo 2^64: then the shard has the height of the block and represents
  -- the set after its transactions, each of which creates its outputs and spends its inputs; and
  -- otherwise it is unchanged.
  pub digest_block-Represents :
      (law : IsStore l) (blk : Block) (s : Shard l) (u : ℕ → Bool)
      → Represents s u
      → Digests blk s u ⊎ Ignores blk s
  unfolding digest_block
  digest_block-Represents law blk s u r =
      let height = (s.best_block_height + 1) % 2 ^ 64 in
      elim (Bool-cases (blk.height == height)) [
        | inl next ↦
            let e : blk.height ≡ height = ground (arith, next) in
            inl (
              e,
              rw next refl,
              rw next (sym e),
              rw next (digested law blk s u height r (omega arith)),
            )
        | inr gap ↦ inr ((λ e. ground (arith, gap, e)), rw gap refl)
      ]
