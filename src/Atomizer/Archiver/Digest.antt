-- ===== src/Atomizer/Archiver/Digest.antt =====
-- src/uhs/atomizer/archiver/controller.cpp, `digest_block`: it ends, and what is stored has no gaps.
use cbdc_forensics.Common.{
  ℕ, zero, suc, ◌+◌, ◌-◌, ◌%◌, ◌^◌, ◌<◌, ◌≤◌, ◌≡◌, refl, sym, ap, subst, ◌∙◌, ◌⊎◌, inl, inr, false,
  Option, none, some, [], ◌∷◌, arith, length, leb, ◌==◌, Bool-cases, Option-cases, Map, find, put,
  remove, find-put, find-remove,
}
use cbdc_forensics.Atomizer.{Block}
use cbdc_forensics.Atomizer.Archiver.{
  BlockStore, IsBlockStore, Archiver, reload, defer, store_block, next_deferred, digest_block,
  get_block, request_missing, request_block, request_prune,
}

length-remove : (k : ℕ) (m : Map Block) → length (remove k m) ≤ length m
unfolding remove
length-remove k [] = omega arith
length-remove k ((j, b) ∷ m) = ground (arith, length-remove k m)

-- What is there, leaves.
length-remove_there :
    (k : ℕ) (m : Map Block) (b : Block) → find k m ≡ some b → length (remove k m) < length m
unfolding remove find
length-remove_there k [] b h = cc
length-remove_there k ((j, a) ∷ m) b h =
    ground (arith, length-remove k m, length-remove_there k m b)

module _ (l : BlockStore) where
  -- The best height that is stored, every block up to it, and deferred blocks under their heights. A
  -- best height of 0 is one that was not read yet.
  pub record IsArchive (s : Archiver l) (n : ℕ) : Type 0 where
    pub best : l.get_bestblock s.db ≡ some n
    pub stored : (h : ℕ) → 1 ≤ h → h ≤ n → (b : Block) × (get_block l h s ≡ some b) × (b.height ≡ h)
    pub height : (s.best_height ≡ 0) ⊎ (s.best_height ≡ n)
    pub bound : n < 2 ^ 64
    pub keyed : (h : ℕ) (b : Block) → find h s.deferred ≡ some b → b.height ≡ h

  reload-IsArchive :
      (s : Archiver l) (n : ℕ)
      → IsArchive s n
      → IsArchive (reload l s) n
        × ((reload l s).best_height ≡ n)
        × ((reload l s).deferred ≡ s.deferred)
  unfolding reload get_block
  reload-IsArchive s n a = elim (Bool-cases (s.best_height == 0)) [
    | inl unread ↦
        rw (unread, a.best)
          (
            record {
              best = a.best;
              stored = a.stored;
              height = inr refl;
              bound = a.bound;
              keyed = a.keyed;
            },
            refl,
            refl,
          )
    | inr read ↦ rw read (a, elim a.height [ inl z ↦ ground (arith, z, read) | inr e ↦ e ], refl)
  ]

  put-keyed :
      (m : Map Block) (blk : Block)
      → ((h : ℕ) (b : Block) → find h m ≡ some b → b.height ≡ h)
      → (h : ℕ) (b : Block) → find h (put blk.height blk m) ≡ some b
      → b.height ≡ h
  put-keyed m blk k h b e = elim (Bool-cases (h == blk.height)) [
    | inl same ↦ elim (Option-cases (find blk.height m)) [
      | inl new ↦
          let is : some blk ≡ some b =
            sym (ground (arith, find-put h blk.height blk m, same, new)) ∙ e in
          let it : blk ≡ b = cc in ap (λ c. c.height) (sym it) ∙ sym (ground (arith, same))
      | inr (w, old) ↦
          let key : h ≡ blk.height = ground (arith, same) in
          let is : some w ≡ some b =
            sym (ground (arith, find-put h blk.height blk m, same, old)) ∙ e in
          let it : w ≡ b = cc in ap (λ c. c.height) (sym it) ∙ k blk.height w old ∙ sym key
    ]
    | inr other ↦ k h b (sym (ground (arith, find-put h blk.height blk m, other)) ∙ e)
  ]

  request_missing-IsArchive :
      (o : Option Block) (h : ℕ) (s : Archiver l) (n : ℕ)
      → IsArchive s n
      → IsArchive (request_missing l o h s) n
  unfolding request_missing request_block get_block
  request_missing-IsArchive none h s n a = record {
    best = a.best;
    stored = a.stored;
    height = a.height;
    bound = a.bound;
    keyed = a.keyed;
  }
  request_missing-IsArchive (some b) h s n a = a

  defer-IsArchive :
      (blk : Block) (s : Archiver l) (n : ℕ) → IsArchive s n → IsArchive (defer l blk s) n
  unfolding defer get_block
  defer-IsArchive blk s n a =
      let h = blk.height - 1 in
      let s' : Archiver l = request_missing l (find h s.deferred) h s in
      let a' : IsArchive s' n = request_missing-IsArchive (find h s.deferred) h s n a in
      record {
        best = a'.best;
        stored = a'.stored;
        height = a'.height;
        bound = a'.bound;
        keyed = put-keyed s'.deferred blk a'.keyed;
      }

  stored_next :
      (law : IsBlockStore l) (blk : Block) (db : l.Db) (n h : ℕ)
      → blk.height ≡ suc n
      → (h ≤ n → (b : Block) × (l.get_height h db ≡ some b) × (b.height ≡ h))
      → h ≤ suc n
      → (b : Block) × (l.get_height h (l.write_block blk.height blk db) ≡ some b) × (b.height ≡ h)
  stored_next law blk db n h is before up = elim (Bool-cases (h == blk.height)) [
    | inl same ↦ (
      blk,
      law.height-write_block h blk.height blk db ∙ (rw same refl),
      sym (ground (arith, same)),
    )
    | inr other ↦
        let (b, e, k) = before (ground (arith, other, is, up)) in
        (b, law.height-write_block h blk.height blk db ∙ (rw other e), k)
  ]

  store_block-IsArchive :
      (law : IsBlockStore l) (blk : Block) (s : Archiver l) (n : ℕ)
      → IsArchive s n
      → s.best_height ≡ n
      → n < blk.height
      → blk.height ≡ (s.best_height + 1) % 2 ^ 64
      → IsArchive (store_block l blk s) (suc n) × (blk.height ≡ suc n)
  unfolding store_block request_prune get_block
  store_block-IsArchive law blk s n a e above next =
      let is : blk.height ≡ suc n = omega (arith, e, above, next, a.bound) in
      (
        record {
          best = law.bestblock-write_block blk.height blk s.db ∙ ap some is;
          stored = λ h pos up. stored_next law blk s.db n h is (a.stored h pos) up;
          height = inr (omega (arith, e, is, next));
          bound = omega (arith, e, above, next, a.bound, is);
          keyed = λ h b f. a.keyed h b (ground (arith, f, find-remove h blk.height s.deferred));
        },
        is,
      )

  store_block_deferred :
      (blk : Block) (s : Archiver l) → (store_block l blk s).deferred ≡ remove blk.height s.deferred
  unfolding store_block request_prune
  store_block_deferred blk s = refl

  -- The next block is deferred still.
  find_after :
      (blk : Block) (s : Archiver l) (n : ℕ) (b : Block)
      → IsArchive s n
      → blk.height ≡ suc n
      → suc n < 2 ^ 64
      → next_deferred l blk s ≡ some b
      → find b.height (store_block l blk s).deferred ≡ some b
  find_after blk s n b a is lim there =
      let key : b.height ≡ (blk.height + 1) % 2 ^ 64 =
        a.keyed ((blk.height + 1) % 2 ^ 64) b there in
      let other : (b.height == blk.height) ≡ false = ground (arith, key, is, lim) in
      let here : find b.height s.deferred ≡ some b =
        subst (λ k. find k s.deferred ≡ some b) (sym key) there in
      rw (store_block_deferred blk s, find-remove b.height blk.height s.deferred, other) here

  -- The fuel is enough when it is more than the blocks that are deferred under other heights.
  digest_block-IsArchive :
      (law : IsBlockStore l) (fuel : ℕ) (blk : Block) (s : Archiver l) (n : ℕ)
      → IsArchive s n
      → length (remove blk.height s.deferred) < fuel
      → (s' : Archiver l) × (m : ℕ) × (digest_block l fuel blk s ≡ some s')
        × IsArchive s' m
        × (n ≤ m)
  unfolding digest_block
  digest_block-IsArchive law zero blk s n a lt = absurd (omega (arith, lt))
  digest_block-IsArchive law (suc fuel) blk s n a lt =
      let (a', best, same) = reload-IsArchive s n a in
      let s₁ = reload l s in
      elim (Bool-cases (leb blk.height s₁.best_height)) [
        | inl old ↦ (s₁, n, rw old refl, a', omega arith)
        | inr above ↦ elim (Bool-cases (blk.height == (s₁.best_height + 1) % 2 ^ 64)) [
          | inr gap ↦
              (defer l blk s₁, n, rw (above, gap) refl, defer-IsArchive blk s₁ n a', omega arith)
          | inl next ↦
              let (a'', is) =
                store_block-IsArchive law blk s₁ n a' best (ground (arith, above, best))
                  (ground (arith, next)) in
              let stored = store_block l blk s₁ in
              elim (Option-cases (next_deferred l blk s₁)) [
                | inl last ↦ (stored, suc n, rw (above, next, last) refl, a'', omega arith)
                | inr (b, there) ↦
                    let left = find_after blk s₁ n b a' is a''.bound there in
                    let fewer =
                      length-remove_there b.height (store_block l blk s₁).deferred b left in
                    let count : length (store_block l blk s₁).deferred
                        ≡ length (remove blk.height s.deferred) =
                      ap length (store_block_deferred blk s₁)
                      ∙ ap (λ m. length (remove blk.height m)) same in
                    let (s', m, e, a₃, up) =
                      digest_block-IsArchive law fuel b stored (suc n) a''
                        (omega (arith, fewer, count, lt)) in
                    (s', m, rw (above, next, there) e, a₃, omega (arith, up))
              ]
        ]
      ]

  -- On an archiver without gaps (`IsArchive`: its database has a best height and every block up to
  -- it, and deferred blocks are under their heights) `digest_block` of any block ends within one
  -- round more than there are deferred blocks, and leaves an archiver without gaps whose best
  -- height is at least as high.
  pub digest_block_returns :
      (law : IsBlockStore l) (blk : Block) (s : Archiver l) (n : ℕ)
      → IsArchive s n
      → (s' : Archiver l) × (m : ℕ) × (digest_block l (suc (length s.deferred)) blk s ≡ some s')
        × IsArchive s' m
        × (n ≤ m)
  digest_block_returns law blk s n a =
      digest_block-IsArchive law (suc (length s.deferred)) blk s n a
        (omega (arith, length-remove blk.height s.deferred))
