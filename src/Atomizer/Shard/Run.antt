-- ===== src/Atomizer/Shard/Run.antt =====
-- src/uhs/atomizer/shard/shard.cpp: a shard over blocks and restarts.
use cbdc_forensics.Common.{
  ℕ, ◌≡◌, refl, inl, inr, Bool, false, none, some, [], ◌∷◌, arith, if◌then◌else◌,
}
use cbdc_forensics.Util.Serialization.Bytes.{le_bytes, from_le, from_le-le_bytes}
use cbdc_forensics.Atomizer.{Block}
use cbdc_forensics.Atomizer.Leveldb.{
  Leveldb, IsStore, put_, Key, best_block_height_key, output_key, updated,
}
use cbdc_forensics.Atomizer.Shard.{Shard, update_snapshot, read_height, open_db, digest_block}
use cbdc_forensics.Atomizer.Shard.Refine.{after_txs, Represents, digest_block-Represents}

module _ (l : Leveldb) where
  abbrev pub empty_set : ℕ → Bool
  empty_set h = false

  -- A shard that was opened on `db`, digested blocks or refused them, and was opened again on what its
  -- database had, with the set of unspent outputs of the blocks that it digested.
  pub data Run (range : ℕ × ℕ) (db : l.Db) : Shard l → (ℕ → Bool) → Type 0 where
    opened : Run range db (open_db l range db) empty_set
    digested :
        (s : Shard l) (u : ℕ → Bool) (blk : Block)
        → Run range db s u
        → Run range db
            (digest_block l blk s).1
            (if (digest_block l blk s).0 then after_txs blk.transactions u else u)
    reopened :
        (s : Shard l) (u : ℕ → Bool)
        → Run range db s u
        → Run range db (open_db l s.prefix_range s.db) u

  -- A height that was written is read again.
  read_height-Represents :
      (law : IsStore l) (s : Shard l) (u : ℕ → Bool)
      → Represents l s u
      → let s' = read_height l s.prefix_range s.db (some (le_bytes 8 s.best_block_height)) in
        Represents l s' u × (s'.best_block_height ≡ s.best_block_height)
  unfolding read_height update_snapshot
  read_height-Represents law s u r =
      let same : from_le (le_bytes 8 s.best_block_height) ≡ s.best_block_height =
        from_le-le_bytes 8 s.best_block_height (omega (arith, r.bound)) in
      (
        record {
          stored = r.stored;
          height = rw same r.height;
          bound = rw same r.bound;
          current = refl;
          snp_current = refl;
        },
        same,
      )

  -- Opening the database of a shard again gives its height and its outputs.
  pub open_db_again :
      (law : IsStore l) (s : Shard l) (u : ℕ → Bool)
      → Represents l s u
      → let s' = open_db l s.prefix_range s.db in
        Represents l s' u × (s'.best_block_height ≡ s.best_block_height)
  unfolding open_db
  open_db_again law s u r = rw r.height (read_height-Represents law s u r)

  open_db_new :
      (law : IsStore l) (range : ℕ × ℕ) (db : l.Db)
      → ((k : Key) → l.get k db ≡ none)
      → Represents l (open_db l range db) empty_set
  unfolding open_db read_height update_snapshot updated
  open_db_new law range db empty =
      let first = put_ best_block_height_key (le_bytes 8 0) ∷ [] in
      rw (empty best_block_height_key) (record {
        stored = λ h mine. rw (law.get-write (output_key h) first db, empty (output_key h)) refl;
        height = law.get-write best_block_height_key first db;
        bound = omega arith;
        current = refl;
        snp_current = refl;
      })

  -- A shard on a key-value store that applies its batches in order (`IsStore`) and is empty at
  -- first: after any blocks offered to it and any restarts between them (`Run`), the outputs of its
  -- range that its database and its snapshot have are exactly the unspent outputs of the blocks
  -- that it digested, in order, and the stored height, which a restart reads, is its best height.
  pub Run-Represents :
      (law : IsStore l) (range : ℕ × ℕ) (db : l.Db) (s : Shard l) (u : ℕ → Bool)
      → ((k : Key) → l.get k db ≡ none)
      → Run range db s u
      → Represents l s u
  Run-Represents law range db _ _ empty opened = open_db_new law range db empty
  Run-Represents law range db _ _ empty (digested s u blk run) =
      elim (digest_block-Represents l law blk s u (Run-Represents law range db s u empty run)) [
        | inl (_, ok, _, r) ↦ rw ok r
        | inr (_, same) ↦ rw same (Run-Represents law range db s u empty run)
      ]
  Run-Represents law range db _ _ empty (reopened s u run) =
      (open_db_again law s u (Run-Represents law range db s u empty run)).0
