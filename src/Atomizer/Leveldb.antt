-- ===== src/Atomizer/Leveldb.antt =====
-- What src/uhs/atomizer/shard/shard.cpp calls of LevelDB, as a parameter: a store of byte strings, with
-- batches of updates and snapshots.
use cbdc_forensics.Common.{
  ℕ, Bool, true, false, Option, none, some, List, [], ◌∷◌, ◌≡◌, ◌==◌, if◌then◌else◌,
}

-- The keys of a shard: "bestBlockHeight", and the 32 bytes of a UHS identifier.
pub data Key : Type 0 where
  best_block_height_key : Key
  output_key : ℕ → Key

-- The calls of `leveldb::WriteBatch`.
pub data Update : Type 0 where
  put_ : Key → List ℕ → Update
  delete_ : Key → Update

abbrev pub key_eq : Key → Key → Bool
key_eq best_block_height_key best_block_height_key = true
key_eq best_block_height_key (output_key h) = false
key_eq (output_key h) best_block_height_key = false
key_eq (output_key h) (output_key k) = h == k

-- What is stored under a key after updates in order, if `v` was before.
unfoldable pub updated : Key → List Update → Option (List ℕ) → Option (List ℕ)
updated k [] v = v
updated k (put_ j w ∷ us) v = updated k us (if key_eq k j then some w else v)
updated k (delete_ j ∷ us) v = updated k us (if key_eq k j then none else v)

pub record Leveldb : Type 1 where
  pub Db : Type 0
  pub Snapshot : Type 0
  pub write : List Update → Db → Db
  pub get_snapshot : Db → Snapshot
  -- `Get`, on the database and on a snapshot; `IsNotFound` is the absence of a value
  pub get : Key → Db → Option (List ℕ)
  pub get_at : Key → Snapshot → Option (List ℕ)

-- A batch is applied in order, and a snapshot has what the database had.
pub record IsStore (l : Leveldb) : Type 0 where
  pub get-write :
      (k : Key) (us : List Update) (db : l.Db) → l.get k (l.write us db) ≡ updated k us (l.get k db)
  pub get_at-get_snapshot : (k : Key) (db : l.Db) → l.get_at k (l.get_snapshot db) ≡ l.get k db
