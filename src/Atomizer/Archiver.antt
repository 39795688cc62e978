-- ===== src/Atomizer/Archiver.antt =====
-- src/uhs/atomizer/archiver/controller.cpp: the archiver stores the blocks of the atomizer in order. A
-- block that comes too early is deferred, and the one before it is asked for.
pub mod Digest
mod Examples
use cbdc_forensics.Common.{
  ℕ, zero, suc, ◌+◌, ◌-◌, ◌%◌, ◌^◌, Bool, true, false, not, ◌&&◌, Option, none, some, List, [], ◌∷◌,
  ◌++◌, leb, ◌==◌, if◌then◌else◌, Map, find, put, remove, ◌≡◌,
}
use cbdc_forensics.Atomizer.{Block}

-- What the code calls of LevelDB, with the keys and values that it writes: the best height under
-- "bestblock", and a block, serialized, under its height in decimal digits.
pub record BlockStore : Type 1 where
  pub Db : Type 0
  pub get_bestblock : Db → Option ℕ
  pub get_height : ℕ → Db → Option Block
  -- `Put` of the best height
  pub put_bestblock : ℕ → Db → Db
  -- the batch of `digest_block`: the block under the height, and the height as the best one
  pub write_block : ℕ → Block → Db → Db

-- What is read after a write.
pub record IsBlockStore (l : BlockStore) : Type 0 where
  pub bestblock-put_bestblock :
      (n : ℕ) (db : l.Db) → l.get_bestblock (l.put_bestblock n db) ≡ some n
  pub height-put_bestblock :
      (h n : ℕ) (db : l.Db) → l.get_height h (l.put_bestblock n db) ≡ l.get_height h db
  pub bestblock-write_block :
      (n : ℕ) (blk : Block) (db : l.Db) → l.get_bestblock (l.write_block n blk db) ≡ some n
  pub height-write_block :
      (h n : ℕ) (blk : Block) (db : l.Db)
      → l.get_height h (l.write_block n blk db) ≡ (if h == n then some blk else l.get_height h db)

-- What is sent to the atomizers.
pub data AtomizerRequest : Type 0 where
  get_block_request prune_request : ℕ → AtomizerRequest

module _ (l : BlockStore) where
  pub record Archiver : Type 0 where
    pub db : l.Db
    pub best_height : ℕ
    pub deferred : Map Block
    pub requests : List AtomizerRequest
    pub samples : ℕ
    pub max_samples : ℕ
    pub sample_collection_active : Bool
    pub running : Bool

  -- When the key has a value or has none.
  unfoldable pub read_best : Option ℕ → Archiver → Archiver
  read_best none s = record s { db = l.put_bestblock 0 s.db; best_height = 0 }
  read_best (some n) s = record s { best_height = n }

  unfoldable pub init_best_block : Archiver → Archiver
  unfolding read_best
  init_best_block s = read_best (l.get_bestblock s.db) s

  unfoldable pub request_block : ℕ → Archiver → Archiver
  request_block h s = record s { requests = s.requests ++ (get_block_request h ∷ []) }

  unfoldable pub request_prune : ℕ → Archiver → Archiver
  request_prune h s = record s { requests = s.requests ++ (prune_request h ∷ []) }

  -- The start of `digest_block`.
  unfoldable pub reload : Archiver → Archiver
  reload s =
      if s.best_height == 0
      then record s { best_height = elim (l.get_bestblock s.db) [ none ↦ 0 | some n ↦ n ] }
      else s

  -- The previous block is asked for unless it is deferred.
  unfoldable pub request_missing : Option Block → ℕ → Archiver → Archiver
  unfolding request_block
  request_missing none h s = request_block h s
  request_missing (some b) h s = s

  -- A block that is not contiguous.
  unfoldable pub defer : Block → Archiver → Archiver
  unfolding request_missing
  defer blk s =
      let s' = request_missing (find (blk.height - 1) s.deferred) (blk.height - 1) s in
      record s' { deferred = put blk.height blk s'.deferred }

  -- A contiguous block is stored, and leaves the deferred ones.
  unfoldable pub store_block : Block → Archiver → Archiver
  unfolding request_prune
  store_block blk s =
      let height = (s.best_height + 1) % 2 ^ 64 in
      let s' = record s {
        db = l.write_block blk.height blk s.db;
        best_height = height;
        samples = if s.sample_collection_active then suc s.samples else s.samples;
      } in
      record (request_prune height s') { deferred = remove blk.height s.deferred }

  abbrev pub next_deferred : Block → Archiver → Option Block
  next_deferred blk s = find ((blk.height + 1) % 2 ^ 64) s.deferred

  -- No result if the fuel runs out.
  unfoldable pub digest_block : ℕ → Block → Archiver → Option Archiver
  unfolding reload defer store_block
  digest_block zero blk s = none
  digest_block (suc fuel) blk s =
      let s' = reload s in
      let stored = store_block blk s' in
      let next : Option Archiver = elim (next_deferred blk s') [
        | none ↦ some stored
        | some next_blk ↦ digest_block fuel next_blk stored
      ] in
      if leb blk.height s'.best_height
      then some s'
      else if not (blk.height == (s'.best_height + 1) % 2 ^ 64)
      then some (defer blk s')
      else next

  -- `atomizer_handler`, after the packet was read.
  unfoldable pub atomizer_handler : ℕ → Block → Archiver → Option Archiver
  unfolding digest_block
  atomizer_handler fuel blk s =
      let digested = digest_block fuel blk s in
      if not (s.max_samples == 0) && leb s.max_samples s.samples
      then some (record s { running = false })
      else digested

  unfoldable pub get_block : ℕ → Archiver → Option Block
  get_block h s = l.get_height h s.db
