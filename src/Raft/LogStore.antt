-- ===== src/Raft/LogStore.antt =====
-- src/util/raft/log_store.cpp: the log entries of a raft node in LevelDB, whose keys are their indices
-- in the order of the numbers (index_comparator.cpp). LevelDB and the entries, which NuRaft makes, are
-- parameters. Writes succeed, as the code asserts.
pub mod Laws
pub mod Contiguous
pub mod Run
pub mod Buffer
pub mod Pack
pub mod Slots
mod Examples
use cbdc_forensics.Common.{
  ℕ, zero, suc, ◌+◌, ◌-◌, ◌%◌, ◌^◌, ◌<◌, ◌≤◌, ◌≡◌, List, [], ◌∷◌, ◌++◌, Option, none, some, map,
  length, max, ltb, ◌==◌, if◌then◌else◌, ◌>>=◌,
}

-- A change of a `WriteBatch`.
pub data Op (E : Type 0) : Type 0 where
  put_entry : ℕ → E → Op E
  delete_entry : ℕ → Op E

-- `Get`, `Write` and the iterators: `seek` is the first key that is not less, `last` the last key.
pub record LogDb (E : Type 0) : Type 1 where
  pub Db : Type 0
  pub get : Db → ℕ → Option E
  pub write : List (Op E) → Db → Db
  pub seek : Db → ℕ → Option ℕ
  pub last : Db → Option ℕ

pub record LogStore (Db : Type 0) : Type 0 where
  pub db : Db
  pub next_idx : ℕ
  pub start_idx : ℕ

-- The deletions of `n` indices from `i`.
unfoldable pub deletes : {E : Type 0} → ℕ → ℕ → List (Op E)
deletes i zero = []
deletes i (suc n) = delete_entry i ∷ deletes (suc i) n

-- The entries at the indices from `i`.
unfoldable pub puts : {E : Type 0} → ℕ → List E → List (Op E)
puts i [] = []
puts i (e ∷ es) = put_entry i e ∷ puts ((i + 1) % 2 ^ 64) es

abbrev index_or : ℕ → Option ℕ → ℕ
index_or d none = d
index_or d (some i) = i

module _ {E : Type 0} (l : LogDb E) where
  open l use {Db, get, write, seek, last}

  -- `get_first_or_last_index<true>` and `<false>`
  unfoldable pub first_index : Db → ℕ
  first_index db = index_or 1 (seek db 0)

  unfoldable pub last_index : Db → ℕ
  last_index db = index_or 0 (last db)

  -- A database that is opened.
  unfoldable pub load : Db → LogStore Db
  unfolding first_index last_index
  load db = record { db = db; next_idx = (last_index db + 1) % 2 ^ 64; start_idx = first_index db }

  unfoldable pub append : E → LogStore Db → ℕ × LogStore Db
  append entry s = (
    s.next_idx,
    record s {
      db = write (put_entry s.next_idx entry ∷ []) s.db;
      next_idx = (s.next_idx + 1) % 2 ^ 64;
    },
  )

  -- The vector for the deleted keys, of `next_idx - index` elements modulo 2^64, is taken to be
  -- allocated.
  unfoldable pub write_at : ℕ → E → LogStore Db → LogStore Db
  unfolding deletes
  write_at index entry s =
      let next = (index + 1) % 2 ^ 64 in
      record s {
        db = write (put_entry index entry ∷ deletes next (s.next_idx - next)) s.db;
        next_idx = next;
      }

  -- The null entry is the absence of an entry.
  unfoldable pub entry_at : ℕ → LogStore Db → Option E
  entry_at index s = get s.db index

  unfoldable pub last_entry : LogStore Db → Option E
  last_entry s = elim (last s.db) [ none ↦ none | some i ↦ get s.db i ]

  -- The loop of `log_entries`, with `n` entries left; no result is a failed assertion.
  unfoldable pub entries_from : ℕ → ℕ → Db → Option (List E)
  entries_from zero i db = some []
  entries_from (suc n) i db = do
    j ← seek db i
    e ← get db j
    rest ← entries_from n (suc j) db
    some (e ∷ rest)

  unfoldable pub log_entries : ℕ → ℕ → LogStore Db → Option (List E)
  unfolding entries_from
  log_entries start end s = entries_from ((end + (2 ^ 64 - start)) % 2 ^ 64) start s.db

  -- What `apply_pack` does with the entries that it has read.
  unfoldable pub apply_entries : ℕ → List E → LogStore Db → LogStore Db
  unfolding puts first_index last_index
  apply_entries index entries s =
      let db = write (puts index entries) s.db in
      record s { db = db; start_idx = first_index db; next_idx = (last_index db + 1) % 2 ^ 64 }

  -- The loop to the greatest index would not end, so there is no result; the vector for the deleted
  -- keys is taken to be allocated.
  unfoldable pub compact : ℕ → LogStore Db → Option (LogStore Db)
  unfolding deletes
  compact last_log_index s =
      if last_log_index == 2 ^ 64 - 1
      then none
      else some (record s {
        db = write (deletes s.start_idx (last_log_index + 1 - s.start_idx)) s.db;
        start_idx = last_log_index + 1;
        next_idx = max s.next_idx (last_log_index + 1);
      })

  -- A dummy write of entry 0.
  unfoldable pub flush : E → LogStore Db → LogStore Db
  flush dummy s = record s { db = write (put_entry 0 dummy ∷ delete_entry 0 ∷ []) s.db }
