-- ===== src/Raft/LogStore/Buffer.antt =====
-- src/util/raft/log_store.cpp: the buffers of `pack` and `apply_pack`. NuRaft writes and reads numbers,
-- bytes and log entries: a parameter. A buffer is a list of bytes.
use cbdc_forensics.Common.{
  ℕ, zero, suc, ◌+◌, ◌<◌, ◌≡◌, refl, List, [], ◌∷◌, ◌++◌, append_assoc, Option, some, length, ◌>>=◌,
  ◌^◌, ◌%◌,
}
use cbdc_forensics.Raft.LogStore.{LogDb, LogStore, log_entries, apply_entries}

-- `put_u64`, `get_u64`, `get_buffer` with its length, and `serialize` and `deserialize` of an entry.
pub record Serializer (E : Type 0) : Type 0 where
  pub put_u64 : ℕ → List ℕ
  pub get_u64 : List ℕ → Option (ℕ × List ℕ)
  pub get_buffer : ℕ → List ℕ → Option (List ℕ × List ℕ)
  pub serialize : E → List ℕ
  pub deserialize : List ℕ → Option E

-- What was written is read back, and an entry takes less than 2^64 bytes.
pub record IsSerializer {E : Type 0} (z : Serializer E) : Type 0 where
  pub u64_law :
      (n : ℕ) (rest : List ℕ) → n < 256 ^ 8 → z.get_u64 (z.put_u64 n ++ rest) ≡ some (n, rest)
  pub buffer_law : (bs rest : List ℕ) → z.get_buffer (length bs) (bs ++ rest) ≡ some (bs, rest)
  pub entry_law : (e : E) → z.deserialize (z.serialize e) ≡ some e
  pub size_law : (e : E) → length (z.serialize e) < 256 ^ 8

module _ {E : Type 0} (z : Serializer E) where
  -- The loop over the serialized entries.
  unfoldable pub put_bufs : List E → List ℕ
  put_bufs [] = []
  put_bufs (e ∷ es) = z.put_u64 (length (z.serialize e)) ++ (z.serialize e ++ put_bufs es)

  -- The loop that reads `n` entries.
  unfoldable pub get_bufs : ℕ → List ℕ → Option (List E)
  get_bufs zero bs = some []
  get_bufs (suc n) bs = do
    (len, bs') ← z.get_u64 bs
    (buf, bs'') ← z.get_buffer len bs'
    e ← z.deserialize buf
    rest ← get_bufs n bs''
    some (e ∷ rest)

  unfoldable pub pack : (l : LogDb E) → ℕ → ℕ → LogStore l.Db → Option (List ℕ)
  unfolding put_bufs
  pack l index cnt s = do
    entries ← log_entries l index ((index + cnt) % 2 ^ 64) s
    some (z.put_u64 cnt ++ put_bufs entries)

  unfoldable pub apply_pack : (l : LogDb E) → ℕ → List ℕ → LogStore l.Db → Option (LogStore l.Db)
  unfolding get_bufs
  apply_pack l index bs s = do
    (cnt, bs') ← z.get_u64 bs
    entries ← get_bufs cnt bs'
    some (apply_entries l index entries s)

  pub get_bufs-put_bufs :
      IsSerializer z
      → (es : List E) (rest : List ℕ) → get_bufs (length es) (put_bufs es ++ rest) ≡ some es
  unfolding get_bufs put_bufs
  get_bufs-put_bufs law [] rest = refl
  get_bufs-put_bufs law (e ∷ es) rest =
      rw
        (
          append_assoc,
          append_assoc,
          law.u64_law (length (z.serialize e)) (z.serialize e ++ (put_bufs es ++ rest))
              (law.size_law e),
          law.buffer_law (z.serialize e) (put_bufs es ++ rest),
          law.entry_law e,
          get_bufs-put_bufs law es rest,
        )
        refl
