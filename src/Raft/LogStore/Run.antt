-- ===== src/Raft/LogStore/Run.antt =====
-- src/util/raft/log_store.cpp: any sequence of operations, and restarts, on a log store.
use cbdc_forensics.Common.{
  ℕ, suc, ◌^◌, List, [], ◌∷◌, Option, some, ◌>>=◌, ◌<◌, ◌≤◌, ◌≡◌, refl, ◌∙◌, inl, inr, none, arith,
  ltb, Bool-cases, Option-cases,
}
use cbdc_forensics.Raft.LogStore.{
  LogDb, LogStore, first_index, last_index, load, append, write_at, compact, flush,
}
use cbdc_forensics.Raft.LogStore.Laws.{IsLogDb}
use cbdc_forensics.Raft.LogStore.Contiguous.{
  Log, IsLog, Stores, appended, written, compacted, appended-IsLog, written-IsLog, compacted-IsLog,
  append-Stores, write_at-Stores, compact-Stores, flush-Stores, load-Stores,
}

-- A call on a store.
pub data Call (E : Type 0) : Type 0 where
  call_append : E → Call E
  call_write_at : ℕ → E → Call E
  call_compact : ℕ → Call E
  call_flush : E → Call E
  call_restart : Call E

unfoldable pub perform :
    {E : Type 0} → (l : LogDb E) → Call E → LogStore l.Db → Option (LogStore l.Db)
perform l (call_append e) s = some ((append l e s).1)
perform l (call_write_at i e) s = some (write_at l i e s)
perform l (call_compact upto) s = compact l upto s
perform l (call_flush dummy) s = some (flush l dummy s)
perform l call_restart s = some (load l s.db)

unfoldable pub run :
    {E : Type 0} → (l : LogDb E) → List (Call E) → LogStore l.Db → Option (LogStore l.Db)
unfolding perform
run l [] s = some s
run l (c ∷ cs) s = perform l c s >>= run l cs

-- What a call, and calls, make of the log.
abbrev pub performed : {E : Type 0} → Call E → Log E → Log E
performed (call_append e) g = appended e g
performed (call_write_at i e) g = written i e g
performed (call_compact upto) g = compacted upto g
performed (call_flush dummy) g = g
performed call_restart g = g

abbrev pub ran : {E : Type 0} → List (Call E) → Log E → Log E
ran [] g = g
ran (c ∷ cs) g = ran cs (performed c g)

-- The index that a call makes the next one is one of 64 bits; a write is not beyond the next index, a
-- compaction reaches the first index, and a restart finds an entry.
abbrev pub IsAllowed : {E : Type 0} → Call E → Log E → Type 0
IsAllowed (call_append e) g = suc g.next < 2 ^ 64
IsAllowed (call_write_at i e) g = (g.start ≤ i) × (i ≤ g.next) × (suc i < 2 ^ 64)
IsAllowed (call_compact upto) g = (g.start ≤ suc upto) × (suc upto < 2 ^ 64)
IsAllowed (call_flush dummy) g = Unit {0}
IsAllowed call_restart g = g.start < g.next

abbrev pub AreAllowed : {E : Type 0} → List (Call E) → Log E → Type 0
AreAllowed [] g = Unit {0}
AreAllowed (c ∷ cs) g = IsAllowed c g × AreAllowed cs (performed c g)

module _ {E : Type 0} (l : LogDb E) (law : IsLogDb l) where
  perform-Stores :
      (c : Call E) (s : LogStore l.Db) (g : Log E)
      → IsLog g
      → Stores l s g
      → IsAllowed c g
      → (s' : LogStore l.Db) × (perform l c s ≡ some s')
        × IsLog (performed c g)
        × Stores l s' (performed c g)
  unfolding perform
  perform-Stores (call_append e) s g is h room =
      (_, refl, appended-IsLog e g room is, append-Stores l law e s g room h)
  perform-Stores (call_write_at i e) s g is h (from, to, room) = (
    _,
    refl,
    written-IsLog i e g from to room is,
    write_at-Stores l law i e s g from to room is h,
  )
  perform-Stores (call_compact upto) s g is h (from, room) =
      let (s', e, stored) = compact-Stores l law upto s g from room is h in
      (s', e, compacted-IsLog upto g from room is, stored)
  perform-Stores (call_flush dummy) s g is h _ = (_, refl, is, flush-Stores l law dummy s g is h)
  perform-Stores call_restart s g is h some_left =
      (_, refl, is, load-Stores l law s g is some_left h)

  -- On a database that applies batches whole and finds keys in their order (`IsLogDb`), a store
  -- stores a log (`Stores`, `IsLog`: the next index is less than 2^64). Any sequence of appends,
  -- writes, compactions, flushes and restarts then succeeds and leaves a store that stores the log
  -- that the same calls make (`ran`), which has an entry exactly from the first index to before the
  -- next, when every call is allowed in its turn (`AreAllowed`): an append or a write is at an
  -- index less than 2^64 - 1, a write from the first index to the next, a compaction goes to an
  -- index less than 2^64 - 1 and not less than the one before the first, and a restart has an
  -- entry.
  pub run-Stores :
      (cs : List (Call E)) (s : LogStore l.Db) (g : Log E)
      → IsLog g
      → Stores l s g
      → AreAllowed cs g
      → (s' : LogStore l.Db) × (run l cs s ≡ some s') × IsLog (ran cs g) × Stores l s' (ran cs g)
  unfolding run
  run-Stores [] s g is h _ = (s, refl, is, h)
  run-Stores (c ∷ cs) s g is h (allowed, rest) =
      let (s1, e1, is1, h1) = perform-Stores c s g is h allowed in
      let (s2, e2, is2, h2) = run-Stores cs s1 (performed c g) is1 h1 rest in
      (s2, rw e1 e2, is2, h2)

nothing : {E : Type 0} (g : Log E) → IsLog g → g.start ≡ g.next → (k : ℕ) → g.entries k ≡ none
nothing g is e k = elim (Bool-cases (ltb k g.start)) [
  | inl low ↦ is.below k (ground (arith, low))
  | inr high ↦ is.above k (ground (arith, high, e))
]

-- Without an entry a restart begins at index 1, whatever the indices were.
pub load-first :
    {E : Type 0} (l : LogDb E) (s : LogStore l.Db) (g : Log E)
    → IsLogDb l
    → IsLog g
    → Stores l s g
    → g.start ≡ g.next
    → ((load l s.db).start_idx ≡ 1) × ((load l s.db).next_idx ≡ 1)
unfolding load first_index last_index
load-first l s g law is h e =
    let empty : (k : ℕ) → l.get s.db k ≡ none = λ k. h.entries k ∙ nothing g is e k in
    (
      elim (Option-cases (l.seek s.db 0)) [
        | inl no_key ↦ rw no_key refl
        | inr (j, found) ↦ absurd ((law.seek_some s.db 0 j found).1 (empty j))
      ],
      elim (Option-cases (l.last s.db)) [
        | inl no_key ↦ rw no_key (omega arith)
        | inr (j, found) ↦ absurd ((law.last_some s.db j found).0 (empty j))
      ],
    )
