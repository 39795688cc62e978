-- ===== src/Raft/LogStore/Laws.antt =====
-- What src/util/raft/log_store.cpp relies on of LevelDB.
use cbdc_forensics.Common.{
  ℕ, zero, suc, ◌+◌, ◌-◌, ◌%◌, ◌^◌, ◌<◌, ◌≤◌, ◌≡◌, ◌≢◌, refl, ap, ◌∙◌, inl, inr, Bool, ◌&&◌, List,
  [], ◌∷◌, Option, none, some, arith, ltb, leb, ◌==◌, if◌then◌else◌, Bool-cases, length, get_elem?,
}
use cbdc_forensics.Raft.LogStore.{Op, put_entry, delete_entry, LogDb, deletes, puts}

-- What a batch makes of the entry at an index: the changes in order.
unfoldable pub after : {E : Type 0} → ℕ → List (Op E) → Option E → Option E
after i [] old = old
after i (put_entry j e ∷ ops) old = after i ops (if i == j then some e else old)
after i (delete_entry j ∷ ops) old = after i ops (if i == j then none else old)

-- A batch is applied whole, and the iterators find the keys in their order.
pub record IsLogDb {E : Type 0} (l : LogDb E) : Type 0 where
  pub write_law :
      (ops : List (Op E)) (db : l.Db) (i : ℕ) → l.get (l.write ops db) i ≡ after i ops (l.get db i)
  pub seek_some :
      (db : l.Db) (i j : ℕ)
      → l.seek db i ≡ some j
      → (i ≤ j) × (l.get db j ≢ none) × ((k : ℕ) → i ≤ k → k < j → l.get db k ≡ none)
  pub seek_none : (db : l.Db) (i : ℕ) → l.seek db i ≡ none → (k : ℕ) → i ≤ k → l.get db k ≡ none
  pub last_some :
      (db : l.Db) (j : ℕ)
      → l.last db ≡ some j
      → (l.get db j ≢ none) × ((k : ℕ) → j < k → l.get db k ≡ none)
  pub last_none : (db : l.Db) → l.last db ≡ none → (k : ℕ) → l.get db k ≡ none

-- `n` indices from `i`.
abbrev pub within : ℕ → ℕ → ℕ → Bool
within i n k = leb i k && ltb k (i + n)

pub after-deletes :
    {E : Type 0} (k i n : ℕ) (old : Option E)
    → after k (deletes i n) old ≡ (if within i n k then none else old)
unfolding after deletes
after-deletes k i zero old = ground arith
after-deletes k i (suc n) old =
    after-deletes k (suc i) n (if k == i then none else old) ∙ ground arith

pub get_elem?-shift :
    {E : Type 0} (e : E) (es : List E) (k i : ℕ)
    → i ≤ k
    → get_elem? (e ∷ es) (k - i) ≡ (if k == i then some e else get_elem? es (k - suc i))
get_elem?-shift e es k i le = elim (Bool-cases (k == i)) [
  | inl same ↦ let zero_left : k - i ≡ 0 = ground (arith, same) in rw (same, zero_left) refl
  | inr other ↦
      let more : k - i ≡ suc (k - suc i) = ground (arith, other, le) in rw (other, more) refl
]

-- Before the greatest index the next one does not wrap around.
pub mod_suc : (i : ℕ) → suc i < 2 ^ 64 → (i + 1) % 2 ^ 64 ≡ suc i
mod_suc i h = omega (arith, h)

pub after-puts :
    {E : Type 0} (k i : ℕ) (es : List E) (old : Option E)
    → i + length es < 2 ^ 64
    → after k (puts i es) old ≡ (if within i (length es) k then get_elem? es (k - i) else old)
unfolding after puts
after-puts k i [] old h = ground arith
after-puts k i (e ∷ es) old h =
    ap (λ n. after k (puts n es) (if k == i then some e else old)) (mod_suc i (omega (arith, h)))
    ∙ after-puts k (suc i) es (if k == i then some e else old) (omega (arith, h))
    ∙ ground (arith, get_elem?-shift e es k i)
