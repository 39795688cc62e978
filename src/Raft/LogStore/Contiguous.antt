-- ===== src/Raft/LogStore/Contiguous.antt =====
-- src/util/raft/log_store.cpp: the store has an entry at each index from its first to its last.
use cbdc_forensics.Common.{
  ℕ, suc, ◌+◌, ◌-◌, ◌%◌, ◌^◌, ◌<◌, ◌≤◌, ◌≡◌, ◌≢◌, refl, sym, ap, ◌∙◌, inl, inr, [], ◌∷◌, Option,
  none, some, arith, ltb, leb, max, false, ◌==◌, if◌then◌else◌, Option-cases,
}
use cbdc_forensics.Raft.LogStore.{
  put_entry, delete_entry, LogDb, LogStore, deletes, first_index, last_index, load, append,
  write_at, compact, flush,
}
use cbdc_forensics.Raft.LogStore.Laws.{after, IsLogDb, after-deletes, mod_suc}

-- The abstract log: from the first index, one entry after the other.
pub record Log (E : Type 0) : Type 0 where
  pub start : ℕ
  pub entries : ℕ → Option E
  pub next : ℕ

-- An index has an entry exactly in the range, which does not begin with 0 and is one of 64 bits.
pub record IsLog {E : Type 0} (g : Log E) : Type 0 where
  pub positive : 1 ≤ g.start
  pub ordered : g.start ≤ g.next
  pub fits : g.next < 2 ^ 64
  pub inside : (i : ℕ) → g.start ≤ i → i < g.next → g.entries i ≢ none
  pub below : (i : ℕ) → i < g.start → g.entries i ≡ none
  pub above : (i : ℕ) → g.next ≤ i → g.entries i ≡ none

module _ {E : Type 0} where
  abbrev pub appended : E → Log E → Log E
  appended e g = record g {
    entries = λ k. if k == g.next then some e else g.entries k;
    next = suc g.next;
  }

  -- What follows the index goes.
  abbrev pub written : ℕ → E → Log E → Log E
  written i e g = record g {
    entries = λ k. if k == i then some e else if ltb i k then none else g.entries k;
    next = suc i;
  }

  abbrev pub compacted : ℕ → Log E → Log E
  compacted last_index g = record g {
    start = suc last_index;
    entries = λ k. if leb k last_index then none else g.entries k;
    next = max g.next (suc last_index);
  }

  pub appended-IsLog : (e : E) (g : Log E) → suc g.next < 2 ^ 64 → IsLog g → IsLog (appended e g)
  appended-IsLog e g room h = record {
    positive = h.positive;
    ordered = omega (arith, h.ordered);
    fits = room;
    inside = λ i a b. ground (arith, h.inside i);
    below = λ i a. ground (arith, h.below i, h.ordered);
    above = λ i a. ground (arith, h.above i);
  }

  pub written-IsLog :
      (i : ℕ) (e : E) (g : Log E)
      → g.start ≤ i
      → i ≤ g.next
      → suc i < 2 ^ 64
      → IsLog g
      → IsLog (written i e g)
  written-IsLog i e g from to room h = record {
    positive = h.positive;
    ordered = omega arith;
    fits = room;
    inside = λ k a b. ground (arith, h.inside k, to);
    below = λ k a. ground (arith, h.below k, from);
    above = λ k a. ground arith;
  }

  pub compacted-IsLog :
      (last_index : ℕ) (g : Log E)
      → g.start ≤ suc last_index
      → suc last_index < 2 ^ 64
      → IsLog g
      → IsLog (compacted last_index g)
  compacted-IsLog last_index g from room h = record {
    positive = omega arith;
    ordered = ground arith;
    fits = ground (arith, h.fits, room);
    inside = λ k a b. ground (arith, h.inside k, from);
    below = λ k a. ground arith;
    above = λ k a. ground (arith, h.above k);
  }

module _ {E : Type 0} (l : LogDb E) where
  pub record Stores (s : LogStore l.Db) (g : Log E) : Type 0 where
    pub start : s.start_idx ≡ g.start
    pub next : s.next_idx ≡ g.next
    pub entries : (i : ℕ) → l.get s.db i ≡ g.entries i

module _ {E : Type 0} (l : LogDb E) (law : IsLogDb l) where
  pub append-Stores :
      (e : E) (s : LogStore l.Db) (g : Log E)
      → suc g.next < 2 ^ 64
      → Stores l s g
      → Stores l (append l e s).1 (appended e g)
  unfolding append after
  append-Stores e s g room h = record {
    start = h.start;
    next = ap (λ n. (n + 1) % 2 ^ 64) h.next ∙ mod_suc g.next room;
    entries =
        λ i. law.write_law (put_entry s.next_idx e ∷ []) s.db i ∙ rw (h.next, h.entries i) refl;
  }

  pub write_at-Stores :
      (i : ℕ) (e : E) (s : LogStore l.Db) (g : Log E)
      → g.start ≤ i
      → i ≤ g.next
      → suc i < 2 ^ 64
      → IsLog g
      → Stores l s g
      → Stores l (write_at l i e s) (written i e g)
  unfolding write_at after
  write_at-Stores i e s g from to room is h =
      let n = s.next_idx - suc i in
      record {
        start = h.start;
        next = mod_suc i room;
        entries = λ k.
            ap (λ j. l.get (l.write (put_entry i e ∷ deletes j (s.next_idx - j)) s.db) k)
              (mod_suc i room)
            ∙ law.write_law (put_entry i e ∷ deletes (suc i) n) s.db k
            ∙ after-deletes k (suc i) n (if k == i then some e else l.get s.db k)
            ∙ ground (arith, h.entries k, h.next, is.above k);
      }

  pub compact-Stores :
      (last_index : ℕ) (s : LogStore l.Db) (g : Log E)
      → g.start ≤ suc last_index
      → suc last_index < 2 ^ 64
      → IsLog g
      → Stores l s g
      → (s' : LogStore l.Db) × (compact l last_index s ≡ some s')
        × Stores l s' (compacted last_index g)
  unfolding compact
  compact-Stores upto s g from room is h =
      let n = upto + 1 - s.start_idx in
      let before_last : (upto == 2 ^ 64 - 1) ≡ false = ground (arith, room) in
      (
        record s {
          db = l.write (deletes s.start_idx n) s.db;
          start_idx = upto + 1;
          next_idx = max s.next_idx (upto + 1);
        },
        rw before_last refl,
        record {
          start = omega arith;
          next = ground (arith, h.next);
          entries = λ k.
              law.write_law (deletes s.start_idx n) s.db k
              ∙ after-deletes k s.start_idx n (l.get s.db k)
              ∙ ground (arith, h.entries k, h.start, is.below k);
        },
      )

  pub flush-Stores :
      (dummy : E) (s : LogStore l.Db) (g : Log E)
      → IsLog g
      → Stores l s g
      → Stores l (flush l dummy s) g
  unfolding flush after
  flush-Stores dummy s g is h = record {
    start = h.start;
    next = h.next;
    entries = λ k.
        law.write_law (put_entry 0 dummy ∷ delete_entry 0 ∷ []) s.db k
        ∙ ground (arith, h.entries k, is.below k, is.positive);
  }

  pub first_index-Stores :
      (s : LogStore l.Db) (g : Log E)
      → IsLog g
      → g.start < g.next
      → Stores l s g
      → first_index l s.db ≡ g.start
  unfolding first_index
  first_index-Stores s g is some_left h = elim (Option-cases (l.seek s.db 0)) [
    | inl empty ↦
        let bad : g.entries g.start ≡ none =
          sym (h.entries g.start) ∙ law.seek_none s.db 0 empty g.start (omega arith) in
        absurd (is.inside g.start (omega arith) some_left bad)
    | inr (j, found) ↦
        let (le, there, before) = law.seek_some s.db 0 j found in
        let there' : g.entries j ≢ none = λ e. there (h.entries j ∙ e) in
        let present : l.get s.db g.start ≢ none =
          λ e. is.inside g.start (omega arith) some_left (sym (h.entries g.start) ∙ e) in
        rw found (ground (arith, is.below j, there', before g.start, present))
  ]

  pub last_index-Stores :
      (s : LogStore l.Db) (g : Log E)
      → IsLog g
      → g.start < g.next
      → Stores l s g
      → last_index l s.db + 1 ≡ g.next
  unfolding last_index
  last_index-Stores s g is some_left h =
      let top = g.next - 1 in
      let present : l.get s.db top ≢ none = λ e.
        is.inside top (omega (arith, some_left)) (omega (arith, some_left))
          (sym (h.entries top) ∙ e) in
      elim (Option-cases (l.last s.db)) [
        | inl empty ↦ absurd (present (law.last_none s.db empty top))
        | inr (j, found) ↦
            let (there, beyond) = law.last_some s.db j found in
            let there' : g.entries j ≢ none = λ e. there (h.entries j ∙ e) in
            rw found (ground (arith, is.above j, there', beyond top, present, some_left))
      ]

  pub load-Stores :
      (s : LogStore l.Db) (g : Log E)
      → IsLog g
      → g.start < g.next
      → Stores l s g
      → Stores l (load l s.db) g
  unfolding load
  load-Stores s g is some_left h = record {
    start = first_index-Stores s g is some_left h;
    next = ap (λ n. n % 2 ^ 64) (last_index-Stores s g is some_left h) ∙ omega (arith, is.fits);
    entries = h.entries;
  }
