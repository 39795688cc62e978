-- ===== src/Raft/LogStore/Pack.antt =====
-- src/util/raft/log_store.cpp: `pack` and `apply_pack`.
use cbdc_forensics.Common.{
  ℕ, zero, suc, ◌+◌, ◌-◌, ◌%◌, ◌<◌, ◌≤◌, ◌≡◌, ◌≢◌, refl, sym, ap, ◌∙◌, inl, inr, List, [], ◌∷◌,
  none, some, arith, ◌==◌, if◌then◌else◌, Bool-cases, Option-cases, length, get_elem?, ◌++◌,
  append-nil, ◌^◌,
}
use cbdc_forensics.Raft.LogStore.{
  LogDb, LogStore, puts, entries_from, log_entries, apply_entries, load,
}
use cbdc_forensics.Raft.LogStore.Laws.{IsLogDb, within, after-puts, get_elem?-shift}
use cbdc_forensics.Raft.LogStore.Buffer.{
  Serializer, IsSerializer, put_bufs, get_bufs, pack, apply_pack, get_bufs-put_bufs,
}
use cbdc_forensics.Raft.LogStore.Contiguous.{Log, IsLog, Stores, load-Stores}

-- The entries of a log from an index, `n` of them.
abbrev pub cut : {E : Type 0} → ℕ → ℕ → Log E → Log E
cut index n g = record {
  start = index;
  entries = λ k. if within index n k then g.entries k else none;
  next = index + n;
}

module _ {E : Type 0} (l : LogDb E) (law : IsLogDb l) (s : LogStore l.Db) (g : Log E) (is : IsLog g)
    (h : Stores l s g) where
  entry_there : (i : ℕ) → g.start ≤ i → i < g.next → l.get s.db i ≢ none
  entry_there i from to e = is.inside i from to (sym (h.entries i) ∙ e)

  seek_there : (i : ℕ) → g.start ≤ i → i < g.next → l.seek s.db i ≡ some i
  seek_there i from to = elim (Option-cases (l.seek s.db i)) [
    | inl nowhere ↦ absurd (entry_there i from to (law.seek_none s.db i nowhere i (omega arith)))
    | inr (j, found) ↦
        let (le, there, before) = law.seek_some s.db i j found in
        let same : j ≡ i = ground (arith, le, before i, entry_there i from to) in
        found ∙ ap some same
  ]

  entries_from_lem :
      (n i : ℕ)
      → g.start ≤ i
      → i + n ≤ g.next
      → (es : List E) × (entries_from l n i s.db ≡ some es)
        × (length es ≡ n)
        × ((k : ℕ) → i ≤ k → k < i + n → get_elem? es (k - i) ≡ g.entries k)
  unfolding entries_from
  entries_from_lem zero i from to = ([], refl, refl, λ k a b. absurd (omega arith))
  entries_from_lem (suc n) i from to = elim (Option-cases (l.get s.db i)) [
    | inl gone ↦ absurd (entry_there i from (omega arith) gone)
    | inr (x, there) ↦
        let (es, e, len, at) = entries_from_lem n (suc i) (omega arith) (omega arith) in
        (
          x ∷ es,
          rw (seek_there i from (omega arith), there, e) refl,
          omega (arith, len),
          λ k a b. get_elem?-shift x es k i a ∙ elim (Bool-cases (k == i)) [
            | inl same ↦
                let here : k ≡ i = ground (arith, same) in
                rw same (sym there ∙ h.entries i ∙ ap g.entries (sym here))
            | inr other ↦ rw other (at k (ground (arith, other)) (omega arith))
          ],
        )
  ]

module _ {E : Type 0} (l : LogDb E) (law : IsLogDb l) where
  cut-IsLog :
      (index cnt : ℕ) (g : Log E)
      → IsLog g
      → 1 ≤ index
      → g.start ≤ index
      → index + cnt ≤ g.next
      → IsLog (cut index cnt g)
  cut-IsLog index cnt g is positive from to = record {
    positive = positive;
    ordered = omega arith;
    fits = omega (arith, is.fits);
    inside = λ i a b. ground (arith, is.inside i);
    below = λ i a. ground arith;
    above = λ i a. ground arith;
  }

  put_empty :
      (index cnt : ℕ) (es : List E) (g : Log E) (db : l.Db)
      → length es ≡ cnt
      → index + cnt < 2 ^ 64
      → ((k : ℕ) → l.get db k ≡ none)
      → ((k : ℕ) → index ≤ k → k < index + cnt → get_elem? es (k - index) ≡ g.entries k)
      → (k : ℕ) → l.get (l.write (puts index es) db) k ≡ (cut index cnt g).entries k
  put_empty index cnt es g db len fits empty at k =
      law.write_law (puts index es) db k
      ∙ after-puts k index es (l.get db k) (omega (arith, len, fits))
      ∙ rw len (ground (arith, empty k, at k))

  log_entries-apply_entries :
      (s empty : LogStore l.Db) (g : Log E) (index cnt : ℕ)
      → IsLog g
      → Stores l s g
      → ((k : ℕ) → l.get empty.db k ≡ none)
      → 1 ≤ cnt
      → g.start ≤ index
      → index + cnt ≤ g.next
      → (es : List E) × (log_entries l index ((index + cnt) % 2 ^ 64) s ≡ some es)
        × (length es ≡ cnt)
        × Stores l (apply_entries l index es empty) (cut index cnt g)
  unfolding log_entries apply_entries load
  log_entries-apply_entries s empty g index cnt is h no_entry some_left from to =
      let (es, e, len, at) = entries_from_lem l law s g is h cnt index from to in
      let db = l.write (puts index es) empty.db in
      let whole : Stores l (record { db = db; next_idx = index + cnt; start_idx = index })
          (cut index cnt g) =
        record {
          start = refl;
          next = refl;
          entries = put_empty index cnt es g empty.db len (omega (arith, is.fits)) no_entry at;
        } in
      let is' = cut-IsLog index cnt g is (omega (arith, is.positive)) from to in
      let e' : log_entries l index ((index + cnt) % 2 ^ 64) s ≡ some es =
        ap (λ n. entries_from l n index s.db) (omega (arith, is.fits)) ∙ e in
      (es, e', len, load-Stores l law _ (cut index cnt g) is' (omega arith) whole)

  -- On a database that applies batches whole and finds keys in their order (`IsLogDb`), with a
  -- serializer that reads back what it wrote (`IsSerializer`): `pack` of a positive number of
  -- entries below 2^31, in the range of a store that stores a log, succeeds, and `apply_pack` of
  -- the buffer to a store without entries succeeds and makes a store that stores exactly these
  -- entries of the log, at their indices, with the first and the next index that belong to them.
  pub pack-apply_pack :
      (z : Serializer E) (s empty : LogStore l.Db) (g : Log E) (index cnt : ℕ)
      → IsSerializer z
      → IsLog g
      → Stores l s g
      → ((k : ℕ) → l.get empty.db k ≡ none)
      → 1 ≤ cnt
      → cnt < 2 ^ 31
      → g.start ≤ index
      → index + cnt ≤ g.next
      → (bs : List ℕ) × (s' : LogStore l.Db) × (pack z l index cnt s ≡ some bs)
        × (apply_pack z l index bs empty ≡ some s')
        × Stores l s' (cut index cnt g)
  unfolding pack apply_pack
  pack-apply_pack z s empty g index cnt zlaw is h no_entry some_left fits from to =
      let (es, e, len, stored) =
        log_entries-apply_entries s empty g index cnt is h no_entry some_left from to in
      let small : cnt < 256 ^ 8 = omega (arith, fits) in
      let back : get_bufs z cnt (put_bufs z es) ≡ some es =
        ap (λ n. get_bufs z n (put_bufs z es)) (sym len)
        ∙ ap (get_bufs z (length es)) (sym (append-nil (put_bufs z es)))
        ∙ get_bufs-put_bufs z zlaw es [] in
      (
        z.put_u64 cnt ++ put_bufs z es,
        apply_entries l index es empty,
        rw e refl,
        rw (zlaw.u64_law cnt (put_bufs z es) small, back) refl,
        stored,
      )
