-- ===== src/Raft/LogStore/Examples.antt =====
-- src/util/raft/log_store.cpp: runs of the log store on the slots.
use cbdc_forensics.Common.{
  subst, ap, sym, ◌∙◌, Option, ◌-◌, ◌^◌, ◌++◌, take, drop, take-append, drop-append, ℕ, ◌≡◌, refl,
  List, [], ◌∷◌, none, some, arith,
}
use cbdc_forensics.Raft.LogStore.{
  LogStore, first_index, last_index, load, append, write_at, entry_at, last_entry, log_entries,
  compact, flush,
}
use cbdc_forensics.Raft.LogStore.Contiguous.{Log, IsLog, Stores}
use cbdc_forensics.Raft.LogStore.Run.{
  Call, call_append, call_write_at, call_compact, call_flush, call_restart, perform, run, ran,
  AreAllowed, run-Stores,
}
use cbdc_forensics.Raft.LogStore.Buffer.{Serializer, IsSerializer, pack, apply_pack}
use cbdc_forensics.Util.Serialization.Bytes.{le_bytes, read_le, read_le-le_bytes}
use cbdc_forensics.Raft.LogStore.Pack.{cut, pack-apply_pack}
use cbdc_forensics.Raft.LogStore.Slots.{slots, slots-IsLogDb}

abbrev fresh : LogStore slots.Db
fresh = load slots []

abbrev first_log : Log ℕ
first_log = record { start = 1; entries = λ _. none; next = 1 }

first_log-IsLog : IsLog first_log
first_log-IsLog = record {
  positive = omega arith;
  ordered = omega arith;
  fits = omega arith;
  inside = λ i a b. absurd (omega arith);
  below = λ _ _. refl;
  above = λ _ _. refl;
}

fresh-Stores : Stores slots fresh first_log
unfolding load first_index last_index
fresh-Stores = record { start = refl; next = refl; entries = λ _. refl }

-- Three entries, the second is written again, one more, and a compaction of the first.
abbrev one : LogStore slots.Db
one = (append slots 11 fresh).1

abbrev three : LogStore slots.Db
three = (append slots 13 (append slots 12 one).1).1

abbrev again : LogStore slots.Db
again = (append slots 23 (write_at slots 2 22 three)).1

again_test : log_entries slots 1 4 again ≡ some (11 ∷ 22 ∷ 23 ∷ [])
unfolding load first_index last_index append write_at log_entries
again_test = refl

last_entry_test : last_entry slots again ≡ some 23
unfolding load first_index last_index append write_at last_entry
last_entry_test = refl

abbrev again_calls : List (Call ℕ)
again_calls =
    call_append 11 ∷ call_append 12 ∷ call_append 13 ∷ call_write_at 2 22 ∷ call_append 23 ∷ []

abbrev again_log : Log ℕ
again_log = ran again_calls first_log

again-run : run slots again_calls fresh ≡ some again
unfolding run append write_at
again-run = refl

entry_at_test : entry_at slots 2 again ≡ some 22
unfolding append write_at entry_at load
entry_at_test = refl

-- At the greatest index `append` wraps around, and `compact` does not end.
abbrev full : LogStore slots.Db
full = record fresh { next_idx = 2 ^ 64 - 1 }

full_append_test : (append slots 5 full).1.next_idx ≡ 0
unfolding append
full_append_test = refl

full_compact_test : compact slots (2 ^ 64 - 1) full ≡ none
unfolding compact
full_compact_test = refl

again_calls-AreAllowed : AreAllowed again_calls first_log
again_calls-AreAllowed = (
  omega arith,
  (omega arith, (omega arith, ((omega arith, omega arith, omega arith), (omega arith, tt)))),
)

again-Stores : IsLog again_log × Stores slots again again_log
unfolding append write_at
again-Stores =
    let (s', e, is, h) =
      run-Stores slots slots-IsLogDb again_calls fresh first_log first_log-IsLog fresh-Stores
        again_calls-AreAllowed in
    (
      is,
      subst (λ s. Stores slots s again_log)
          (ap (λ o. elim o [ none ↦ again | some x ↦ x ]) (sym e ∙ again-run)) h,
    )

-- These, then a compaction of the first entry, a flush and a restart.
abbrev calls : List (Call ℕ)
calls = again_calls ++ (call_compact 1 ∷ call_flush 0 ∷ call_restart ∷ [])

calls-AreAllowed : AreAllowed calls first_log
calls-AreAllowed = (
  omega arith,
  (
    omega arith,
    (
      omega arith,
      (
        (omega arith, omega arith, omega arith),
        (omega arith, ((omega arith, omega arith), (tt, (omega arith, tt)))),
      ),
    ),
  ),
)

run-Stores_example :
    (s' : LogStore slots.Db) × (run slots calls fresh ≡ some s')
    × IsLog (ran calls first_log)
    × Stores slots s' (ran calls first_log)
run-Stores_example =
    run-Stores slots slots-IsLogDb calls fresh first_log first_log-IsLog fresh-Stores
      calls-AreAllowed

abbrev indices : Option (LogStore slots.Db) → Option (ℕ × ℕ)
indices none = none
indices (some s) = some (s.start_idx, s.next_idx)

restarted_test : indices (run slots calls fresh) ≡ some (2, 4)
unfolding run perform append write_at compact flush load first_index last_index
restarted_test = refl

-- Numbers in eight bytes, and entries of one element.
abbrev bytes : Serializer ℕ
bytes = record {
  put_u64 = le_bytes 8;
  get_u64 = read_le 8;
  get_buffer = λ n bs. some (take n bs, drop n bs);
  serialize = λ e. e ∷ [];
  deserialize = λ bs. elim bs [ [] ↦ none | e ∷ rest ↦ some e ];
}

bytes-IsSerializer : IsSerializer bytes
bytes-IsSerializer = record {
  u64_law = λ n rest h. read_le-le_bytes 8 n rest h;
  buffer_law = λ bs rest. rw (take-append bs rest, drop-append bs rest) refl;
  entry_law = λ e. refl;
  size_law = λ e. omega arith;
}

pack-apply_pack_example :
    (bs : List ℕ) × (s' : LogStore slots.Db) × (pack bytes slots 2 2 again ≡ some bs)
    × (apply_pack bytes slots 2 bs fresh ≡ some s')
    × Stores slots s' (cut 2 2 again_log)
pack-apply_pack_example =
    pack-apply_pack slots slots-IsLogDb bytes again fresh again_log 2 2 bytes-IsSerializer
      again-Stores.0 again-Stores.1 fresh-Stores.entries (omega arith) (omega arith) (omega arith)
      (omega arith)
