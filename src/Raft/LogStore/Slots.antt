-- ===== src/Raft/LogStore/Slots.antt =====
-- A database of log entries for tests: a list of slots, whose positions are the keys.
use cbdc_forensics.Common.{
  ℕ, zero, suc, ◌<◌, ◌≤◌, ◌≡◌, ◌≢◌, refl, ap, subst, ◌∙◌, List, [], ◌∷◌, Option, none, some, arith,
  ◌==◌, if◌then◌else◌,
}
use cbdc_forensics.Raft.LogStore.{Op, put_entry, delete_entry, LogDb}
use cbdc_forensics.Raft.LogStore.Laws.{after, IsLogDb}

abbrev slot : List (Option ℕ) → ℕ → Option ℕ
slot [] i = none
slot (x ∷ xs) zero = x
slot (x ∷ xs) (suc i) = slot xs i

abbrev set_slot : ℕ → Option ℕ → List (Option ℕ) → List (Option ℕ)
set_slot zero x [] = x ∷ []
set_slot zero x (y ∷ ys) = x ∷ ys
set_slot (suc i) x [] = none ∷ set_slot i x []
set_slot (suc i) x (y ∷ ys) = y ∷ set_slot i x ys

abbrev write_slots : List (Op ℕ) → List (Option ℕ) → List (Option ℕ)
write_slots [] xs = xs
write_slots (put_entry i e ∷ ops) xs = write_slots ops (set_slot i (some e) xs)
write_slots (delete_entry i ∷ ops) xs = write_slots ops (set_slot i none xs)

abbrev suc_of : Option ℕ → Option ℕ
suc_of none = none
suc_of (some i) = some (suc i)

abbrev seek_slot : List (Option ℕ) → ℕ → Option ℕ
seek_slot [] i = none
seek_slot (some x ∷ xs) zero = some 0
seek_slot (none ∷ xs) zero = suc_of (seek_slot xs 0)
seek_slot (x ∷ xs) (suc i) = suc_of (seek_slot xs i)

abbrev last_after : Option ℕ → Option ℕ → Option ℕ
last_after x (some i) = some (suc i)
last_after none none = none
last_after (some x) none = some 0

abbrev last_slot : List (Option ℕ) → Option ℕ
last_slot [] = none
last_slot (x ∷ xs) = last_after x (last_slot xs)

abbrev pub slots : LogDb ℕ
slots = record {
  Db = List (Option ℕ);
  get = slot;
  write = write_slots;
  seek = seek_slot;
  last = last_slot;
}

slot-set_slot :
    (xs : List (Option ℕ)) (i k : ℕ) (x : Option ℕ)
    → slot (set_slot i x xs) k ≡ (if k == i then x else slot xs k)
slot-set_slot [] zero zero x = refl
slot-set_slot [] zero (suc k) x = ground arith
slot-set_slot [] (suc i) zero x = ground arith
slot-set_slot [] (suc i) (suc k) x = slot-set_slot [] i k x ∙ ground arith
slot-set_slot (y ∷ ys) zero zero x = refl
slot-set_slot (y ∷ ys) zero (suc k) x = ground arith
slot-set_slot (y ∷ ys) (suc i) zero x = ground arith
slot-set_slot (y ∷ ys) (suc i) (suc k) x = slot-set_slot ys i k x ∙ ground arith

slot-write_slots :
    (ops : List (Op ℕ)) (xs : List (Option ℕ)) (k : ℕ)
    → slot (write_slots ops xs) k ≡ after k ops (slot xs k)
unfolding after
slot-write_slots [] xs k = refl
slot-write_slots (put_entry i e ∷ ops) xs k =
    slot-write_slots ops (set_slot i (some e) xs) k
    ∙ ap (after k ops) (slot-set_slot xs i k (some e))
slot-write_slots (delete_entry i ∷ ops) xs k =
    slot-write_slots ops (set_slot i none xs) k ∙ ap (after k ops) (slot-set_slot xs i k none)

-- What the position found from an index is.
IsFound : List (Option ℕ) → ℕ → Option ℕ → Type 0
IsFound xs i none = (k : ℕ) → i ≤ k → slot xs k ≡ none
IsFound xs i (some j) = (i ≤ j) × (slot xs j ≢ none) × ((k : ℕ) → i ≤ k → k < j → slot xs k ≡ none)

later :
    (x : Option ℕ) (xs : List (Option ℕ)) (i : ℕ)
    → ((k : ℕ) → i ≤ k → slot xs k ≡ none)
    → (k : ℕ) → suc i ≤ k
    → slot (x ∷ xs) k ≡ none
later x xs i h zero a = absurd (omega arith)
later x xs i h (suc k) a = h k (omega arith)

between :
    (x : Option ℕ) (xs : List (Option ℕ)) (i j : ℕ)
    → ((k : ℕ) → i ≤ k → k < j → slot xs k ≡ none)
    → (k : ℕ) → suc i ≤ k
    → k < suc j
    → slot (x ∷ xs) k ≡ none
between x xs i j h zero a b = absurd (omega arith)
between x xs i j h (suc k) a b = h k (omega arith) (omega arith)

IsFound-suc :
    (x : Option ℕ) (xs : List (Option ℕ)) (i : ℕ) (r : Option ℕ)
    → IsFound xs i r
    → IsFound (x ∷ xs) (suc i) (suc_of r)
unfolding IsFound
IsFound-suc x xs i none h = later x xs i h
IsFound-suc x xs i (some j) h = (omega (arith, h.0), h.1, between x xs i j h.2)

skipped :
    (xs : List (Option ℕ)) → ((k : ℕ) → slot xs k ≡ none) → (k : ℕ) → slot (none ∷ xs) k ≡ none
skipped xs h zero = refl
skipped xs h (suc k) = h k

from_one :
    (xs : List (Option ℕ)) (j : ℕ)
    → ((k : ℕ) → 1 ≤ k → k < j → slot (none ∷ xs) k ≡ none)
    → (k : ℕ) → k < j
    → slot (none ∷ xs) k ≡ none
from_one xs j h zero b = refl
from_one xs j h (suc k) b = h (suc k) (omega arith) b

IsFound-skip :
    (xs : List (Option ℕ)) (r : Option ℕ) → IsFound (none ∷ xs) 1 r → IsFound (none ∷ xs) 0 r
unfolding IsFound
IsFound-skip xs none h = λ k a. skipped xs (λ k. h (suc k) (omega arith)) k
IsFound-skip xs (some j) h = (omega arith, h.1, λ k a b. from_one xs j h.2 k b)

seek_slot-IsFound : (xs : List (Option ℕ)) (i : ℕ) → IsFound xs i (seek_slot xs i)
unfolding IsFound
seek_slot-IsFound [] i = λ k a. refl
seek_slot-IsFound (some x ∷ xs) zero = (omega arith, cc, λ k a b. absurd (omega arith))
seek_slot-IsFound (none ∷ xs) zero =
    IsFound-skip xs _ (IsFound-suc none xs 0 (seek_slot xs 0) (seek_slot-IsFound xs 0))
seek_slot-IsFound (x ∷ xs) (suc i) = IsFound-suc x xs i (seek_slot xs i) (seek_slot-IsFound xs i)

IsLast : List (Option ℕ) → Option ℕ → Type 0
IsLast xs none = (k : ℕ) → slot xs k ≡ none
IsLast xs (some j) = (slot xs j ≢ none) × ((k : ℕ) → j < k → slot xs k ≡ none)

last_after-IsLast :
    (x : Option ℕ) (xs : List (Option ℕ)) (r : Option ℕ)
    → IsLast xs r
    → IsLast (x ∷ xs) (last_after x r)
unfolding IsLast
last_after-IsLast x xs (some j) h = (h.0, λ k a. later x xs (suc j) h.1 k a)
last_after-IsLast none xs none h = skipped xs h
last_after-IsLast (some x) xs none h = (cc, λ k a. later (some x) xs 0 (λ k _. h k) k a)

last_slot-IsLast : (xs : List (Option ℕ)) → IsLast xs (last_slot xs)
unfolding IsLast
last_slot-IsLast [] = λ k. refl
last_slot-IsLast (x ∷ xs) = last_after-IsLast x xs (last_slot xs) (last_slot-IsLast xs)

pub slots-IsLogDb : IsLogDb slots
unfolding IsFound IsLast
slots-IsLogDb = record {
  write_law = slot-write_slots;
  seek_some = λ db i j e. subst (IsFound db i) e (seek_slot-IsFound db i);
  seek_none = λ db i e. subst (IsFound db i) e (seek_slot-IsFound db i);
  last_some = λ db j e. subst (IsLast db) e (last_slot-IsLast db);
  last_none = λ db e. subst (IsLast db) e (last_slot-IsLast db);
}
