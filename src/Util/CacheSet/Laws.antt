-- ===== src/Util/CacheSet/Laws.antt =====
-- src/util/common/cache_set.hpp: the invariant of the bounded set, and which values it holds.
use cbdc_forensics.Common.{
  ℕ, zero, suc, ◌-◌, ◌≤◌, ◌≡◌, refl, ap, sym, subst, ◌∙◌, true, false, inl, inr, List, [], ◌∷◌,
  ◌++◌, not, arith, length, length-append, leb, Bool-cases, drop, append_assoc, append-nil, member,
  emplace, member-emplace, member-erase, member-append, IsDistinct, SameSet,
}
use cbdc_forensics.Util.CacheSet.{CacheSet, new, pop_oldest, evict, add, contains, add_each}

-- The set and the queue hold the same values, each once, and one value less than `max_size`.
pub record IsValid (c : CacheSet) : Type 0 where
  pub same : SameSet c.vals c.eviction_queue
  pub distinct : IsDistinct c.eviction_queue
  pub bounded : length c.eviction_queue ≤ c.max_size - 1

pub new-IsValid : (n : ℕ) → IsValid (new n)
unfolding new member
new-IsValid n = record { same = λ x. refl; distinct = tt; bounded = omega arith }

snoc-IsDistinct :
    (v : ℕ) (q : List ℕ) → IsDistinct q → member v q ≡ false → IsDistinct (q ++ (v ∷ []))
unfolding member
snoc-IsDistinct v [] d h = (refl, tt)
snoc-IsDistinct v (x ∷ q) d h = ground (arith, snoc-IsDistinct v q d.1, member-append x q (v ∷ []))

-- One value too many may be queued when `evict` is called.
record IsPushed (c : CacheSet) : Type 0 where
  same : SameSet c.vals c.eviction_queue
  distinct : IsDistinct c.eviction_queue
  bounded : length c.eviction_queue ≤ suc (c.max_size - 1)

pop_oldest-IsValid :
    (q : List ℕ) (c : CacheSet)
    → c.eviction_queue ≡ q
    → c.max_size ≤ length q
    → IsPushed c
    → IsValid (pop_oldest q c)
unfolding pop_oldest member
pop_oldest-IsValid [] c e h p = record {
  same = p.same;
  distinct = p.distinct;
  bounded = rw e (omega arith);
}
pop_oldest-IsValid (v ∷ q) c e h p =
    let d : IsDistinct (v ∷ q) = subst IsDistinct e p.distinct in
    record {
      same = λ x. ground (arith, member-erase x v c.vals, p.same x, ap (member x) e, d.0);
      distinct = d.1;
      bounded = omega (arith, p.bounded, ap length e);
    }

evict-IsValid : (c : CacheSet) → IsPushed c → IsValid (evict c)
unfolding evict
evict-IsValid c p = elim (Bool-cases (leb c.max_size (length c.eviction_queue))) [
  | inl full ↦ rw full (pop_oldest-IsValid c.eviction_queue c refl (ground arith) p)
  | inr room ↦ rw room (record { same = p.same; distinct = p.distinct; bounded = ground arith })
]

-- Adding a value keeps a cache set well formed: its values are exactly those of its queue, and the
-- queue has no value twice and holds at most `max_size - 1`.
pub add-IsValid : (v : ℕ) (c : CacheSet) → IsValid c → IsValid (add v c).0
unfolding add member
add-IsValid v c h = elim (Bool-cases (member v c.vals)) [
  | inl old ↦ rw old h
  | inr fresh ↦ rw fresh (
      evict-IsValid _ (record {
        same = λ x.
            ground (
              arith,
              member-emplace x v c.vals,
              member-append x c.eviction_queue (v ∷ []),
              h.same x,
            );
        distinct = snoc-IsDistinct v c.eviction_queue h.distinct (sym (h.same v) ∙ fresh);
        bounded = omega (arith, h.bounded, length-append c.eviction_queue (v ∷ []));
      }))
]

-- `add` reports whether the value was new, and afterwards the set holds it if there is room for one.
pub add_result : (v : ℕ) (c : CacheSet) → (add v c).1 ≡ not (contains v c)
unfolding add contains
add_result v c = ground arith

-- The last `n` values.
pub keep_last : ℕ → List ℕ → List ℕ
keep_last n xs = drop (length xs - n) xs

keep_last_all : (n : ℕ) (xs : List ℕ) → length xs ≤ n → keep_last n xs ≡ xs
unfolding keep_last
keep_last_all n xs h = let e : length xs - n ≡ 0 = omega arith in rw e

keep_last_drop : (n x : ℕ) (xs : List ℕ) → n ≤ length xs → keep_last n (x ∷ xs) ≡ keep_last n xs
unfolding keep_last
keep_last_drop n x xs h = let e : suc (length xs) - n ≡ suc (length xs - n) = omega arith in rw e

keep_last-append :
    (n : ℕ) (xs ys : List ℕ) → keep_last n (keep_last n xs ++ ys) ≡ keep_last n (xs ++ ys)
keep_last-append n [] ys =
    ap (λ (l : List ℕ). keep_last n (l ++ ys)) (keep_last_all n [] (omega arith))
keep_last-append n (x ∷ xs) ys = elim (Bool-cases (leb n (length xs))) [
  | inl long ↦
      rw (keep_last_drop n x xs (ground arith), keep_last-append n xs ys)
        (sym (keep_last_drop n x (xs ++ ys) (ground (arith, length-append xs ys))))
  | inr short ↦ ap (λ (l : List ℕ). keep_last n (l ++ ys)) (keep_last_all n (x ∷ xs) (ground arith))
]

max_size-pop_oldest : (q : List ℕ) (c : CacheSet) → (pop_oldest q c).max_size ≡ c.max_size
unfolding pop_oldest
max_size-pop_oldest [] c = refl
max_size-pop_oldest (v ∷ q) c = refl

max_size-add : (v : ℕ) (c : CacheSet) → (add v c).0.max_size ≡ c.max_size
unfolding add
max_size-add v c = ground (
  arith,
  max_size-pop_oldest (c.eviction_queue ++ (v ∷ []))
      (record c { vals = emplace v c.vals; eviction_queue = c.eviction_queue ++ (v ∷ []) }),
)

queue-pop_oldest :
    (q : List ℕ) (c : CacheSet)
    → c.eviction_queue ≡ q
    → length q ≤ suc (c.max_size - 1)
    → c.max_size ≤ length q
    → (pop_oldest q c).eviction_queue ≡ keep_last (c.max_size - 1) q
unfolding pop_oldest
queue-pop_oldest [] c e h k = e ∙ sym (keep_last_all (c.max_size - 1) [] (omega arith))
queue-pop_oldest (v ∷ q) c e h k = sym (
    keep_last_drop (c.max_size - 1) v q (omega arith)
    ∙ keep_last_all (c.max_size - 1) q (omega arith))

queue-evict :
    (c : CacheSet)
    → length c.eviction_queue ≤ suc (c.max_size - 1)
    → (evict c).eviction_queue ≡ keep_last (c.max_size - 1) c.eviction_queue
unfolding evict
queue-evict c h = elim (Bool-cases (leb c.max_size (length c.eviction_queue))) [
  | inl full ↦ rw full (queue-pop_oldest c.eviction_queue c refl h (ground arith))
  | inr room ↦ rw room (sym (keep_last_all (c.max_size - 1) c.eviction_queue (ground arith)))
]

-- What the queue holds after `add` of a new value.
queue-add :
    (v : ℕ) (c : CacheSet)
    → IsValid c
    → contains v c ≡ false
    → (add v c).0.eviction_queue ≡ keep_last (c.max_size - 1) (c.eviction_queue ++ (v ∷ []))
unfolding add contains
queue-add v c h fresh =
    rw fresh (queue-evict _ (omega (arith, h.bounded, length-append c.eviction_queue (v ∷ []))))

member-IsDistinct : (x : ℕ) (q xs : List ℕ) → IsDistinct (q ++ (x ∷ xs)) → member x q ≡ false
unfolding member
member-IsDistinct x [] xs d = refl
member-IsDistinct x (y ∷ q) xs d =
    ground (arith, member-IsDistinct x q xs d.1, member-append y q (x ∷ xs), d.0)

drop-IsDistinct : (i : ℕ) (q xs : List ℕ) → IsDistinct (q ++ xs) → IsDistinct (drop i q ++ xs)
drop-IsDistinct zero q xs d = d
drop-IsDistinct (suc i) [] xs d = d
drop-IsDistinct (suc i) (y ∷ q) xs d = drop-IsDistinct i q xs d.1

-- The next of several distinct values: it is new, and the others still are.
queue-add_next :
    (x : ℕ) (xs : List ℕ) (c : CacheSet)
    → IsValid c
    → IsDistinct (c.eviction_queue ++ (x ∷ xs))
    → ((add x c).0.eviction_queue ≡ keep_last (c.max_size - 1) (c.eviction_queue ++ (x ∷ [])))
      × IsDistinct ((add x c).0.eviction_queue ++ xs)
unfolding keep_last
queue-add_next x xs c h d =
    let e =
      queue-add x c h (unfold contains in (h.same x ∙ member-IsDistinct x c.eviction_queue xs d)) in
    let d' : IsDistinct ((c.eviction_queue ++ (x ∷ [])) ++ xs) = rw append_assoc d in
    (e, rw e (drop-IsDistinct _ _ xs d'))

add_each-queue :
    (xs : List ℕ) (c : CacheSet)
    → IsValid c
    → IsDistinct (c.eviction_queue ++ xs)
    → (add_each xs c).eviction_queue ≡ keep_last (c.max_size - 1) (c.eviction_queue ++ xs)
unfolding add_each
add_each-queue [] c h d =
    rw append-nil (sym (keep_last_all (c.max_size - 1) c.eviction_queue h.bounded))
add_each-queue (x ∷ xs) c h d =
    let (e, d') = queue-add_next x xs c h d in
    let ih = add_each-queue xs (add x c).0 (add-IsValid x c h) d' in
    rw (ih, e, max_size-add x c, keep_last-append, append_assoc)

add_each-IsValid : (xs : List ℕ) (c : CacheSet) → IsValid c → IsValid (add_each xs c)
unfolding add_each
add_each-IsValid [] c h = h
add_each-IsValid (x ∷ xs) c h = add_each-IsValid xs (add x c).0 (add-IsValid x c h)

-- After distinct values were added to a new set, it holds the last `max_size - 1` of them, and no
-- others.
pub contains-add_each :
    (xs : List ℕ) (n y : ℕ)
    → IsDistinct xs
    → contains y (add_each xs (new n)) ≡ member y (keep_last (n - 1) xs)
unfolding contains new
contains-add_each xs n y d =
    (add_each-IsValid xs (new n) (new-IsValid n)).same y
    ∙ ap (member y) (add_each-queue xs (new n) (new-IsValid n) d)

member-drop_snoc : (i v : ℕ) (q : List ℕ) → i ≤ length q → member v (drop i (q ++ (v ∷ []))) ≡ true
unfolding member
member-drop_snoc zero v q h = ground (arith, member-append v q (v ∷ []))
member-drop_snoc (suc i) v [] h = absurd (omega arith)
member-drop_snoc (suc i) v (x ∷ q) h = member-drop_snoc i v q (omega arith)

contains-add_old : (v : ℕ) (c : CacheSet) → contains v c ≡ true → contains v (add v c).0 ≡ true
unfolding contains add
contains-add_old v c old = rw (old) old

-- With room for one value at least, the value that was just added is there.
pub contains-add :
    (v : ℕ) (c : CacheSet) → IsValid c → 2 ≤ c.max_size → contains v (add v c).0 ≡ true
contains-add v c h room = elim (Bool-cases (contains v c)) [
  | inl old ↦ contains-add_old v c old
  | inr fresh ↦
      unfold contains in
      ((add-IsValid v c h).same v
        ∙ ap (member v) (queue-add v c h fresh)
        ∙ (unfold keep_last in
            member-drop_snoc _ v c.eviction_queue
              (omega (arith, length-append c.eviction_queue (v ∷ [])))))
]
