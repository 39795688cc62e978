-- ===== src/Atomizer/Cache.antt =====
-- src/uhs/atomizer/atomizer/atomizer.cpp: the loops of `check_stxo_cache` and `make_block` over the
-- cache of spent outputs.
use cbdc_forensics.Common.{
  ℕ, zero, suc, ◌≤◌, ◌<◌, ◌≡◌, refl, ap, inl, inr, true, ◌&&◌, List, [], ◌∷◌, arith, length, get_or,
  take, if◌then◌else◌, member, emplace, member-emplace, Bool-cases, ==_iff, ◌==◌,
}
use cbdc_forensics.Atomizer.{spent_inputs, collect_spent}

member-spent_inputs :
    (y : ℕ) (cache inputs errs : List ℕ)
    → member y (spent_inputs cache inputs errs)
      ≡ (if member y errs then true else member y inputs && member y cache)
unfolding spent_inputs member
member-spent_inputs y cache [] errs = ground arith
member-spent_inputs y cache (inp ∷ inputs) errs = elim (Bool-cases (y == inp)) [
  | inl same ↦
      let e : member y cache ≡ member inp cache =
        ap (λ z. member z cache) ((==_iff y inp).0 same) in
      ground (
        arith,
        e,
        same,
        member-spent_inputs y cache inputs errs,
        member-spent_inputs y cache inputs (emplace inp errs),
        member-emplace y inp errs,
      )
  | inr other ↦ ground (
    arith,
    other,
    member-spent_inputs y cache inputs errs,
    member-spent_inputs y cache inputs (emplace inp errs),
    member-emplace y inp errs,
  )
]

collect_spent_kept :
    (y : ℕ) (caches : List (List ℕ)) (inputs errs : List ℕ)
    → member y errs ≡ true
    → member y (collect_spent caches inputs errs) ≡ true
unfolding collect_spent
collect_spent_kept y [] inputs errs h = h
collect_spent_kept y (cache ∷ caches) inputs errs h =
    collect_spent_kept y caches inputs (spent_inputs cache inputs errs)
      (ground (arith, member-spent_inputs y cache inputs errs, h))

-- An input that a set of the cache has is collected.
pub collect_spent_found :
    (y k : ℕ) (caches : List (List ℕ)) (inputs errs : List ℕ)
    → member y inputs ≡ true
    → member y (get_or caches k []) ≡ true
    → member y (collect_spent caches inputs errs) ≡ true
unfolding collect_spent member
collect_spent_found y k [] inputs errs i h = cc
collect_spent_found y zero (cache ∷ caches) inputs errs i h =
    collect_spent_kept y caches inputs (spent_inputs cache inputs errs)
      (ground (arith, member-spent_inputs y cache inputs errs, h, i))
collect_spent_found y (suc k) (cache ∷ caches) inputs errs i h =
    collect_spent_found y k caches inputs (spent_inputs cache inputs errs) i h

pub get_or-take : (n k : ℕ) (xs : List (List ℕ)) → k < n → get_or (take n xs) k [] ≡ get_or xs k []
get_or-take zero k xs h = absurd (omega arith)
get_or-take (suc n) k [] h = refl
get_or-take (suc n) zero (x ∷ xs) h = refl
get_or-take (suc n) (suc k) (x ∷ xs) h = get_or-take n k xs (omega arith)

pub length-take : (n : ℕ) (xs : List (List ℕ)) → n ≤ length xs → length (take n xs) ≡ n
length-take zero xs h = refl
length-take (suc n) [] h = absurd (omega arith)
length-take (suc n) (x ∷ xs) h = omega (arith, length-take n xs (omega arith))
