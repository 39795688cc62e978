-- ===== src/Util/Examples.antt =====
-- Tests of the models of src/util, and the theorems at concrete inputs.
use cbdc_forensics.Common.{
  ℕ, ◌≡◌, refl, true, false, List, [], ◌∷◌, member, emplace, erase, IsDistinct,
}
use cbdc_forensics.Util.CacheSet.{new, add, contains, add_each}
use cbdc_forensics.Util.CacheSet.Laws.{keep_last, contains-add_each}

abbrev three : List ℕ
three = 11 ∷ 12 ∷ 13 ∷ []

three-IsDistinct : IsDistinct three
unfolding member
three-IsDistinct = (refl, (refl, (refl, tt)))

-- A set of size 3 holds two values.
oldest_evicted : contains 11 (add_each three (new 3)) ≡ false
unfolding contains add_each add new member emplace erase
oldest_evicted = refl

newest_kept : contains 13 (add_each three (new 3)) ≡ true
unfolding contains add_each add new member emplace erase
newest_kept = refl

contains-add_each_example : contains 12 (add_each three (new 3)) ≡ member 12 (keep_last 2 three)
contains-add_each_example = contains-add_each three 3 12 three-IsDistinct
