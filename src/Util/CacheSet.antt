-- ===== src/Util/CacheSet.antt =====
-- src/util/common/cache_set.hpp: a set that forgets its oldest values. The queue holds references
-- to the elements of the set, so it is the values themselves here, the oldest first. The mutex makes
-- each call one step.
pub mod Laws
use cbdc_forensics.Common.{
  ℕ, Bool, true, false, List, [], ◌∷◌, ◌++◌, length, leb, if◌then◌else◌, member, emplace, erase,
}

pub record CacheSet : Type 0 where
  pub vals : List ℕ
  pub eviction_queue : List ℕ
  pub max_size : ℕ

unfoldable pub new : ℕ → CacheSet
new n = record { vals = []; eviction_queue = []; max_size = n }

-- The element at the front is erased, then popped. (`front` of an empty queue is undefined; `add`
-- has just pushed.)
pop_oldest : List ℕ → CacheSet → CacheSet
pop_oldest [] c = c
pop_oldest (v ∷ q) c = record c { vals = erase v c.vals; eviction_queue = q }

evict : CacheSet → CacheSet
unfolding pop_oldest
evict c = if leb c.max_size (length c.eviction_queue) then pop_oldest c.eviction_queue c else c

unfoldable pub add : ℕ → CacheSet → CacheSet × Bool
unfolding evict
add v c = if member v c.vals then (c, false) else (
  evict (record c { vals = emplace v c.vals; eviction_queue = c.eviction_queue ++ (v ∷ []) }),
  true,
)

unfoldable pub contains : ℕ → CacheSet → Bool
contains v c = member v c.vals

-- The calls of `add` in turn.
unfoldable pub add_each : List ℕ → CacheSet → CacheSet
add_each [] c = c
add_each (v ∷ vs) c = add_each vs (add v c).0
