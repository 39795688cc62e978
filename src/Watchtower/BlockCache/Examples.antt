-- ===== src/Watchtower/BlockCache/Examples.antt =====
-- A test of the model of the block cache, and the theorem at a concrete input.
use cbdc_forensics.Common.{◌≡◌, refl, none, some, [], ◌∷◌, find, put, remove}
use cbdc_forensics.Transaction.{CompactTx}
use cbdc_forensics.Atomizer.{Block}
use cbdc_forensics.Watchtower.BlockCache.{BlockCache, new, push_block, check_spent}

abbrev mint : CompactTx
mint = record { id = 1; inputs = []; uhs_outputs = 5 ∷ []; attestations = [] }

abbrev pay : CompactTx
pay = record { id = 2; inputs = 5 ∷ []; uhs_outputs = 6 ∷ []; attestations = [] }

abbrev first : Block
first = record { height = 1; transactions = mint ∷ [] }

abbrev second : Block
second = record { height = 2; transactions = pay ∷ [] }

abbrev cache : BlockCache
cache = push_block first (new 2)

paid : check_spent 5 (push_block second cache) ≡ some (2, 2)
unfolding check_spent push_block new find put remove
paid = refl

-- A third block makes the cache of two forget the first one.
forgets : check_spent 5 (push_block first (push_block second (push_block second (new 1)))) ≡ none
unfolding check_spent push_block new find put remove
forgets = refl
