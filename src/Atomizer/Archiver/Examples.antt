-- ===== src/Atomizer/Archiver/Examples.antt =====
-- Tests of the archiver, and the theorem at a concrete input.
use cbdc_forensics.Common.{
  ℕ, suc, ◌≤◌, ◌≡◌, refl, inl, inr, false, true, Option, none, some, [], ◌∷◌, arith, length, ◌==◌,
  if◌then◌else◌, find, put, remove, ◌>>=◌, Bool-cases, sym, ap, ◌∙◌,
}
use cbdc_forensics.Atomizer.{Block}
use cbdc_forensics.Atomizer.Archiver.{
  BlockStore, IsBlockStore, Archiver, init_best_block, digest_block, get_block, get_block_request,
}
use cbdc_forensics.Atomizer.Archiver.Digest.{IsArchive, digest_block_returns}

-- The best height, and the blocks as a function.
abbrev store : BlockStore
store = record {
  Db = Option ℕ × (ℕ → Option Block);
  get_bestblock = λ db. db.0;
  get_height = λ h db. db.1 h;
  put_bestblock = λ n db. (some n, db.1);
  write_block = λ n blk db. (some n, λ h. if h == n then some blk else db.1 h);
}

store-IsBlockStore : IsBlockStore store
store-IsBlockStore = record {
  bestblock-put_bestblock = λ n db. refl;
  height-put_bestblock = λ h n db. refl;
  bestblock-write_block = λ n blk db. refl;
  height-write_block = λ h n blk db. refl;
}

abbrev block_at : ℕ → Block
block_at h = record { height = h; transactions = [] }

-- A new archiver to which the second block came first.
abbrev waiting : Archiver store
waiting = record {
  db = (some 0, λ h. none);
  best_height = 0;
  deferred = (2, block_at 2) ∷ [];
  requests = get_block_request 1 ∷ [];
  samples = 0;
  max_samples = 0;
  sample_collection_active = false;
  running = true;
}

abbrev new_archiver : Archiver store
new_archiver = record waiting { db = (none, λ h. none); deferred = []; requests = [] }

second_first : digest_block store 1 (block_at 2) (init_best_block store new_archiver) ≡ some waiting
unfolding digest_block init_best_block find put
second_first = refl

-- The first block comes, and both are stored.
both_stored :
    (digest_block store 2 (block_at 1) waiting >>= (λ s. get_block store 2 s)) ≡ some (block_at 2)
unfolding digest_block get_block find remove
both_stored = refl

waiting-IsArchive : IsArchive store waiting 0
unfolding find
waiting-IsArchive = record {
  best = refl;
  stored = λ h pos up. absurd (omega (arith, pos, up));
  height = inl refl;
  bound = omega arith;
  keyed = λ h b e. elim (Bool-cases (h == 2)) [
    | inl same ↦
        let is : some (block_at 2) ≡ some b = rw same at e in
        let it : block_at 2 ≡ b = cc in sym (ap (λ c. c.height) it) ∙ sym (ground (arith, same))
    | inr other ↦ absurd (ground (arith, e, other))
  ];
}

digest_block_returns_example :
    (s' : Archiver store) × (m : ℕ) × (digest_block store
        (suc (length waiting.deferred))
        (block_at 1)
        waiting
      ≡ some s')
    × IsArchive store s' m
    × (0 ≤ m)
digest_block_returns_example =
    digest_block_returns store store-IsBlockStore (block_at 1) waiting 0 waiting-IsArchive
