-- ===== src/Config/Checked.antt =====
-- src/util/common/config.cpp: what holds of the options that `load_options` gives.
use cbdc_forensics.Common.{
  ℕ, ◌≤◌, ◌<◌, ◌≡◌, refl, subst, inl, inr, true, false, List, [], ◌∷◌, Option, none, some, arith,
  length, Option-cases,
}
use cbdc_forensics.Config.{Text, Parser, Options, Loaded, ok, err, thrown}
use cbdc_forensics.Config.Load.{
  is_empty, read_options, check_mode, check_seed, check_options, checked, load_options,
}
use cbdc_forensics.Config.Shape.{OnOk, OnOk-bind, Shaped}
use cbdc_forensics.Config.Complete.{counts, two_phase, read_options-IsShaped}

-- What `check_options` asks for.
pub record IsChecked (o : Options) : Type 0 where
  pub seeds : o.seed_from ≤ o.seed_to
  pub value : o.seed_from < o.seed_to → 0 < o.seed_value
  pub threshold : o.attestation_threshold ≤ length o.sentinel_public_keys
  pub two_phase :
      o.twophase_mode ≡ true
      → (0 < length o.sentinel_endpoints)
        × (0 < length o.locking_shard_endpoints)
        × (0 < length o.coordinator_endpoints)
  pub atomizer :
      o.twophase_mode ≡ false
      → (0 < length o.watchtower_client_endpoints)
        × (0 < length o.archiver_endpoints)
        × (0 < length o.atomizer_endpoints)
        × (0 < length o.sentinel_endpoints → 0 < length o.shard_endpoints)

is_empty-length {ℓ} : {A : Type ℓ} (xs : List A) → is_empty xs ≡ false → 0 < length xs
is_empty-length [] e = cc
is_empty-length (x ∷ xs) e = omega arith

length-is_empty {ℓ} : {A : Type ℓ} (xs : List A) → 0 < length xs → is_empty xs ≡ false
length-is_empty [] h = absurd (omega arith)
length-is_empty (x ∷ xs) h = refl

module _ (o : Options) (e : check_options o ≡ none) where
  check_options-seeds :
      (o.seed_from ≤ o.seed_to) × (o.attestation_threshold ≤ length o.sentinel_public_keys)
  unfolding check_options check_mode check_seed
  check_options-seeds = ground arith

  check_options-seed_value : o.seed_from < o.seed_to → 0 < o.seed_value
  unfolding check_options check_mode check_seed
  check_options-seed_value less = ground (arith, less)

  check_options-two_phase :
      o.twophase_mode ≡ true
      → (0 < length o.sentinel_endpoints)
        × (0 < length o.locking_shard_endpoints)
        × (0 < length o.coordinator_endpoints)
  unfolding check_options check_mode check_seed
  check_options-two_phase mode = (
    is_empty-length o.sentinel_endpoints (ground arith),
    is_empty-length o.locking_shard_endpoints (ground arith),
    is_empty-length o.coordinator_endpoints (ground arith),
  )

  check_options-atomizer :
      o.twophase_mode ≡ false
      → (0 < length o.watchtower_client_endpoints)
        × (0 < length o.archiver_endpoints)
        × (0 < length o.atomizer_endpoints)
        × (0 < length o.sentinel_endpoints → 0 < length o.shard_endpoints)
  unfolding check_options check_mode check_seed
  check_options-atomizer mode = (
    is_empty-length o.watchtower_client_endpoints (ground arith),
    is_empty-length o.archiver_endpoints (ground arith),
    is_empty-length o.atomizer_endpoints (ground arith),
    λ some_sentinel.
        let sentinels : is_empty o.sentinel_endpoints ≡ false =
          length-is_empty o.sentinel_endpoints some_sentinel in
        is_empty-length o.shard_endpoints (ground arith),
  )

  check_options-IsChecked : IsChecked o
  check_options-IsChecked = record {
    seeds = check_options-seeds.0;
    value = check_options-seed_value;
    threshold = check_options-seeds.1;
    two_phase = check_options-two_phase;
    atomizer = check_options-atomizer;
  }

checked-IsChecked : (o : Options) → OnOk IsChecked (checked o (check_options o))
unfolding checked OnOk
checked-IsChecked o = elim (Option-cases (check_options o)) [
  | inl passes ↦ rw passes (check_options-IsChecked o passes)
  | inr (message, fails) ↦ rw fails tt
]

checked-OnOk : (P : Options → Type 0) (o : Options) (r : Option Text) → P o → OnOk P (checked o r)
unfolding checked OnOk
checked-OnOk P o none h = h
checked-OnOk P o (some message) h = tt

OnOk-both :
    {A : Type 0} (P Q : A → Type 0) (m : Loaded A) → OnOk P m → OnOk Q m → OnOk (λ a. P a × Q a) m
unfolding OnOk
OnOk-both P Q (ok a) p q = (p, q)
OnOk-both P Q (err e) p q = tt
OnOk-both P Q thrown p q = tt

OnOk-eq : {A : Type 0} (P : A → Type 0) (m : Loaded A) (a : A) → OnOk P m → m ≡ ok a → P a
unfolding OnOk
OnOk-eq P m a h e = subst (OnOk P) e h

-- When `load_options` gives options, every list of them has as many elements as the configuration
-- has components of its kind (`counts`, `IsShaped`), and they pass the checks (`IsChecked`): the
-- seeds are a range, with a value if it is not empty, the public keys are enough for the threshold,
-- and each mode has its components, where in the atomizer mode sentinels want a shard.
pub load_options-IsShaped :
    (hex : Text → ℕ) (cfg : Parser) (o : Options)
    → load_options hex cfg ≡ ok o
    → Shaped (counts cfg (two_phase cfg)) (two_phase cfg) o × IsChecked o
unfolding load_options
load_options-IsShaped hex cfg o e =
    let S = Shaped (counts cfg (two_phase cfg)) (two_phase cfg) in
    let both =
      OnOk-bind (λ x. S x × IsChecked x) S (read_options hex cfg)
        (λ opts. checked opts (check_options opts)) (read_options-IsShaped hex cfg)
        (λ opts shaped.
          OnOk-both S IsChecked _ (checked-OnOk S opts (check_options opts) shaped)
            (checked-IsChecked opts)) in
    OnOk-eq (λ x. S x × IsChecked x) (load_options hex cfg) o both e
