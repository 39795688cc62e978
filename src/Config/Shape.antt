-- ===== src/Config/Shape.antt =====
-- src/util/common/config.cpp: the lengths of the lists of the options that are read.
use cbdc_forensics.Common.{
  ℕ, zero, suc, ◌+◌, ◌≡◌, refl, ap, subst, Bool, List, [], ◌∷◌, ◌++◌, arith, length, length-append,
}
use cbdc_forensics.Config.{Text, Parser, Options, Loaded, ok, err, thrown, ◌>>=◌}
use cbdc_forensics.Config.Readers.{
  for_each, push_at, read_shard_node, read_shard_nodes, read_shard_db, read_shard_range,
  read_atomizer, read_archiver, read_watchtower, read_coordinator_node,
}
use cbdc_forensics.Config.Load.{read_sentinel}

-- What holds of the result, if there is one.
unfoldable pub OnOk : {A : Type 0} → (A → Type 0) → Loaded A → Type 0
OnOk P (ok a) = P a
OnOk P (err e) = Unit {0}
OnOk P thrown = Unit {0}

module _ {A B : Type 0} (P : B → Type 0) where
  pub OnOk-bind :
      (Q : A → Type 0) (m : Loaded A) (f : A → Loaded B)
      → OnOk Q m
      → ((a : A) → Q a → OnOk P (f a))
      → OnOk P (m >>= f)
  unfolding OnOk ◌>>=◌
  OnOk-bind Q (ok a) f h k = k a h
  OnOk-bind Q (err e) f h k = tt
  OnOk-bind Q thrown f h k = tt

  pub OnOk-any : (m : Loaded A) (f : A → Loaded B) → ((a : A) → OnOk P (f a)) → OnOk P (m >>= f)
  unfolding OnOk ◌>>=◌
  OnOk-any (ok a) f k = k a
  OnOk-any (err e) f k = tt
  OnOk-any thrown f k = tt

-- An invariant of a loop, which may count its rounds.
pub for_each-OnOk :
    {S : Type 0} (P : ℕ → S → Type 0) (body : ℕ → S → Loaded S)
    → ((j : ℕ) (s : S) → P j s → OnOk (P (suc j)) (body j s))
    → (n j : ℕ) (s : S) → P j s
    → OnOk (P (j + n)) (for_each body n j s)
unfolding for_each OnOk ◌>>=◌
for_each-OnOk P body step zero j s h = subst (λ k. P k s) {x = j} {y = j + 0} (omega arith) h
for_each-OnOk P body step (suc n) j s h =
    let same : suc j + n ≡ j + suc n = omega arith in
    subst (λ k. OnOk (P k) (for_each body (suc n) j s)) same
      (OnOk-bind (P (suc j + n)) (P (suc j)) (body j s) (for_each body n (suc j)) (step j s h)
        (λ s' h'. for_each-OnOk P body step n (suc j) s' h'))

-- How many of each component the options have.
pub record Counts : Type 0 where
  pub sentinels : ℕ
  pub locking_shards : ℕ
  pub shards : ℕ
  pub atomizer_shards : ℕ
  pub atomizers : ℕ
  pub archivers : ℕ
  pub watchtowers : ℕ
  pub coordinators : ℕ
  pub coordinator_logs : ℕ

-- Every list has an element for each component.
pub record IsShaped (n : Counts) (o : Options) : Type 0 where
  pub sentinel_endpoints : length o.sentinel_endpoints ≡ n.sentinels
  pub sentinel_loglevels : length o.sentinel_loglevels ≡ n.sentinels
  pub locking_endpoints : length o.locking_shard_endpoints ≡ n.locking_shards
  pub locking_raft : length o.locking_shard_raft_endpoints ≡ n.locking_shards
  pub locking_readonly : length o.locking_shard_readonly_endpoints ≡ n.locking_shards
  pub shard_ranges : length o.shard_ranges ≡ n.shards
  pub shard_loglevels : length o.shard_loglevels ≡ n.shards
  pub shard_endpoints : length o.shard_endpoints ≡ n.atomizer_shards
  pub shard_db_dirs : length o.shard_db_dirs ≡ n.atomizer_shards
  pub atomizer_endpoints : length o.atomizer_endpoints ≡ n.atomizers
  pub atomizer_loglevels : length o.atomizer_loglevels ≡ n.atomizers
  pub atomizer_raft : length o.atomizer_raft_endpoints ≡ n.atomizers
  pub archiver_endpoints : length o.archiver_endpoints ≡ n.archivers
  pub archiver_loglevels : length o.archiver_loglevels ≡ n.archivers
  pub archiver_db_dirs : length o.archiver_db_dirs ≡ n.archivers
  pub watchtower_clients : length o.watchtower_client_endpoints ≡ n.watchtowers
  pub watchtower_internal : length o.watchtower_internal_endpoints ≡ n.watchtowers
  pub watchtower_loglevels : length o.watchtower_loglevels ≡ n.watchtowers
  pub coordinator_endpoints : length o.coordinator_endpoints ≡ n.coordinators
  pub coordinator_raft : length o.coordinator_raft_endpoints ≡ n.coordinators
  pub coordinator_loglevels : length o.coordinator_loglevels ≡ n.coordinator_logs

-- In the two-phase mode or not.
abbrev pub Shaped : Counts → Bool → Options → Type 0
Shaped n mode o = IsShaped n o × (o.twophase_mode ≡ mode)

pub length-push {ℓ} : {A : Type ℓ} (xs : List A) (x : A) → length (xs ++ (x ∷ [])) ≡ suc (length xs)
length-push xs x = omega (arith, length-append xs (x ∷ []))

length-push_at :
    {A : Type 0} (xss : List (List A)) (i : ℕ) (x : A) → length (push_at xss i x) ≡ length xss
unfolding push_at
length-push_at [] i x = refl
length-push_at (xs ∷ xss) zero x = refl
length-push_at (xs ∷ xss) (suc i) x = ap suc (length-push_at xss i x)

module _ (cfg : Parser) (n : Counts) (mode : Bool) where
  pub read_watchtower-IsShaped :
      (i : ℕ) (o : Options)
      → Shaped (record n { watchtowers = i }) mode o
      → OnOk (Shaped (record n { watchtowers = suc i }) mode) (read_watchtower cfg i o)
  unfolding read_watchtower OnOk
  read_watchtower-IsShaped i o (h, m) =
      OnOk-any _ _ _ λ client_ep. OnOk-any _ _ _ λ internal_ep. (omega (arith, length-push {0}), m)

  pub read_archiver-IsShaped :
      (i : ℕ) (o : Options)
      → Shaped (record n { archivers = i }) mode o
      → OnOk (Shaped (record n { archivers = suc i }) mode) (read_archiver cfg i o)
  unfolding read_archiver OnOk
  read_archiver-IsShaped i o (h, m) =
      OnOk-any _ _ _
        λ archiver_ep. OnOk-any _ _ _ λ archiver_db. (omega (arith, length-push {0}), m)

  pub read_atomizer-IsShaped :
      (i : ℕ) (o : Options)
      → Shaped (record n { atomizers = i }) mode o
      → OnOk (Shaped (record n { atomizers = suc i }) mode) (read_atomizer cfg i o)
  unfolding read_atomizer OnOk
  read_atomizer-IsShaped i o (h, m) =
      OnOk-any _ _ _ λ atomizer_ep. OnOk-any _ _ _ λ raft_ep. (omega (arith, length-push {0}), m)

  pub read_sentinel-IsShaped :
      (hex : Text → ℕ) (i : ℕ) (o : Options)
      → Shaped (record n { sentinels = i }) mode o
      → OnOk (Shaped (record n { sentinels = suc i }) mode) (read_sentinel hex cfg i o)
  unfolding read_sentinel OnOk
  read_sentinel-IsShaped hex i o (h, m) =
      OnOk-any _ _ _ λ sentinel_ep. OnOk-any _ _ _ λ public_key. (omega (arith, length-push {0}), m)

  pub read_coordinator_node-IsShaped :
      (i j : ℕ) (o : Options)
      → Shaped n mode o
      → OnOk (Shaped n mode) (read_coordinator_node cfg i j o)
  unfolding read_coordinator_node OnOk
  read_coordinator_node-IsShaped i j o (h, m) =
      OnOk-any _ _ _ λ raft_ep. OnOk-any _ _ _ λ ep. (omega (arith, length-push_at), m)

  pub read_shard_node-IsShaped :
      (i j : ℕ) (o : Options) → Shaped n mode o → OnOk (Shaped n mode) (read_shard_node cfg i j o)
  unfolding read_shard_node OnOk
  read_shard_node-IsShaped i j o (h, m) =
      OnOk-any _ _ _
        λ raft_ep. OnOk-any _ _ _ λ ep. OnOk-any _ _ _ λ ro_ep. (omega (arith, length-push_at), m)

  pub read_shard_nodes-IsShaped :
      (i : ℕ) (o : Options) → Shaped n mode o → OnOk (Shaped n mode) (read_shard_nodes cfg i o)
  unfolding read_shard_nodes
  read_shard_nodes-IsShaped i o h = OnOk-any _ _ _ λ node_count.
      for_each-OnOk (λ j. Shaped n mode) (read_shard_node cfg i)
        (λ j s k. read_shard_node-IsShaped i j s k) node_count 0 o h

  pub read_shard_db-IsShaped :
      (i : ℕ) (o : Options)
      → Shaped n mode o
      → OnOk
          (Shaped (record n { atomizer_shards = suc n.atomizer_shards }) mode)
          (read_shard_db cfg i o)
  unfolding read_shard_db OnOk
  read_shard_db-IsShaped i o (h, m) =
      OnOk-any _ _ _ λ shard_ep. OnOk-any _ _ _ λ shard_db. (omega (arith, length-push {0}), m)

  pub read_shard_range-IsShaped :
      (i : ℕ) (o : Options)
      → Shaped n mode o
      → OnOk (Shaped (record n { shards = suc n.shards }) mode) (read_shard_range cfg i o)
  unfolding read_shard_range OnOk
  read_shard_range-IsShaped i o (h, m) =
      OnOk-any _ _ _ λ range_start. OnOk-any _ _ _ λ range_end. (omega (arith, length-push {0}), m)
