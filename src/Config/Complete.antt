-- ===== src/Config/Complete.antt =====
-- src/util/common/config.cpp: what holds of the options that `load_options` gives.
use cbdc_forensics.Common.{
  ℕ, suc, ◌+◌, ◌≡◌, refl, sym, subst, Bool, true, false, not, [], arith, length, length-replicate,
  ◌==◌, if◌then◌else◌,
}
use cbdc_forensics.Config.{Text, Parser, Options, Loaded, ok}
use cbdc_forensics.Config.Readers.{
  for_each, empty_rows, count_of, read_shard_nodes, read_shard_endpoints, read_shard_db, read_shard,
  read_atomizer, read_atomizer_options, read_archiver, read_archiver_options, read_watchtower,
  read_watchtower_options, read_coordinator_node, read_coordinator, read_coordinator_options,
}
use cbdc_forensics.Config.Load.{
  defaults, read_sentinel, read_sentinel_options, read_seed, read_seed_range, read_shard_options,
  read_raft_options, read_loadgen_options, read_options,
}
use cbdc_forensics.Config.Shape.{
  OnOk, OnOk-bind, OnOk-any, for_each-OnOk, Counts, Shaped, length-push, read_watchtower-IsShaped,
  read_archiver-IsShaped, read_atomizer-IsShaped, read_sentinel-IsShaped,
  read_coordinator_node-IsShaped, read_shard_nodes-IsShaped, read_shard_db-IsShaped,
  read_shard_range-IsShaped,
}

for_each_from_0 :
    {S : Type 0} (P : ℕ → S → Type 0) (body : ℕ → S → Loaded S)
    → ((j : ℕ) (s : S) → P j s → OnOk (P (suc j)) (body j s))
    → (n : ℕ) (s : S) → P 0 s
    → OnOk (P n) (for_each body n 0 s)
for_each_from_0 P body step n s h =
    subst (λ k. OnOk (P k) (for_each body n 0 s)) {x = 0 + n} {y = n} (omega arith)
      (for_each-OnOk P body step n 0 s h)

length-empty_rows : (n : ℕ) → length (empty_rows n) ≡ n
unfolding empty_rows
length-empty_rows n = length-replicate n []

-- In the two-phase mode no shard has an endpoint of the atomizer mode.
abbrev pub in_mode : Bool → ℕ → ℕ → ℕ
in_mode true a b = a
in_mode false a b = b

in_mode_zero : (mode : Bool) → in_mode mode 0 0 ≡ 0
in_mode_zero true = refl
in_mode_zero false = refl

OnOk-if :
    {A : Type 0} (P : A → Type 0) (b : Bool) (x y : Loaded A)
    → OnOk P x
    → OnOk P y
    → OnOk P (if b then x else y)
OnOk-if P true x y p q = p
OnOk-if P false x y p q = q

read_shard_endpoints-IsShaped :
    (cfg : Parser) (n : Counts) (mode : Bool) (o : Options)
    → Shaped (record n { locking_shards = 0 }) mode o
    → OnOk
        (Shaped (record n { locking_shards = in_mode mode (count_of cfg "shard_count") 0 }) mode)
        (read_shard_endpoints cfg o)
unfolding read_shard_endpoints OnOk
read_shard_endpoints-IsShaped cfg n true o (h, m) =
    let k = count_of cfg "shard_count" in
    let n' : Counts = record n { locking_shards = k } in
    let resized : Options = record o {
      locking_shard_endpoints = empty_rows k;
      locking_shard_raft_endpoints = empty_rows k;
      locking_shard_readonly_endpoints = empty_rows k;
    } in
    subst
      (λ b. OnOk (Shaped n' true) (if b then for_each (read_shard_nodes cfg) k 0 resized else ok o))
      (sym m)
      (for_each_from_0 (λ j. Shaped n' true) (read_shard_nodes cfg)
        (λ j s q. read_shard_nodes-IsShaped cfg n' true j s q) k resized
        (omega (arith, length-empty_rows), m))
read_shard_endpoints-IsShaped cfg n false o (h, m) =
    let k = count_of cfg "shard_count" in
    let resized : Options = record o {
      locking_shard_endpoints = empty_rows k;
      locking_shard_raft_endpoints = empty_rows k;
      locking_shard_readonly_endpoints = empty_rows k;
    } in
    subst
      (λ b.
        OnOk (Shaped (record n { locking_shards = 0 }) false)
          (if b then for_each (read_shard_nodes cfg) k 0 resized else ok o))
      (sym m) (h, m)

read_shard-IsShaped :
    (cfg : Parser) (n : Counts) (mode : Bool) (i : ℕ) (o : Options)
    → Shaped (record n { shards = i; atomizer_shards = in_mode mode 0 i }) mode o
    → OnOk
        (Shaped (record n { shards = suc i; atomizer_shards = in_mode mode 0 (suc i) }) mode)
        (read_shard cfg i o)
unfolding read_shard OnOk
read_shard-IsShaped cfg n true i o h =
    let n' : Counts = record n { shards = i; atomizer_shards = 0 } in
    OnOk-bind _ (Shaped n' true) _ _
      (subst (λ b. OnOk (Shaped n' true) (if b then ok o else read_shard_db cfg i o)) (sym h.1) h)
      λ o' h'. read_shard_range-IsShaped cfg n' true i o' h'
read_shard-IsShaped cfg n false i o h =
    let n' : Counts = record n { shards = i; atomizer_shards = suc i } in
    OnOk-bind _ (Shaped n' false) _ _
      (subst (λ b. OnOk (Shaped n' false) (if b then ok o else read_shard_db cfg i o)) (sym h.1)
        (read_shard_db-IsShaped cfg (record n { shards = i; atomizer_shards = i }) false i o h))
      λ o' h'. read_shard_range-IsShaped cfg n' false i o' h'

module _ (cfg : Parser) (n : Counts) (mode : Bool) where
  read_coordinator-IsShaped :
      (i : ℕ) (o : Options)
      → Shaped (record n { coordinator_logs = i }) mode o
      → OnOk (Shaped (record n { coordinator_logs = suc i }) mode) (read_coordinator cfg i o)
  unfolding read_coordinator
  read_coordinator-IsShaped i o (h, m) =
      let n' : Counts = record n { coordinator_logs = suc i } in
      OnOk-any _ _ _ λ node_count.
        for_each_from_0 (λ j. Shaped n' mode) (read_coordinator_node cfg i)
          (λ j s k. read_coordinator_node-IsShaped cfg n' mode i j s k) node_count _
          (omega (arith, length-push {0}), m)

-- The counts of what the configuration asks for.
unfoldable pub counts : Parser → Bool → Counts
counts cfg mode = record {
  sentinels = count_of cfg "sentinel_count";
  locking_shards = in_mode mode (count_of cfg "shard_count") 0;
  shards = count_of cfg "shard_count";
  atomizer_shards = in_mode mode 0 (count_of cfg "shard_count");
  atomizers = count_of cfg "atomizer_count";
  archivers = count_of cfg "archiver_count";
  watchtowers = count_of cfg "watchtower_count";
  coordinators = count_of cfg "coordinator_count";
  coordinator_logs = count_of cfg "coordinator_count";
}

module _ (hex : Text → ℕ) (cfg : Parser) (mode : Bool) where
  read_sentinel_options-IsShaped :
      (n : Counts) (o : Options)
      → Shaped (record n { sentinels = 0 }) mode o
      → OnOk
          (Shaped (record n { sentinels = count_of cfg "sentinel_count" }) mode)
          (read_sentinel_options hex cfg o)
  unfolding read_sentinel_options
  read_sentinel_options-IsShaped n o (h, m) =
      for_each_from_0 (λ j. Shaped (record n { sentinels = j }) mode) (read_sentinel hex cfg)
        (λ j s k. read_sentinel-IsShaped cfg n mode hex j s k) (count_of cfg "sentinel_count") _
        (omega arith, m)

  read_seed-IsShaped :
      (n : Counts) (o : Options) → Shaped n mode o → OnOk (Shaped n mode) (read_seed hex cfg o)
  unfolding read_seed OnOk
  read_seed-IsShaped n o (h, m) = OnOk-any _ _ _ λ priv_str. OnOk-any _ _ _ λ key. (omega arith, m)

  read_seed_range-IsShaped :
      (n : Counts) (o : Options)
      → Shaped n mode o
      → OnOk (Shaped n mode) (read_seed_range hex cfg o)
  unfolding read_seed_range OnOk
  read_seed_range-IsShaped n o h =
      OnOk-if (Shaped n mode) (o.seed_from == o.seed_to) (ok o) (read_seed hex cfg o) h
        (read_seed-IsShaped n o h)

  read_shard_options-IsShaped :
      (n : Counts) (o : Options)
      → Shaped (record n { shards = 0; atomizer_shards = 0 }) mode o
      → let k = count_of cfg "shard_count" in
        OnOk
          (Shaped (record n { shards = k; atomizer_shards = in_mode mode 0 k }) mode)
          (read_shard_options hex cfg o)
  unfolding read_shard_options
  read_shard_options-IsShaped n o (h, m) =
      let k = count_of cfg "shard_count" in
      OnOk-bind _ (Shaped (record n { shards = k; atomizer_shards = in_mode mode 0 k }) mode) _ _
        (for_each_from_0
          (λ j. Shaped (record n { shards = j; atomizer_shards = in_mode mode 0 j }) mode)
          (read_shard cfg) (λ j s p. read_shard-IsShaped cfg n mode j s p) k o
          (subst (λ z. Shaped (record n { shards = 0; atomizer_shards = z }) mode o)
            (sym (in_mode_zero mode)) (h, m)))
        λ o' q.
          read_seed_range-IsShaped (record n { shards = k; atomizer_shards = in_mode mode 0 k }) _
            (omega (arith, q.0), q.1)

  read_coordinator_options-IsShaped :
      (n : Counts) (o : Options)
      → Shaped (record n { coordinators = 0; coordinator_logs = 0 }) mode o
      → let k = count_of cfg "coordinator_count" in
        OnOk
          (Shaped (record n { coordinators = k; coordinator_logs = k }) mode)
          (read_coordinator_options cfg o)
  unfolding read_coordinator_options OnOk
  read_coordinator_options-IsShaped n o (h, m) =
      let k = count_of cfg "coordinator_count" in
      OnOk-bind _ (Shaped (record n { coordinators = k; coordinator_logs = k }) mode) _ _
        (for_each_from_0 (λ j. Shaped (record n { coordinators = k; coordinator_logs = j }) mode)
          (read_coordinator cfg)
          (λ j s p. read_coordinator-IsShaped cfg (record n { coordinators = k }) mode j s p) k _
          (omega (arith, length-empty_rows), m))
        λ o' q. (omega (arith, q.0), q.1)

  read_atomizer_options-IsShaped :
      (n : Counts) (o : Options)
      → Shaped (record n { atomizers = 0 }) mode o
      → OnOk
          (Shaped (record n { atomizers = count_of cfg "atomizer_count" }) mode)
          (read_atomizer_options cfg o)
  unfolding read_atomizer_options OnOk
  read_atomizer_options-IsShaped n o h =
      let k = count_of cfg "atomizer_count" in
      OnOk-bind _ (Shaped (record n { atomizers = k }) mode) _ _
        (for_each_from_0 (λ j. Shaped (record n { atomizers = j }) mode) (read_atomizer cfg)
          (λ j s q. read_atomizer-IsShaped cfg n mode j s q) k o h)
        λ o' q. (omega (arith, q.0), q.1)

  read_archiver_options-IsShaped :
      (n : Counts) (o : Options)
      → Shaped (record n { archivers = 0 }) mode o
      → OnOk
          (Shaped (record n { archivers = count_of cfg "archiver_count" }) mode)
          (read_archiver_options cfg o)
  unfolding read_archiver_options
  read_archiver_options-IsShaped n o h =
      for_each_from_0 (λ j. Shaped (record n { archivers = j }) mode) (read_archiver cfg)
        (λ j s q. read_archiver-IsShaped cfg n mode j s q) (count_of cfg "archiver_count") o h

  read_watchtower_options-IsShaped :
      (n : Counts) (o : Options)
      → Shaped (record n { watchtowers = 0 }) mode o
      → OnOk
          (Shaped (record n { watchtowers = count_of cfg "watchtower_count" }) mode)
          (read_watchtower_options cfg o)
  unfolding read_watchtower_options OnOk
  read_watchtower_options-IsShaped n o h =
      let k = count_of cfg "watchtower_count" in
      OnOk-bind _ (Shaped (record n { watchtowers = k }) mode) _ _
        (for_each_from_0 (λ j. Shaped (record n { watchtowers = j }) mode) (read_watchtower cfg)
          (λ j s q. read_watchtower-IsShaped cfg n mode j s q) k o h)
        λ o' q. (omega (arith, q.0), q.1)

abbrev nothing_yet : Counts
nothing_yet = record {
  sentinels = 0;
  locking_shards = 0;
  shards = 0;
  atomizer_shards = 0;
  atomizers = 0;
  archivers = 0;
  watchtowers = 0;
  coordinators = 0;
  coordinator_logs = 0;
}

abbrev pub two_phase : Parser → Bool
two_phase cfg = not (count_of cfg "2pc" == 0)

module _ (hex : Text → ℕ) (cfg : Parser) where
  pub read_options-IsShaped :
      OnOk (Shaped (counts cfg (two_phase cfg)) (two_phase cfg)) (read_options hex cfg)
  unfolding read_options OnOk counts read_raft_options read_loadgen_options
  read_options-IsShaped =
      let mode = two_phase cfg in
      let final = counts cfg mode in
      let n1 : Counts = record nothing_yet { sentinels = final.sentinels } in
      let n2 : Counts = record n1 { locking_shards = final.locking_shards } in
      let n3 : Counts = record n2 {
        shards = final.shards;
        atomizer_shards = final.atomizer_shards;
      } in
      let n4 : Counts = record n3 { atomizers = final.atomizers } in
      let n5 : Counts = record n4 { archivers = final.archivers } in
      let n6 : Counts = record n5 { watchtowers = final.watchtowers } in
      let opts : Options = record defaults { twophase_mode = mode } in
      OnOk-bind _ (Shaped n1 mode) _ _
        (read_sentinel_options-IsShaped hex cfg mode nothing_yet opts (omega arith, refl))
        λ a ha.
          OnOk-bind _ (Shaped n2 mode) _ _ (read_shard_endpoints-IsShaped cfg n1 mode a ha) λ b hb.
            OnOk-bind _ (Shaped n3 mode) _ _ (read_shard_options-IsShaped hex cfg mode n2 b hb)
              λ d hd.
                OnOk-bind _ (Shaped n4 mode) _ _
                  (read_atomizer_options-IsShaped hex cfg mode n3 d hd)
                  λ e he.
                    OnOk-bind _ (Shaped n5 mode) _ _
                      (read_archiver_options-IsShaped hex cfg mode n4 e he)
                      λ f hf.
                        OnOk-bind _ (Shaped n6 mode) _ _
                          (read_watchtower_options-IsShaped hex cfg mode n5 f hf)
                          λ g hg.
                            OnOk-bind _ (Shaped final mode) _ _
                              (read_coordinator_options-IsShaped hex cfg mode n6 g hg)
                              λ h hh. (omega (arith, hh.0), hh.1)
