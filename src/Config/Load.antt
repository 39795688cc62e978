-- ===== src/Config/Load.antt =====
-- src/util/common/config.cpp: `read_options`, `check_options` and `load_options`. `hash_from_hex` is an
-- argument.
use Prim.Native.String.{String}
use cbdc_forensics.Common.{
  ℕ, ◌+◌, ◌-◌, ◌*◌, ◌/◌, ◌%◌, ◌^◌, Bool, true, false, not, ◌&&◌, List, [], ◌∷◌, ◌++◌, Option, none,
  some, length, ltb, ◌==◌, if◌then◌else◌, Map, put, emplace,
}
use cbdc_forensics.Config.{
  Text, Parser, Options, Loaded, ok, err, ◌>>=◌, get_string, get_ulong, get_decimal,
}
use cbdc_forensics.Config.Keys.{codes, key_prefix}
use cbdc_forensics.Config.Readers.{
  require, value_or, get_loglevel, need_endpoint, for_each, push, count_of, read_shard,
  read_shard_endpoints, read_atomizer_options, read_archiver_options, read_watchtower_options,
  read_coordinator_options,
}

abbrev pub is_empty {ℓ} : {A : Type ℓ} → List A → Bool
is_empty [] = true
is_empty (x ∷ xs) = false

-- `static_cast<int32_t>`, of which the bits are kept.
abbrev int32 : ℕ → ℕ
int32 n = n % 2 ^ 32

unfoldable pub read_raft_options : Parser → Options → Options
read_raft_options cfg opts = record opts {
  election_timeout_upper =
      int32 (value_or opts.election_timeout_upper (get_ulong cfg (codes "election_timeout_upper")));
  election_timeout_lower =
      int32 (value_or opts.election_timeout_lower (get_ulong cfg (codes "election_timeout_lower")));
  heartbeat = int32 (value_or opts.heartbeat (get_ulong cfg (codes "heartbeat")));
  snapshot_distance =
      int32 (value_or opts.snapshot_distance (get_ulong cfg (codes "snapshot_distance")));
  raft_max_batch = int32 (value_or opts.raft_max_batch (get_ulong cfg (codes "raft_max_batch")));
  batch_size = value_or opts.batch_size (get_ulong cfg (codes "batch_size"));
  wait_for_followers = elim (get_ulong cfg (codes "wait_for_followers")) [
    | none ↦ opts.wait_for_followers
    | some n ↦ not (n == 0)
  ];
}

unfoldable pub read_loadgen_options : Parser → Options → Options
read_loadgen_options cfg opts =
    let input_count =
      value_or opts.input_count (get_ulong cfg (codes "loadgen_sendtx_input_count")) in
    let output_count =
      value_or opts.output_count (get_ulong cfg (codes "loadgen_sendtx_output_count")) in
    record opts {
      input_count = input_count;
      output_count = output_count;
      invalid_rate = value_or opts.invalid_rate (get_decimal cfg (codes "loadgen_invalid_tx_rate"));
      fixed_tx_rate = value_or opts.fixed_tx_rate (get_decimal cfg (codes "loadgen_fixed_tx_rate"));
      fixed_tx_mode = not (input_count == 0) && not (output_count == 0);
      window_size = value_or opts.window_size (get_ulong cfg (codes "window_size"));
      initial_mint_count =
          value_or opts.initial_mint_count (get_ulong cfg (codes "initial_mint_count"));
      initial_mint_value =
          value_or opts.initial_mint_value (get_ulong cfg (codes "initial_mint_value"));
      loadgen_count = value_or opts.loadgen_count (get_ulong cfg (codes "loadgen_count"));
    }

-- `options{}`
abbrev pub defaults : Options
defaults = record {
  stxo_cache_depth = 1;
  window_size = 10000;
  input_count = 2;
  output_count = 2;
  invalid_rate = codes "0.0";
  fixed_tx_rate = codes "1.0";
  shard_completed_txs_cache_size = 10000000;
  atomizer_endpoints = [];
  archiver_endpoints = [];
  sentinel_endpoints = [];
  watchtower_client_endpoints = [];
  watchtower_internal_endpoints = [];
  shard_endpoints = [];
  atomizer_raft_endpoints = [];
  batch_size = 2000;
  target_block_interval = 250;
  atomizer_loglevels = [];
  election_timeout_upper = 4000;
  election_timeout_lower = 2000;
  heartbeat = 1000;
  snapshot_distance = 0;
  raft_max_batch = 100000;
  shard_loglevels = [];
  shard_db_dirs = [];
  shard_ranges = [];
  seed_privkey = none;
  seed_value = 0;
  seed_from = 0;
  seed_to = 0;
  sentinel_loglevels = [];
  archiver_loglevels = [];
  watchtower_loglevels = [];
  archiver_db_dirs = [];
  fixed_tx_mode = false;
  twophase_mode = false;
  locking_shard_endpoints = [];
  locking_shard_raft_endpoints = [];
  locking_shard_readonly_endpoints = [];
  coordinator_endpoints = [];
  coordinator_raft_endpoints = [];
  coordinator_max_threads = 75;
  coordinator_loglevels = [];
  initial_mint_count = 20000;
  initial_mint_value = 100;
  watchtower_block_cache_size = 100;
  watchtower_error_cache_size = 1000000;
  loadgen_count = 0;
  wait_for_followers = true;
  sentinel_private_keys = [];
  sentinel_public_keys = [];
  attestation_threshold = 1;
}

-- A test that ends with an error message, of which the first words are kept.
abbrev pub fail_if : Bool → String → Option Text → Option Text
fail_if true message rest = some (codes message)
fail_if false message rest = rest

unfoldable pub check_mode : Options → Option Text → Option Text
check_mode opts rest =
    if opts.twophase_mode
    then fail_if (is_empty opts.sentinel_endpoints) "sentinel" (
        fail_if (is_empty opts.locking_shard_endpoints) "shard"
          (fail_if (is_empty opts.coordinator_endpoints) "coordinator" rest))
    else fail_if (is_empty opts.watchtower_client_endpoints) "watchtower" (
        fail_if (is_empty opts.archiver_endpoints) "archiver" (
          fail_if (is_empty opts.shard_endpoints && not (is_empty opts.sentinel_endpoints)) "shard"
            (fail_if (is_empty opts.atomizer_endpoints) "atomizer" rest)))

unfoldable pub check_seed : Options → Option Text → Option Text
check_seed opts rest =
    if opts.seed_from == opts.seed_to
    then rest
    else fail_if (ltb opts.seed_to opts.seed_from) "seed_from"
        (fail_if (opts.seed_value == 0) "seed_value" rest)

unfoldable pub check_options : Options → Option Text
unfolding check_mode check_seed
check_options opts = check_mode opts (
    check_seed opts (
      fail_if (ltb (length opts.sentinel_public_keys) opts.attestation_threshold) "threshold" none))

unfoldable pub checked : Options → Option Text → Loaded Options
checked opts none = ok opts
checked opts (some message) = err message

module _ (hash_from_hex : Text → ℕ) where
  -- The range of seeds, for which a private key is wanted.
  unfoldable pub read_seed : Parser → Options → Loaded Options
  read_seed cfg opts = do
    priv_str ← require (codes "seed_privkey") (get_string cfg (codes "seed_privkey"))
    key ← require (codes "seed_privkey") (if length priv_str == 64 then some priv_str else none)
    ok (record opts {
      seed_privkey = some (hash_from_hex key);
      seed_value = value_or opts.seed_value (get_ulong cfg (codes "seed_value"));
    })

  unfoldable pub read_seed_range : Parser → Options → Loaded Options
  unfolding read_seed
  read_seed_range cfg opts = if opts.seed_from == opts.seed_to then ok opts else read_seed cfg opts

  unfoldable pub read_shard_options : Parser → Options → Loaded Options
  unfolding read_shard for_each read_seed_range
  read_shard_options cfg opts = do
    opts' ← for_each (read_shard cfg) (count_of cfg "shard_count") 0 opts
    read_seed_range cfg (record opts' {
      shard_completed_txs_cache_size =
          value_or opts'.shard_completed_txs_cache_size
            (get_ulong cfg (codes "shard_completed_txs_cache_size"));
      seed_from = value_or opts'.seed_from (get_ulong cfg (codes "seed_from"));
      seed_to = value_or opts'.seed_to (get_ulong cfg (codes "seed_to"));
    })

  -- A private key that is set, under the number of the sentinel.
  unfoldable pub private_key : ℕ → Option Text → Map ℕ → Map ℕ
  private_key i none keys = keys
  private_key i (some t) keys = put i (hash_from_hex t) keys

  unfoldable pub read_sentinel : Parser → ℕ → Options → Loaded Options
  unfolding private_key
  read_sentinel cfg i opts = do
    let key = λ (postfix : String). key_prefix "sentinel" i ++ codes postfix
    sentinel_ep ← need_endpoint cfg (key "endpoint")
    public_key ← require (key "public_key") (get_string cfg (key "public_key"))
    ok (record opts {
      sentinel_endpoints = push opts.sentinel_endpoints sentinel_ep;
      sentinel_loglevels = push opts.sentinel_loglevels (get_loglevel cfg (key "loglevel"));
      sentinel_private_keys =
          private_key i (get_string cfg (key "private_key")) opts.sentinel_private_keys;
      sentinel_public_keys = emplace (hash_from_hex public_key) opts.sentinel_public_keys;
    })

  unfoldable pub read_sentinel_options : Parser → Options → Loaded Options
  unfolding read_sentinel for_each
  read_sentinel_options cfg opts =
      for_each (read_sentinel cfg) (count_of cfg "sentinel_count") 0 (record opts {
        attestation_threshold =
            value_or opts.attestation_threshold (get_ulong cfg (codes "attestation_threshold"));
      })

  unfoldable pub read_options : Parser → Loaded Options
  unfolding read_sentinel_options read_shard_endpoints read_shard_options read_atomizer_options
      read_archiver_options read_watchtower_options read_coordinator_options read_raft_options
      read_loadgen_options
  read_options cfg = do
    let opts = record defaults { twophase_mode = not (count_of cfg "2pc" == 0) }
    a ← read_sentinel_options cfg opts
    b ← read_shard_endpoints cfg a
    d ← read_shard_options cfg b
    e ← read_atomizer_options cfg d
    f ← read_archiver_options cfg e
    g ← read_watchtower_options cfg f
    h ← read_coordinator_options cfg g
    ok (read_loadgen_options cfg (read_raft_options cfg h))

  unfoldable pub load_options : Parser → Loaded Options
  unfolding read_options check_options checked
  load_options cfg = do opts ← read_options cfg; checked opts (check_options opts)

-- A part of the seeds for each load generator, in 64-bit arithmetic; division by zero is undefined.
unfoldable pub loadgen_seed_range : Options → ℕ → ℕ × ℕ
loadgen_seed_range opts gen_id =
    let total = (opts.seed_to + (2 ^ 64 - opts.seed_from)) % 2 ^ 64 in
    let size = total / opts.loadgen_count in
    let start = (opts.seed_from + gen_id * size) % 2 ^ 64 in
    (start, (start + size + (2 ^ 64 - 1)) % 2 ^ 64)
