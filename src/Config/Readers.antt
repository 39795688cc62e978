-- ===== src/Config/Readers.antt =====
-- src/util/common/config.cpp: `read_options` and its parts, and `check_options`.
use Prim.Native.String.{String}
use cbdc_forensics.Common.{
  ℕ, zero, suc, ◌%◌, ◌^◌, List, [], ◌∷◌, ◌++◌, Option, none, some, replicate, if◌then◌else◌,
}
use cbdc_forensics.Config.{
  Text, Endpoint, LogLevel, trace, debug, info, warn, error, fatal, Parser, Options, Loaded, ok,
  err, ◌>>=◌, text_eq, get_string, get_ulong, parse_ip_port,
}
use cbdc_forensics.Config.Keys.{codes, key_prefix, to_string, shard_key}

unfoldable pub require : {A : Type 0} → Text → Option A → Loaded A
require key none = err key
require key (some a) = ok a

abbrev pub value_or : {A : Type 0} → A → Option A → A
value_or d none = d
value_or d (some a) = a

unfoldable pub parse_loglevel : Text → Option LogLevel
unfolding text_eq
parse_loglevel t =
    if text_eq t (codes "TRACE")
    then some trace
    else if text_eq t (codes "DEBUG")
    then some debug
    else if text_eq t (codes "INFO")
    then some info
    else if text_eq t (codes "WARN")
    then some warn
    else if text_eq t (codes "ERROR")
    then some error
    else if text_eq t (codes "FATAL")
    then some fatal
    else none

unfoldable pub loglevel_of : Option Text → LogLevel
unfolding parse_loglevel
loglevel_of none = warn
loglevel_of (some t) = value_or warn (parse_loglevel t)

-- `get_loglevel(key).value_or(defaults::log_level)`
unfoldable pub get_loglevel : Parser → Text → LogLevel
unfolding loglevel_of
get_loglevel cfg key = loglevel_of (get_string cfg key)

unfoldable pub endpoint_of : Option Text → Loaded (Option Endpoint)
unfolding parse_ip_port
endpoint_of none = ok none
endpoint_of (some t) = do e ← parse_ip_port t; ok (some e)

unfoldable pub get_endpoint : Parser → Text → Loaded (Option Endpoint)
unfolding endpoint_of
get_endpoint cfg key = endpoint_of (get_string cfg key)

-- An endpoint without which there is an error.
unfoldable pub need_endpoint : Parser → Text → Loaded Endpoint
need_endpoint cfg key = do e ← get_endpoint cfg key; require key e

-- `for(size_t j{0}; j < n; j++)`, from `j` with `n` rounds left.
unfoldable pub for_each : {S : Type 0} → (ℕ → S → Loaded S) → ℕ → ℕ → S → Loaded S
for_each body zero j s = ok s
for_each body (suc n) j s = body j s >>= for_each body n (suc j)

abbrev pub push : {A : Type 0} → List A → A → List A
push xs x = xs ++ (x ∷ [])

-- `xss[i].emplace_back(x)`
unfoldable pub push_at : {A : Type 0} → List (List A) → ℕ → A → List (List A)
push_at [] i x = []
push_at (xs ∷ xss) zero x = push xs x ∷ xss
push_at (xs ∷ xss) (suc i) x = xs ∷ push_at xss i x

unfoldable pub empty_rows : ℕ → List (List Endpoint)
empty_rows n = replicate n []

-- The round of `read_shard_endpoints` for a node of a shard.
unfoldable pub read_shard_node : Parser → ℕ → ℕ → Options → Loaded Options
unfolding push_at
read_shard_node cfg i j opts = do
  let node = λ (postfix : String). shard_key i "" ++ (to_string j ++ (codes "_" ++ codes postfix))
  raft_ep ← need_endpoint cfg (node "raft_endpoint")
  ep ← need_endpoint cfg (node "endpoint")
  ro_ep ← need_endpoint cfg (node "readonly_endpoint")
  ok (record opts {
    locking_shard_raft_endpoints = push_at opts.locking_shard_raft_endpoints i raft_ep;
    locking_shard_endpoints = push_at opts.locking_shard_endpoints i ep;
    locking_shard_readonly_endpoints = push_at opts.locking_shard_readonly_endpoints i ro_ep;
  })

unfoldable pub read_shard_nodes : Parser → ℕ → Options → Loaded Options
unfolding read_shard_node for_each
read_shard_nodes cfg i opts = do
  let node_count_key = shard_key i "count"
  node_count ← require node_count_key (get_ulong cfg node_count_key)
  for_each (read_shard_node cfg i) node_count 0 opts

abbrev pub count_of : Parser → String → ℕ
count_of cfg key = value_or 0 (get_ulong cfg (codes key))

unfoldable pub read_shard_endpoints : Parser → Options → Loaded Options
unfolding read_shard_nodes for_each empty_rows
read_shard_endpoints cfg opts =
    let shard_count = count_of cfg "shard_count" in
    let rows = empty_rows shard_count in
    if opts.twophase_mode
    then for_each (read_shard_nodes cfg) shard_count 0 (record opts {
      locking_shard_endpoints = rows;
      locking_shard_raft_endpoints = rows;
      locking_shard_readonly_endpoints = rows;
    })
    else ok opts

-- The first part of a round of `read_shard_options`.
unfoldable pub read_shard_db : Parser → ℕ → Options → Loaded Options
read_shard_db cfg i opts = do
  shard_ep ← need_endpoint cfg (shard_key i "endpoint")
  shard_db ← require (shard_key i "db") (get_string cfg (shard_key i "db"))
  ok (record opts {
    shard_endpoints = push opts.shard_endpoints shard_ep;
    shard_db_dirs = push opts.shard_db_dirs shard_db;
  })

unfoldable pub read_shard_range : Parser → ℕ → Options → Loaded Options
read_shard_range cfg i opts = do
  range_start ← require (shard_key i "start") (get_ulong cfg (shard_key i "start"))
  range_end ← require (shard_key i "end") (get_ulong cfg (shard_key i "end"))
  ok (record opts {
    shard_loglevels = push opts.shard_loglevels (get_loglevel cfg (shard_key i "loglevel"));
    shard_ranges = push opts.shard_ranges (range_start % 2 ^ 8, range_end % 2 ^ 8);
  })

unfoldable pub read_shard : Parser → ℕ → Options → Loaded Options
unfolding read_shard_db read_shard_range
read_shard cfg i opts = do
  opts' ← if opts.twophase_mode then ok opts else read_shard_db cfg i opts
  read_shard_range cfg i opts'

unfoldable pub read_atomizer : Parser → ℕ → Options → Loaded Options
read_atomizer cfg i opts = do
  let key = λ (postfix : String). key_prefix "atomizer" i ++ codes postfix
  atomizer_ep ← need_endpoint cfg (key "endpoint")
  raft_ep ← get_endpoint cfg (key "raft_endpoint")
  ok (record opts {
    atomizer_endpoints = push opts.atomizer_endpoints atomizer_ep;
    atomizer_loglevels = push opts.atomizer_loglevels (get_loglevel cfg (key "loglevel"));
    atomizer_raft_endpoints = push opts.atomizer_raft_endpoints raft_ep;
  })

unfoldable pub read_atomizer_options : Parser → Options → Loaded Options
unfolding read_atomizer for_each
read_atomizer_options cfg opts = do
  opts' ← for_each (read_atomizer cfg) (count_of cfg "atomizer_count") 0 opts
  ok (record opts' {
    target_block_interval =
        value_or opts'.target_block_interval (get_ulong cfg (codes "target_block_interval"));
    stxo_cache_depth = value_or opts'.stxo_cache_depth (get_ulong cfg (codes "stxo_cache_depth"));
  })

unfoldable pub read_archiver : Parser → ℕ → Options → Loaded Options
read_archiver cfg i opts = do
  let key = λ (postfix : String). key_prefix "archiver" i ++ codes postfix
  archiver_ep ← need_endpoint cfg (key "endpoint")
  archiver_db ← require (key "db") (get_string cfg (key "db"))
  ok (record opts {
    archiver_endpoints = push opts.archiver_endpoints archiver_ep;
    archiver_loglevels = push opts.archiver_loglevels (get_loglevel cfg (key "loglevel"));
    archiver_db_dirs = push opts.archiver_db_dirs archiver_db;
  })

unfoldable pub read_archiver_options : Parser → Options → Loaded Options
unfolding read_archiver for_each
read_archiver_options cfg opts = for_each (read_archiver cfg) (count_of cfg "archiver_count") 0 opts

unfoldable pub read_watchtower : Parser → ℕ → Options → Loaded Options
read_watchtower cfg i opts = do
  let key = λ (postfix : String). key_prefix "watchtower" i ++ codes postfix
  client_ep ← need_endpoint cfg (key "client_endpoint")
  internal_ep ← need_endpoint cfg (key "internal_endpoint")
  ok (record opts {
    watchtower_client_endpoints = push opts.watchtower_client_endpoints client_ep;
    watchtower_internal_endpoints = push opts.watchtower_internal_endpoints internal_ep;
    watchtower_loglevels = push opts.watchtower_loglevels (get_loglevel cfg (key "loglevel"));
  })

unfoldable pub read_watchtower_options : Parser → Options → Loaded Options
unfolding read_watchtower for_each
read_watchtower_options cfg opts = do
  opts' ← for_each (read_watchtower cfg) (count_of cfg "watchtower_count") 0 opts
  ok (record opts' {
    watchtower_block_cache_size =
        value_or opts'.watchtower_block_cache_size
          (get_ulong cfg (codes "watchtower_block_cache_size"));
    watchtower_error_cache_size =
        value_or opts'.watchtower_error_cache_size
          (get_ulong cfg (codes "watchtower_error_cache_size"));
  })

unfoldable pub read_coordinator_node : Parser → ℕ → ℕ → Options → Loaded Options
unfolding push_at
read_coordinator_node cfg i j opts = do
  let node = λ (postfix : String).
      key_prefix "coordinator" i ++ (to_string j ++ (codes "_" ++ codes postfix))
  raft_ep ← need_endpoint cfg (node "raft_endpoint")
  ep ← need_endpoint cfg (node "endpoint")
  ok (record opts {
    coordinator_raft_endpoints = push_at opts.coordinator_raft_endpoints i raft_ep;
    coordinator_endpoints = push_at opts.coordinator_endpoints i ep;
  })

unfoldable pub read_coordinator : Parser → ℕ → Options → Loaded Options
unfolding read_coordinator_node for_each
read_coordinator cfg i opts = do
  let key = λ (postfix : String). key_prefix "coordinator" i ++ codes postfix
  node_count ← require (key "count") (get_ulong cfg (key "count"))
  for_each (read_coordinator_node cfg i) node_count 0 (record opts {
    coordinator_loglevels = push opts.coordinator_loglevels (get_loglevel cfg (key "loglevel"));
  })

unfoldable pub read_coordinator_options : Parser → Options → Loaded Options
unfolding read_coordinator for_each empty_rows
read_coordinator_options cfg opts = do
  let coordinator_count = count_of cfg "coordinator_count"
  opts' ← for_each (read_coordinator cfg) coordinator_count 0 (record opts {
    coordinator_endpoints = empty_rows coordinator_count;
    coordinator_raft_endpoints = empty_rows coordinator_count;
  })
  ok (record opts' {
    coordinator_max_threads =
        value_or opts'.coordinator_max_threads (get_ulong cfg (codes "coordinator_max_threads"));
  })
