-- ===== src/Config.antt =====
-- src/util/common/config.hpp and config.cpp: the options of the daemons, as `load_options` reads them
-- from a parser. Texts are lists of bytes. A double is kept as the text that gives it. The file and
-- `parse_value`, which makes the values, are left out.
pub mod Keys
pub mod Readers
pub mod Load
pub mod Shape
pub mod Complete
pub mod Checked
mod Examples
use cbdc_forensics.Common.{
  ℕ, ◌+◌, ◌*◌, ◌-◌, ◌^◌, Bool, true, false, ◌&&◌, List, [], ◌∷◌, Option, none, some, leb, ltb, ◌==◌,
  if◌then◌else◌, Map,
}

abbrev pub Text : Type 0
Text = List ℕ

-- The host and the port.
abbrev pub Endpoint : Type 0
Endpoint = Text × ℕ

pub data LogLevel : Type 0 where
  trace debug info warn error fatal : LogLevel

-- `parser::value_t`
pub data Value : Type 0 where
  string : Text → Value
  ulong : ℕ → Value
  decimal : Text → Value

-- The environment, with the values that `parse_value` makes, and the options of the file.
pub record Parser : Type 0 where
  pub getenv : Text → Option Value
  pub options : List (Text × Value)

pub record Options : Type 0 where
  pub stxo_cache_depth : ℕ
  pub window_size : ℕ
  pub input_count : ℕ
  pub output_count : ℕ
  pub invalid_rate : Text
  pub fixed_tx_rate : Text
  pub shard_completed_txs_cache_size : ℕ
  pub atomizer_endpoints : List Endpoint
  pub archiver_endpoints : List Endpoint
  pub sentinel_endpoints : List Endpoint
  pub watchtower_client_endpoints : List Endpoint
  pub watchtower_internal_endpoints : List Endpoint
  pub shard_endpoints : List Endpoint
  pub atomizer_raft_endpoints : List (Option Endpoint)
  pub batch_size : ℕ
  pub target_block_interval : ℕ
  pub atomizer_loglevels : List LogLevel
  pub election_timeout_upper : ℕ
  pub election_timeout_lower : ℕ
  pub heartbeat : ℕ
  pub snapshot_distance : ℕ
  pub raft_max_batch : ℕ
  pub shard_loglevels : List LogLevel
  pub shard_db_dirs : List Text
  pub shard_ranges : List (ℕ × ℕ)
  pub seed_privkey : Option ℕ
  pub seed_value : ℕ
  pub seed_from : ℕ
  pub seed_to : ℕ
  pub sentinel_loglevels : List LogLevel
  pub archiver_loglevels : List LogLevel
  pub watchtower_loglevels : List LogLevel
  pub archiver_db_dirs : List Text
  pub fixed_tx_mode : Bool
  pub twophase_mode : Bool
  pub locking_shard_endpoints : List (List Endpoint)
  pub locking_shard_raft_endpoints : List (List Endpoint)
  pub locking_shard_readonly_endpoints : List (List Endpoint)
  pub coordinator_endpoints : List (List Endpoint)
  pub coordinator_raft_endpoints : List (List Endpoint)
  pub coordinator_max_threads : ℕ
  pub coordinator_loglevels : List LogLevel
  pub initial_mint_count : ℕ
  pub initial_mint_value : ℕ
  pub watchtower_block_cache_size : ℕ
  pub watchtower_error_cache_size : ℕ
  pub loadgen_count : ℕ
  pub wait_for_followers : Bool
  pub sentinel_private_keys : Map ℕ
  pub sentinel_public_keys : List ℕ
  pub attestation_threshold : ℕ

-- Options, or an error message, of which the model keeps the key or the name of what is wrong; or an
-- exception or a failed assertion.
pub data Loaded (A : Type 0) : Type 0 where
  ok : A → Loaded A
  err : Text → Loaded A
  thrown : Loaded A

infixl 5 ◌>>=◌
unfoldable pub ◌>>=◌ : {A B : Type 0} → Loaded A → (A → Loaded B) → Loaded B
ok a >>= f = f a
err e >>= f = err e
thrown >>= f = thrown

unfoldable pub text_eq : Text → Text → Bool
text_eq [] [] = true
text_eq [] (c ∷ t) = false
text_eq (c ∷ s) [] = false
text_eq (c ∷ s) (d ∷ t) = c == d && text_eq s t

unfoldable pub lookup : Text → List (Text × Value) → Option Value
unfolding text_eq
lookup key [] = none
lookup key ((k, v) ∷ m) = if text_eq key k then some v else lookup key m

-- `std::toupper`
unfoldable pub to_upper : Text → Text
to_upper [] = []
to_upper (c ∷ t) = (if leb b'a' c && leb c b'z' then c - 32 else c) ∷ to_upper t

-- The environment comes first.
unfoldable pub find_or_env : Parser → Text → Option Value
unfolding lookup to_upper
find_or_env cfg key = elim (cfg.getenv (to_upper key)) [
  | none ↦ lookup key cfg.options
  | some v ↦ some v
]

abbrev pub as_string : Option Value → Option Text
as_string (some (string t)) = some t
as_string (some (ulong n)) = none
as_string (some (decimal t)) = none
as_string none = none

abbrev pub as_ulong : Option Value → Option ℕ
as_ulong (some (ulong n)) = some n
as_ulong (some (string t)) = none
as_ulong (some (decimal t)) = none
as_ulong none = none

abbrev pub as_decimal : Option Value → Option Text
as_decimal (some (decimal t)) = some t
as_decimal (some (string s)) = none
as_decimal (some (ulong n)) = none
as_decimal none = none

unfoldable pub get_string : Parser → Text → Option Text
unfolding find_or_env
get_string cfg key = as_string (find_or_env cfg key)

unfoldable pub get_ulong : Parser → Text → Option ℕ
unfolding find_or_env
get_ulong cfg key = as_ulong (find_or_env cfg key)

unfoldable pub get_decimal : Parser → Text → Option Text
unfolding find_or_env
get_decimal cfg key = as_decimal (find_or_env cfg key)

-- The text up to the first `:`, and what follows it.
unfoldable pub split_colon : Text → Text × Option Text
split_colon [] = ([], none)
split_colon (c ∷ t) =
    let (host, rest) = split_colon t in if c == b':' then ([], some t) else (c ∷ host, rest)

-- The digits at the front of a text, as `std::stoul` reads them, without white space or a sign before
-- them; it wants one at least.
unfoldable pub digits : Text → Option ℕ → Option ℕ
digits [] n = n
digits (c ∷ t) n =
    let more = digits t (some (10 * elim n [ none ↦ 0 | some m ↦ m ] + (c - 48))) in
    if leb b'0' c && leb c b'9' then more else n

unfoldable pub checked_port : Text → Option ℕ → Loaded Endpoint
checked_port host none = thrown
checked_port host (some port) = if ltb port (2 ^ 16) then ok (host, port) else thrown

unfoldable pub ip_port : Text × Option Text → Loaded Endpoint
unfolding digits split_colon checked_port
ip_port (host, none) = thrown
ip_port (host, some rest) = checked_port host (digits (split_colon rest).0 none)

unfoldable pub parse_ip_port : Text → Loaded Endpoint
unfolding ip_port
parse_ip_port t = ip_port (split_colon t)
