-- ===== src/Config/Examples.antt =====
-- Tests of the options, and the theorem at a concrete input.
use cbdc_forensics.Common.{◌≡◌, refl, [], ◌∷◌, none, length, emplace}
use cbdc_forensics.Config.{
  Parser, string, ulong, Options, Loaded, ok, err, thrown, ◌>>=◌, get_string, get_ulong,
  get_decimal, parse_ip_port,
}
use cbdc_forensics.Config.Keys.{codes, key_prefix}
use cbdc_forensics.Config.Readers.{need_endpoint, get_endpoint, get_loglevel, require}
use cbdc_forensics.Config.Load.{defaults, load_options}
use cbdc_forensics.Config.Shape.{Shaped}
use cbdc_forensics.Config.Complete.{counts, two_phase}
use cbdc_forensics.Config.Checked.{IsChecked, load_options-IsShaped}

abbrev setting : Parser
setting = record {
  getenv = λ key. none;
  options =
      (codes "2pc", ulong 1)
      ∷ (codes "sentinel_count", ulong 1)
      ∷ (codes "sentinel0_endpoint", string (codes "localhost:5000"))
      ∷ (codes "sentinel0_public_key", string (codes "ab"))
      ∷ (codes "shard_count", ulong 1)
      ∷ (codes "shard0_count", ulong 1)
      ∷ (codes "shard0_0_raft_endpoint", string (codes "localhost:5001"))
      ∷ (codes "shard0_0_endpoint", string (codes "localhost:5002"))
      ∷ (codes "shard0_0_readonly_endpoint", string (codes "localhost:5003"))
      ∷ (codes "shard0_start", ulong 0)
      ∷ (codes "shard0_end", ulong 255)
      ∷ (codes "coordinator_count", ulong 1)
      ∷ (codes "coordinator0_count", ulong 1)
      ∷ (codes "coordinator0_0_raft_endpoint", string (codes "localhost:5004"))
      ∷ (codes "coordinator0_0_endpoint", string (codes "localhost:5005"))
      ∷ [];
}

abbrev no_options : Options
no_options = defaults

abbrev result : Loaded Options → Options
result (ok o) = o
result (err e) = no_options
result thrown = no_options

abbrev loaded : Options
loaded = result (load_options length setting)

setting_loads : load_options length setting ≡ ok loaded
unfolding load_options get_string get_ulong get_decimal parse_ip_port key_prefix need_endpoint
    get_endpoint get_loglevel require ◌>>=◌ emplace
setting_loads = refl

one_range : loaded.shard_ranges ≡ (0, 255) ∷ []
unfolding load_options get_string get_ulong get_decimal parse_ip_port key_prefix need_endpoint
    get_endpoint get_loglevel require ◌>>=◌ emplace
one_range = refl

load_options-IsShaped_example :
    Shaped (counts setting (two_phase setting)) (two_phase setting) loaded × IsChecked loaded
load_options-IsShaped_example = load_options-IsShaped length setting loaded setting_loads
