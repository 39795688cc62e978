-- ===== src/Config/Keys.antt =====
-- src/util/common/config.hpp and config.cpp: the names of the options.
use Prim.Native.Char.{code}
use Prim.Native.String.{String}
use cbdc_forensics.Common.{ℕ, zero, suc, ◌+◌, ◌/◌, ◌%◌, [], ◌∷◌, ◌++◌, ltb, if◌then◌else◌}
use cbdc_forensics.Config.{Text}

-- The bytes of an ASCII text.
abbrev pub codes : String → Text
codes String.[] = []
codes (String.◌∷◌ c s) = code c ∷ codes s

-- The decimal digits of a number before a text, with one more round than digits.
unfoldable pub digits_before : ℕ → ℕ → Text → Text
digits_before zero n t = t
digits_before (suc rounds) n t =
    let more = digits_before rounds (n / 10) ((48 + n % 10) ∷ t) in
    if ltb n 10 then (48 + n) ∷ t else more

-- A 64-bit number has 20 digits at most.
unfoldable pub to_string : ℕ → Text
unfolding digits_before
to_string n = digits_before 21 n []

-- prefix, number and separator
unfoldable pub key_prefix : String → ℕ → Text
unfolding to_string
key_prefix prefix id = codes prefix ++ (to_string id ++ codes "_")

abbrev pub shard_key : ℕ → String → Text
shard_key id postfix = key_prefix "shard" id ++ codes postfix
