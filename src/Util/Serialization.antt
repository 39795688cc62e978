-- ===== src/Util/Serialization.antt =====
-- src/util/serialization/format.hpp: the operators << and >> over a stream of bytes. A codec is the
-- pair of operators of one type; `none` is a stream that has failed. Integers are written as the
-- host stores them, least byte first, and a `std::array` of bytes is the number with these bytes.
pub mod Bytes
pub mod Laws
use cbdc_forensics.Common.{
  ℕ, zero, suc, ◌+◌, ◌*◌, ◌/◌, ◌%◌, ◌^◌, ◌<◌, ◌≡◌, Bool, true, false, Option, none, some, List, [],
  ◌∷◌, ◌++◌, length, ◌==◌, leb, if◌then◌else◌, Map, put, ◌>>=◌,
}
use Bytes.{le_bytes, read_le}

abbrev pub Decoder : Type 0 → Type 0
Decoder A = List ℕ → Option (A × List ℕ)

pub record Codec (A : Type 0) : Type 0 where
  pub encode : A → List ℕ
  pub decode : Decoder A

-- Integers of `k` bytes, and arrays of `k` bytes.
abbrev pub raw : ℕ → Codec ℕ
raw k = record { encode = le_bytes k; decode = read_le k }

abbrev pub u64 : Codec ℕ
u64 = raw 8

abbrev pub hash_codec : Codec ℕ
hash_codec = raw 32

-- `bool` takes one byte.
unfoldable pub encode_bool : Bool → List ℕ
encode_bool b = (if b then 1 else 0) ∷ []

unfoldable pub decode_bool : Decoder Bool
decode_bool [] = none
decode_bool (x ∷ bs) = some (if x == 0 then false else true, bs)

abbrev pub bool_codec : Codec Bool
bool_codec = record { encode = encode_bool; decode = decode_bool }

-- `std::byte`
abbrev pub byte : Codec ℕ
byte = raw 1

module _ {A B : Type 0} where
  unfoldable pub encode_pair : Codec A → Codec B → A × B → List ℕ
  encode_pair c d (a, b) = c.encode a ++ d.encode b

  unfoldable pub decode_pair : Codec A → Codec B → Decoder (A × B)
  decode_pair c d bs = do (a, bs') ← c.decode bs; (b, bs'') ← d.decode bs'; some ((a, b), bs'')

  abbrev pub pair : Codec A → Codec B → Codec (A × B)
  pair c d = record { encode = encode_pair c d; decode = decode_pair c d }

module _ {A : Type 0} where
  unfoldable pub encode_optional : Codec A → Option A → List ℕ
  unfolding encode_bool
  encode_optional c none = encode_bool false
  encode_optional c (some a) = encode_bool true ++ c.encode a

  unfoldable pub decode_optional : Codec A → Decoder (Option A)
  unfolding decode_bool
  decode_optional c bs = do
    (has_value, bs') ← decode_bool bs
    if has_value then (c.decode bs' >>= λ (a, r). some (some a, r)) else some (none, bs')

  abbrev pub optional : Codec A → Codec (Option A)
  optional c = record { encode = encode_optional c; decode = decode_optional c }

  unfoldable pub encode_items : Codec A → List A → List ℕ
  encode_items c [] = []
  encode_items c (a ∷ xs) = c.encode a ++ encode_items c xs

  unfoldable pub encode_vector : Codec A → List A → List ℕ
  unfolding encode_items
  encode_vector c xs = le_bytes 8 (length xs) ++ encode_items c xs

  -- `while(vec.size() < allocated)`, for the elements that are left
  unfoldable pub decode_items : Codec A → ℕ → Decoder (List A)
  decode_items c zero bs = some ([], bs)
  decode_items c (suc n) bs = do
    (a, bs') ← c.decode bs
    (xs, bs'') ← decode_items c n bs'
    some (a ∷ xs, bs'')

  unfoldable pub decode_vector : Codec A → Decoder (List A)
  unfolding decode_items
  decode_vector c bs = do (n, bs') ← read_le 8 bs; decode_items c n bs'

  abbrev pub vector : Codec A → Codec (List A)
  vector c = record { encode = encode_vector c; decode = decode_vector c }

module _ {V : Type 0} where
  unfoldable pub encode_map : Codec V → Map V → List ℕ
  unfolding encode_pair encode_vector
  encode_map c m = encode_vector (pair hash_codec c) m

  -- `while(map.size() < allocated)`: a key that comes twice does not count. Every round takes a key
  -- of 32 bytes from the stream, so the bytes that are left bound the rounds.
  unfoldable pub decode_entries : Codec V → ℕ → ℕ → Map V → Decoder (Map V)
  decode_entries c zero n m bs = none
  decode_entries c (suc fuel) n m bs =
      let rest : Option (Map V × List ℕ) = (do
        (k, bs') ← read_le 32 bs
        (v, bs'') ← c.decode bs'
        decode_entries c fuel n (put k v m) bs'') in
      if leb n (length m) then some (m, bs) else rest

  unfoldable pub decode_map : Codec V → Decoder (Map V)
  unfolding decode_entries
  decode_map c bs = do (n, bs') ← read_le 8 bs; decode_entries c (suc (length bs')) n [] bs'

  abbrev pub map_codec : Codec V → Codec (Map V)
  map_codec c = record { encode = encode_map c; decode = decode_map c }
