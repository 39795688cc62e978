-- ===== src/Util/Serialization/Laws.antt =====
-- What a written value reads back as, whatever follows it in the stream, for each codec of
-- src/util/serialization/format.hpp.
use native.Mathlib.Nat.{zero-add}
use cbdc_forensics.Common.{
  ℕ, zero, suc, ◌+◌, ◌^◌, ◌<◌, ◌≤◌, ◌≡◌, refl, ap, sym, ◌∙◌, true, false, Option, none, some, List,
  [], ◌∷◌, ◌++◌, arith, length, length-append, ◌==◌, leb, All, append_assoc, append-nil, Map, find,
  put, put_new,
}
use cbdc_forensics.Util.Serialization.Bytes.{le_bytes, length-le_bytes, read_le-le_bytes}
use cbdc_forensics.Util.Serialization.{
  Codec, raw, bool_codec, pair, optional, vector, map_codec, hash_codec, encode_bool, decode_bool,
  encode_pair, decode_pair, encode_optional, decode_optional, encode_items, encode_vector,
  decode_items, decode_vector, encode_map, decode_entries, decode_map,
}

-- A value with `P` is read back, and the rest of the stream is left.
abbrev pub IsRoundTrip : {A : Type 0} → Codec A → (A → Type 0) → Type 0
IsRoundTrip {A} c P = (a : A) (rest : List ℕ) → P a → c.decode (c.encode a ++ rest) ≡ some (a, rest)

pub raw-IsRoundTrip : (k : ℕ) → IsRoundTrip (raw k) (λ n. n < 256 ^ k)
raw-IsRoundTrip k n rest h = read_le-le_bytes k n rest h

pub bool-IsRoundTrip : IsRoundTrip bool_codec (λ _. Unit {0})
unfolding encode_bool decode_bool
bool-IsRoundTrip true rest h = refl
bool-IsRoundTrip false rest h = refl

module _ {A B : Type 0} {P : A → Type 0} {Q : B → Type 0} (c : Codec A) (d : Codec B) where
  pub pair-IsRoundTrip :
      IsRoundTrip c P → IsRoundTrip d Q → IsRoundTrip (pair c d) (λ p. P p.0 × Q p.1)
  unfolding encode_pair decode_pair
  pair-IsRoundTrip hc hd (a, b) rest h =
      rw (append_assoc, hc a (d.encode b ++ rest) h.0, hd b rest h.1)

abbrev pub IfSome : {A : Type 0} → (A → Type 0) → Option A → Type 0
IfSome P none = Unit {0}
IfSome P (some a) = P a

module _ {A : Type 0} {P : A → Type 0} (c : Codec A) where
  pub optional-IsRoundTrip : IsRoundTrip c P → IsRoundTrip (optional c) (IfSome P)
  unfolding encode_optional decode_optional encode_bool decode_bool
  optional-IsRoundTrip hc none rest h = refl
  optional-IsRoundTrip hc (some a) rest h = rw (hc a rest h)

  items-IsRoundTrip :
      IsRoundTrip c P
      → (xs : List A) (rest : List ℕ) → All P xs
      → decode_items c (length xs) (encode_items c xs ++ rest) ≡ some (xs, rest)
  unfolding encode_items decode_items
  items-IsRoundTrip hc [] rest h = refl
  items-IsRoundTrip hc (x ∷ xs) rest h =
      rw (append_assoc, hc x (encode_items c xs ++ rest) h.0, items-IsRoundTrip hc xs rest h.1)

  pub vector-IsRoundTrip :
      IsRoundTrip c P → IsRoundTrip (vector c) (λ xs. All P xs × (length xs < 256 ^ 8))
  unfolding encode_vector decode_vector
  vector-IsRoundTrip hc xs rest h =
      rw (append_assoc, read_le-le_bytes 8 (length xs) (encode_items c xs ++ rest) h.1)
        (items-IsRoundTrip hc xs rest h.0)

-- The keys fit in 32 bytes and are distinct.
abbrev pub IsEntries : {V : Type 0} → (V → Type 0) → Map V → Type 0
IsEntries P [] = Unit {0}
IsEntries P ((k, v) ∷ m) = (k < 256 ^ 32) × P v × (find k m ≡ none) × IsEntries P m

module _ {V : Type 0} (P : V → Type 0) where
  find-append_cons :
      (j k : ℕ) (v : V) (m t : Map V) → find j (m ++ (k, v) ∷ t) ≡ none → (k == j) ≡ false
  unfolding find
  find-append_cons j k v [] t h = ground arith
  find-append_cons j k v ((i, w) ∷ m) t h = ground (arith, find-append_cons j k v m t)

  find-IsEntries : (k : ℕ) (v : V) (m t : Map V) → IsEntries P (m ++ (k, v) ∷ t) → find k m ≡ none
  unfolding find
  find-IsEntries k v [] t h = refl
  find-IsEntries k v ((i, w) ∷ m) t h =
      ground (arith, find-IsEntries k v m t h.3, find-append_cons i k v m t h.2)

  last-IsEntries :
      (k : ℕ) (v : V) (m t : Map V) → IsEntries P (m ++ (k, v) ∷ t) → (k < 256 ^ 32) × P v
  last-IsEntries k v [] t h = (h.0, h.1)
  last-IsEntries k v ((i, w) ∷ m) t h = last-IsEntries k v m t h.3

  module _ (c : Codec V) (hc : IsRoundTrip c P) where
    entry-IsRoundTrip :
        (fuel n k : ℕ) (v : V) (m : Map V) (rest : List ℕ)
        → leb n (length m) ≡ false
        → k < 256 ^ 32
        → P v
        → decode_entries c (suc fuel) n m (encode_pair hash_codec c (k, v) ++ rest)
          ≡ decode_entries c fuel n (put k v m) rest
    unfolding decode_entries encode_pair
    entry-IsRoundTrip fuel n k v m rest more hk hv =
        rw (more, append_assoc, read_le-le_bytes 32 k (c.encode v ++ rest) hk, hc v rest hv)

    entries-IsRoundTrip :
        (fuel : ℕ) (m t : Map V) (rest : List ℕ)
        → length t < fuel
        → IsEntries P (m ++ t)
        → decode_entries c fuel (length m + length t) m (encode_items (pair hash_codec c) t ++ rest)
          ≡ some (m ++ t, rest)
    unfolding decode_entries encode_items
    entries-IsRoundTrip zero m t rest h e = absurd (omega arith)
    entries-IsRoundTrip (suc fuel) m [] rest h e = ground (arith, append-nil m)
    entries-IsRoundTrip (suc fuel) m ((k, v) ∷ t) rest h e =
        let (hk, hv) = last-IsEntries k v m t e in
        let e' : IsEntries P ((m ++ (k, v) ∷ []) ++ t) = rw (append_assoc) e in
        let count : length (m ++ (k, v) ∷ []) + length t ≡ length m + suc (length t) =
          omega (arith, length-append m ((k, v) ∷ [])) in
        let ih = entries-IsRoundTrip fuel (m ++ (k, v) ∷ []) t rest (omega arith) e' in
        rw
          (
            append_assoc,
            entry-IsRoundTrip fuel (length m + suc (length t)) k v m
                (encode_items (pair hash_codec c) t ++ rest) (ground arith) hk hv,
            put_new k v m (find-IsEntries k v m t e),
          )
          (rw (count, append_assoc) at ih)

    length-encode_items : (m : Map V) → length m ≤ length (encode_items (pair hash_codec c) m)
    unfolding encode_items encode_pair
    length-encode_items [] = omega arith
    length-encode_items ((k, v) ∷ m) = rw append_assoc (
        omega (
          arith,
          length-encode_items m,
          length-append (le_bytes 32 k) (c.encode v ++ encode_items (pair hash_codec c) m),
          length-append (c.encode v) (encode_items (pair hash_codec c) m),
          length-le_bytes 32 k,
        ))

    -- A map is read back entry by entry.
    pub map-IsRoundTrip : IsRoundTrip (map_codec c) (λ m. IsEntries P m × (length m < 256 ^ 8))
    unfolding encode_map decode_map encode_vector
    map-IsRoundTrip m rest h =
        let bs = encode_items (pair hash_codec c) m ++ rest in
        rw (append_assoc, read_le-le_bytes 8 (length m) bs h.1)
          (rw (zero-add (length m)) at (
            entries-IsRoundTrip (suc (length bs)) [] m rest
              (omega (
                arith,
                length-append (encode_items (pair hash_codec c) m) rest,
                length-encode_items m,
              ))
              h.0))

some_pair-injective :
    {A B : Type 0} (a a' : A) (b b' : B)
    → ◌≡◌ {A = Option (A × B)} (some (a, b)) (some (a', b'))
    → (a ≡ a') × (b ≡ b')
some_pair-injective a a' b b' e = (cc, cc)

-- Two valid values that are written alike are equal, and so is what follows them.
module _ {A : Type 0} {P : A → Type 0} (c : Codec A) (hc : IsRoundTrip c P) where
  pub encode-injective :
      (a b : A) (r s : List ℕ) → P a → P b → c.encode a ++ r ≡ c.encode b ++ s → (a ≡ b) × (r ≡ s)
  encode-injective a b r s ha hb e =
      some_pair-injective a b r s (sym (hc a r ha) ∙ ap c.decode e ∙ hc b s hb)

  pub encode-injective_last : (a b : A) → P a → P b → c.encode a ≡ c.encode b → a ≡ b
  encode-injective_last a b ha hb e =
      (encode-injective a b [] [] ha hb (rw (append-nil, append-nil) e)).0
