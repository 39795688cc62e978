-- ===== src/Transaction/Crypto.antt =====
-- What the code calls in 3rdparty/crypto and in libsecp256k1, as a parameter.
use cbdc_forensics.Common.{ℕ, List, Option, Bool}

pub record Crypto : Type 0 where
  -- `CSHA256` over all the bytes written
  pub sha256 : List ℕ → ℕ
  -- `secp256k1_xonly_pubkey_parse`: the parsed key, if the bytes are one
  pub parse_pubkey : ℕ → Option ℕ
  -- `secp256k1_schnorrsig_verify(sig, msg, pubkey) == 1`
  pub schnorrsig_verify : ℕ → ℕ → ℕ → Bool
  -- `secp256k1_schnorrsig_sign(msg, key)`
  pub schnorrsig_sign : ℕ → ℕ → ℕ
  -- `pubkey_from_privkey`: serialized key of a private key
  pub pubkey_from_privkey : ℕ → ℕ
