-- ===== src/Transaction/Toy.antt =====
-- A concrete stand-in for the cryptographic functions, for tests: the hash is the sum of the bytes.
use cbdc_forensics.Common.{ℕ, ◌+◌, refl, some, sum_by, ◌==◌, ==_iff}
use cbdc_forensics.Transaction.Crypto.{Crypto}
use cbdc_forensics.Transaction.Ids.Attestation.{IsSigner}

abbrev pub toy : Crypto
toy = record {
  sha256 = sum_by (λ b. b);
  parse_pubkey = λ k. some k;
  schnorrsig_verify = λ sig msg key. sig == key + msg;
  schnorrsig_sign = λ msg key. key + msg;
  pubkey_from_privkey = λ key. key;
}

-- It verifies what it signs.
pub toy-IsSigner : (key msg : ℕ) → IsSigner toy key msg
toy-IsSigner key msg = record {
  pubkey = key;
  parsed = refl;
  verifies = (==_iff (key + msg) (key + msg)).1 refl;
}
