-- ===== src/Util/Serialization/Bytes.antt =====
-- `serializer::write` and `read` of an integer or of an array of bytes: its bytes as the host stores
-- them, least first.
use native.Mathlib.Nat.{pow-suc}
use cbdc_forensics.Common.{
  ℕ, zero, suc, ◌+◌, ◌*◌, ◌/◌, ◌%◌, ◌^◌, ◌<◌, ◌≡◌, refl, ap, Option, none, some, List, [], ◌∷◌,
  ◌++◌, arith, length, ◌>>=◌, >>=-eq-some,
}

unfoldable pub le_bytes : ℕ → ℕ → List ℕ
le_bytes zero n = []
le_bytes (suc k) n = n % 256 ∷ le_bytes k (n / 256)

-- `none` if the stream ends before `k` bytes.
unfoldable pub read_le : ℕ → List ℕ → Option (ℕ × List ℕ)
read_le zero bs = some (0, bs)
read_le (suc k) [] = none
read_le (suc k) (b ∷ bs) = do (n, rest) ← read_le k bs; some (b + 256 * n, rest)

pub length-le_bytes : (k n : ℕ) → length (le_bytes k n) ≡ k
unfolding le_bytes
length-le_bytes zero n = refl
length-le_bytes (suc k) n = ap suc (length-le_bytes k (n / 256))

div-lt-pow : (k n : ℕ) → n < 256 ^ suc k → n / 256 < 256 ^ k
div-lt-pow k n h = omega (arith, pow-suc 256 k)

pub read_le-le_bytes :
    (k n : ℕ) (rest : List ℕ) → n < 256 ^ k → read_le k (le_bytes k n ++ rest) ≡ some (n, rest)
unfolding le_bytes read_le
read_le-le_bytes zero n rest h = ground arith
read_le-le_bytes (suc k) n rest h =
    rw (read_le-le_bytes k (n / 256) rest (div-lt-pow k n h))
      (ap (λ x. some (x, rest)) (omega arith))

-- A read that succeeds takes `k` bytes.
pub read_le-length :
    (k : ℕ) (bs rest : List ℕ) (n : ℕ) → read_le k bs ≡ some (n, rest) → length bs ≡ k + length rest
unfolding read_le
read_le-length zero bs rest n h = ground arith
read_le-length (suc k) [] rest n h = ground arith
read_le-length (suc k) (b ∷ bs) rest n h =
    let ((m, bs'), e, h') = >>=-eq-some (read_le k bs) _ h in
    ground (arith, read_le-length k bs bs' m e, h')

-- An array filled by `memcpy` from bytes.
unfoldable pub from_le : List ℕ → ℕ
from_le [] = 0
from_le (b ∷ bs) = b + 256 * from_le bs

pub from_le-le_bytes : (k n : ℕ) → n < 256 ^ k → from_le (le_bytes k n) ≡ n
unfolding from_le le_bytes
from_le-le_bytes zero n h = ground arith
from_le-le_bytes (suc k) n h = rw (from_le-le_bytes k (n / 256) (div-lt-pow k n h)) (omega arith)
