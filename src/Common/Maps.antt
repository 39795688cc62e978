-- ===== src/Common/Maps.antt =====
-- `std::unordered_map` keyed by hashes as an association list; the order is not observed.
use Prim.Native.Nat.{ℕ}
use mathlib.Core.Path.{◌≡◌, refl}
use mathlib.Core.List.{List, [], ◌∷◌, ◌++◌}
use mathlib.Core.Option.{Option, none, some}
use native.Mathlib.Omega.{arith}
use cbdc_forensics.Common.Tests.{◌==◌, if◌then◌else◌}

abbrev pub Map {ℓ} : Type ℓ → Type ℓ
Map V = List (ℕ × V)

module _ {ℓ} {V : Type ℓ} where
  unfoldable pub find : ℕ → Map V → Option V
  find k [] = none
  find k ((j, v) ∷ m) = if k == j then some v else find k m

  -- `emplace`, `insert`: a key that is there keeps its value.
  unfoldable pub put : ℕ → V → Map V → Map V
  put k v [] = (k, v) ∷ []
  put k v ((j, w) ∷ m) = let rest = put k v m in if k == j then (j, w) ∷ m else (j, w) ∷ rest

  -- `erase(key)`
  unfoldable pub remove : ℕ → Map V → Map V
  remove k [] = []
  remove k ((j, v) ∷ m) = let rest = remove k m in if k == j then rest else (j, v) ∷ rest

  -- assignment through an iterator or a reference to the value
  unfoldable pub assign : ℕ → V → Map V → Map V
  assign k v m = (k, v) ∷ remove k m

  pub find-put :
      (j k : ℕ) (v : V) (m : Map V)
      → find j (put k v m)
        ≡ (if j == k then elim (find k m) [ none ↦ some v | some w ↦ some w ] else find j m)
  unfolding put find
  find-put j k v [] = ground arith
  find-put j k v ((i, w) ∷ m) = ground (arith, find-put j k v m)

  pub find-remove :
      (j k : ℕ) (m : Map V) → find j (remove k m) ≡ (if j == k then none else find j m)
  unfolding find remove
  find-remove j k [] = ground arith
  find-remove j k ((i, w) ∷ m) = ground (arith, find-remove j k m)

  pub find-assign :
      (j k : ℕ) (v : V) (m : Map V) → find j (assign k v m) ≡ (if j == k then some v else find j m)
  unfolding find assign
  find-assign j k v m = ground (arith, find-remove j k m)

module _ {ℓ} {V : Type ℓ} where
  pub put_new : (k : ℕ) (v : V) (m : Map V) → find k m ≡ none → put k v m ≡ m ++ (k, v) ∷ []
  unfolding put find
  put_new k v [] h = refl
  put_new k v ((i, w) ∷ m) h = ground (arith, put_new k v m)

  pub find-put-some :
      (j k : ℕ) (v : V) (m : Map V) (x : V) → find j m ≡ some x → find j (put k v m) ≡ some x
  unfolding put find
  find-put-some j k v [] x h = cc
  find-put-some j k v ((i, w) ∷ m) x h = ground (arith, find-put-some j k v m x)

pub ruleset map_laws = (find-put, find-remove, find-assign)
