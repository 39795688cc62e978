-- ===== src/TwoPhase/LockingShard/Loops.antt =====
-- src/uhs/twophase/locking_shard/locking_shard.cpp: which outputs are unspent and which are locked
-- after each of the loops over the inputs or outputs of a transaction.
use cbdc_forensics.Common.{
  ℕ, ◌≡◌, ◌↔◌, refl, Bool, true, false, not, ◌&&◌, inl, inr, List, [], ◌∷◌, arith, if◌then◌else◌,
  member, emplace, member-emplace, member-erase, Bool-cases,
}
use cbdc_forensics.TwoPhase.LockingShard.{
  hash_in_shard_range, has_inputs, Outputs, lock_input, lock_inputs, add_outputs, release_input,
  release_inputs,
}

module _ (range : ℕ × ℕ) where
  -- The shard is responsible for the output, and it is one of these.
  unfoldable pub touches : List ℕ → ℕ → Bool
  touches ids x = hash_in_shard_range range x && member x ids

  pub touches_nil : (x : ℕ) → touches [] x ≡ false
  unfolding touches member
  touches_nil x = ground arith

  pub has_inputs_touches :
      (uhs ids : List ℕ) (x : ℕ)
      → has_inputs range uhs ids ≡ true
      → touches ids x ≡ true
      → member x uhs ≡ true
  unfolding has_inputs touches member
  has_inputs_touches uhs [] x h t = ground (arith, touches_nil x)
  has_inputs_touches uhs (id ∷ ids) x h t = ground (arith, has_inputs_touches uhs ids x)

  -- Where the first loop fails, an input of this shard is not unspent.
  pub has_inputs_missing :
      (uhs ids : List ℕ)
      → has_inputs range uhs ids ≡ false
      → (x : ℕ) × (touches ids x ≡ true) × (member x uhs ≡ false)
  unfolding has_inputs touches member
  has_inputs_missing uhs [] h = cc
  has_inputs_missing uhs (id ∷ ids) h =
      elim (Bool-cases (hash_in_shard_range range id && not (member id uhs))) [
        | inl missing ↦ (id, ground arith, ground arith)
        | inr there ↦ further (has_inputs_missing uhs ids (ground arith))
      ]
    where
      further :
          (x : ℕ) × (touches ids x ≡ true) × (member x uhs ≡ false)
          → (x : ℕ) × (touches (id ∷ ids) x ≡ true) × (member x uhs ≡ false)
      further (x, t, m) = (x, ground arith, m)

  pub lock_inputs-uhs :
      (ids : List ℕ) (o : Outputs) (x : ℕ)
      → member x (lock_inputs range ids o).uhs ≡ (if touches ids x then false else member x o.uhs)
  unfolding lock_inputs touches member
  lock_inputs-uhs [] o x = ground (arith, touches_nil x)
  lock_inputs-uhs (id ∷ ids) o x =
      ground (arith, lock_inputs-uhs ids (lock_input range id o) x, member-erase x id o.uhs)

  pub lock_inputs-locked :
      (ids : List ℕ) (o : Outputs) (x : ℕ)
      → member x (lock_inputs range ids o).locked
        ≡ (if touches ids x then true else member x o.locked)
  unfolding lock_inputs touches member
  lock_inputs-locked [] o x = ground (arith, touches_nil x)
  lock_inputs-locked (id ∷ ids) o x =
      ground (arith, lock_inputs-locked ids (lock_input range id o) x, member-emplace x id o.locked)

  pub add_outputs-uhs :
      (complete : Bool) (ids : List ℕ) (o : Outputs) (x : ℕ)
      → member x (add_outputs range complete ids o).uhs
        ≡ (if touches ids x && complete then true else member x o.uhs)
  unfolding add_outputs touches member
  add_outputs-uhs complete [] o x = ground (arith, touches_nil x)
  add_outputs-uhs complete (id ∷ ids) o x =
      let o' =
        if hash_in_shard_range range id && complete
        then record o { uhs = emplace id o.uhs }
        else o in
      ground (arith, add_outputs-uhs complete ids o' x, member-emplace x id o.uhs)

  pub add_outputs-locked :
      (complete : Bool) (ids : List ℕ) (o : Outputs)
      → (add_outputs range complete ids o).locked ≡ o.locked
  unfolding add_outputs touches member
  add_outputs-locked complete [] o = refl
  add_outputs-locked complete (id ∷ ids) o =
      let o' =
        if hash_in_shard_range range id && complete
        then record o { uhs = emplace id o.uhs }
        else o in
      ground (arith, add_outputs-locked complete ids o')

  pub release_inputs-uhs :
      (complete : Bool) (ids : List ℕ) (o : Outputs) (x : ℕ)
      → member x (release_inputs range complete ids o).uhs
        ≡ (if not complete && (touches ids x && member x o.locked) then true else member x o.uhs)
  unfolding release_inputs touches member
  release_inputs-uhs complete [] o x = ground (arith, touches_nil x)
  release_inputs-uhs complete (id ∷ ids) o x = ground (
    arith,
    release_inputs-uhs complete ids (release_input range complete id o) x,
    member-emplace x id o.uhs,
    member-erase x id o.locked,
  )

  pub release_inputs-locked :
      (complete : Bool) (ids : List ℕ) (o : Outputs) (x : ℕ)
      → member x (release_inputs range complete ids o).locked
        ≡ (if touches ids x then false else member x o.locked)
  unfolding release_inputs touches member
  release_inputs-locked complete [] o x = ground (arith, touches_nil x)
  release_inputs-locked complete (id ∷ ids) o x = ground (
    arith,
    release_inputs-locked complete ids (release_input range complete id o) x,
    member-erase x id o.locked,
  )

  -- The inputs of this shard are all unspent.
  abbrev pub AreUnspent : List ℕ → List ℕ → Type 0
  AreUnspent uhs ids = (x : ℕ) → (touches ids x && not (member x uhs)) ≡ false

  pub has_inputs_iff : (uhs ids : List ℕ) → (has_inputs range uhs ids ≡ true) ↔ AreUnspent uhs ids
  has_inputs_iff uhs ids = (
    λ h x. ground (arith, has_inputs_touches uhs ids x h),
    λ h. elim (Bool-cases (has_inputs range uhs ids)) [
      | inl all ↦ all
      | inr missing ↦ contradict h (has_inputs_missing uhs ids missing)
    ],
  )
    where
      contradict :
          AreUnspent uhs ids
          → (x : ℕ) × (touches ids x ≡ true) × (member x uhs ≡ false)
          → has_inputs range uhs ids ≡ true
      contradict h (x, t, m) = ground (arith, h x)
