-- ===== src/TwoPhase/StateMachine/Phases.antt =====
-- src/uhs/twophase/coordinator/state_machine.cpp: the life of a dtx in the replicated state.
use cbdc_forensics.Common.{
  ℕ, ◌≡◌, refl, Bool, true, false, not, ◌&&◌, List, arith, ◌==◌, if◌then◌else◌, member, emplace,
  erase, member-emplace, member-erase, Map, put, remove, find-put, find-remove,
}
use cbdc_forensics.TwoPhase.Outcome.{Outcome, ok}
use cbdc_forensics.TwoPhase.StateMachine.{
  Command, prepare, commit, discard, done, get, CoordinatorState, has, apply_command,
  commit_prepare, commit_commit, commit_discard, commit_done,
}

-- Where a dtx stands, as the comments of `coordinator_state` describe it.
pub data Phase : Type 0 where
  absent preparing committing discarding : Phase

-- The dtx is in the one variable of its phase, and in no other.
unfoldable pub phase_is : Phase → ℕ → CoordinatorState → Bool
phase_is absent id s =
    not (has id s.prepare_txs) && not (has id s.commit_txs) && not (member id s.discard_txs)
phase_is preparing id s =
    has id s.prepare_txs && not (has id s.commit_txs) && not (member id s.discard_txs)
phase_is committing id s =
    not (has id s.prepare_txs) && has id s.commit_txs && not (member id s.discard_txs)
phase_is discarding id s =
    not (has id s.prepare_txs) && not (has id s.commit_txs) && member id s.discard_txs

-- The commands that a phase allows, with the phase they lead to.
pub data Next : Command → Phase → Phase → Type 0 where
  prepares : Next prepare absent preparing
  commits : Next commit preparing committing
  discards : Next discard committing discarding
  finishes : Next done discarding absent
  gets : (p : Phase) → Next get p p

has-put :
    (y id : ℕ) (v : List ℕ) (m : Map (List ℕ))
    → has y (put id v m) ≡ (if y == id then true else has y m)
has-put y id v m = ground (arith, find-put y id v m)

has-remove :
    (y id : ℕ) (m : Map (List ℕ)) → has y (remove id m) ≡ (if y == id then false else has y m)
has-remove y id m = ground (arith, find-remove y id m)

-- What a command does to one dtx and to the others.
abbrev Advances : ℕ → Phase → CoordinatorState → Outcome CoordinatorState → Type 0
Advances id p s o =
    (s' : CoordinatorState) × (o ≡ ok s')
    × (phase_is p id s' ≡ true)
    × ((y : ℕ) (q : Phase) → (y == id) ≡ false → phase_is q y s' ≡ phase_is q y s)

-- The phase of a dtx reads three tests.
phase_is-cong :
    (q : Phase) (y : ℕ) (s s' : CoordinatorState)
    → has y s'.prepare_txs ≡ has y s.prepare_txs
    → has y s'.commit_txs ≡ has y s.commit_txs
    → member y s'.discard_txs ≡ member y s.discard_txs
    → phase_is q y s' ≡ phase_is q y s
unfolding phase_is
phase_is-cong absent y s s' a b c = ground (arith, a, b, c)
phase_is-cong preparing y s s' a b c = ground (arith, a, b, c)
phase_is-cong committing y s s' a b c = ground (arith, a, b, c)
phase_is-cong discarding y s s' a b c = ground (arith, a, b, c)

commit_prepare-Advances :
    (id : ℕ) (data_ : List ℕ) (s : CoordinatorState)
    → phase_is absent id s ≡ true
    → Advances id preparing s (commit_prepare id data_ s)
unfolding commit_prepare phase_is
commit_prepare-Advances id data_ s h = (
  record s { prepare_txs = put id data_ s.prepare_txs },
  ground (arith, h),
  ground (arith, h, has-put id id data_ s.prepare_txs),
  λ y q other.
      phase_is-cong q y s (record s { prepare_txs = put id data_ s.prepare_txs })
        (ground (arith, other, has-put y id data_ s.prepare_txs)) refl refl,
)

commit_commit-Advances :
    (id : ℕ) (data_ : List ℕ) (s : CoordinatorState)
    → phase_is preparing id s ≡ true
    → Advances id committing s (commit_commit id data_ s)
unfolding commit_commit phase_is
commit_commit-Advances id data_ s h =
    let s' : CoordinatorState = record s {
      prepare_txs = remove id s.prepare_txs;
      commit_txs = put id data_ s.commit_txs;
    } in
    (
      s',
      ground (arith, h),
      ground (arith, h, has-remove id id s.prepare_txs, has-put id id data_ s.commit_txs),
      λ y q other.
          phase_is-cong q y s s' (ground (arith, other, has-remove y id s.prepare_txs))
            (ground (arith, other, has-put y id data_ s.commit_txs)) refl,
    )

commit_discard-Advances :
    (id : ℕ) (s : CoordinatorState)
    → phase_is committing id s ≡ true
    → Advances id discarding s (commit_discard id s)
unfolding commit_discard phase_is
commit_discard-Advances id s h =
    let s' : CoordinatorState = record s {
      commit_txs = remove id s.commit_txs;
      discard_txs = emplace id s.discard_txs;
    } in
    (
      s',
      ground (arith, h),
      ground (arith, h, has-remove id id s.commit_txs, member-emplace id id s.discard_txs),
      λ y q other.
          phase_is-cong q y s s' refl (ground (arith, other, has-remove y id s.commit_txs))
            (ground (arith, other, member-emplace y id s.discard_txs)),
    )

commit_done-Advances :
    (id : ℕ) (s : CoordinatorState)
    → phase_is discarding id s ≡ true
    → Advances id absent s (commit_done id s)
unfolding commit_done phase_is
commit_done-Advances id s h =
    let s' : CoordinatorState = record s { discard_txs = erase id s.discard_txs } in
    (
      s',
      ground (arith, h),
      ground (arith, h, member-erase id id s.discard_txs),
      λ y q other.
          phase_is-cong q y s s' refl refl (ground (arith, other, member-erase y id s.discard_txs)),
    )

-- When the phase of a dtx allows a command (`Next`: prepare for an absent dtx, commit for one in
-- preparation, discard for a committed one, done for a discarded one, get for all), and the dtx is
-- in the variable of its phase and in no other, then the command succeeds, afterwards the dtx is in
-- the variable of the next phase and in no other, and the phases of all other dtxs are what they
-- were.
pub apply_command_advances :
    {c : Command} {p p' : Phase} (id : ℕ) (data_ : List ℕ) (s : CoordinatorState)
    → Next c p p'
    → phase_is p id s ≡ true
    → (s' : CoordinatorState) × (apply_command c id data_ s ≡ ok s')
      × (phase_is p' id s' ≡ true)
      × ((y : ℕ) (q : Phase) → (y == id) ≡ false → phase_is q y s' ≡ phase_is q y s)
unfolding apply_command
apply_command_advances id data_ s prepares h = commit_prepare-Advances id data_ s h
apply_command_advances id data_ s commits h = commit_commit-Advances id data_ s h
apply_command_advances id data_ s discards h = commit_discard-Advances id s h
apply_command_advances id data_ s finishes h = commit_done-Advances id s h
apply_command_advances id data_ s (gets p) h = (s, refl, h, λ y q other. refl)
