-- ===== src/TwoPhase/StateMachine/Examples.antt =====
-- A test of the model of the replicated state, and the theorem at a concrete input.
use cbdc_forensics.Common.{ℕ, ◌≡◌, refl, true, false, [], ◌∷◌, ◌==◌, find, member, put, remove}
use cbdc_forensics.TwoPhase.Outcome.{ok}
use cbdc_forensics.TwoPhase.StateMachine.{commit, CoordinatorState, apply_command}
use cbdc_forensics.TwoPhase.StateMachine.Phases.{
  Phase, committing, phase_is, commits, apply_command_advances,
}

-- The dtx 7 is being prepared, 8 committed.
abbrev busy : CoordinatorState
busy = record { prepare_txs = (7, 1 ∷ []) ∷ []; commit_txs = (8, 2 ∷ []) ∷ []; discard_txs = [] }

commit_7 :
    apply_command commit 7 (3 ∷ []) busy
    ≡ ok
        (record { prepare_txs = []; commit_txs = (8, 2 ∷ []) ∷ (7, 3 ∷ []) ∷ []; discard_txs = [] })
unfolding apply_command find put remove
commit_7 = refl

apply_command_advances_example :
    (s' : CoordinatorState) × (apply_command commit 7 (3 ∷ []) busy ≡ ok s')
    × (phase_is committing 7 s' ≡ true)
    × ((y : ℕ) (q : Phase) → (y == 7) ≡ false → phase_is q y s' ≡ phase_is q y busy)
unfolding phase_is find member
apply_command_advances_example = apply_command_advances 7 (3 ∷ []) busy commits refl
