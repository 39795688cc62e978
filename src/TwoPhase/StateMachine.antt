-- ===== src/TwoPhase/StateMachine.antt =====
-- src/uhs/twophase/coordinator/state_machine.cpp: what the coordinators replicate, the phase of every
-- dtx with the data to recover it. The buffers are lists of bytes.
pub mod Phases
mod Examples
use cbdc_forensics.Common.{
  ℕ, Bool, true, false, not, ◌&&◌, Option, none, some, List, [], ◌∷◌, if◌then◌else◌, member,
  emplace, erase, Map, find, put, remove,
}
use cbdc_forensics.TwoPhase.Outcome.{Outcome, fatal, ok}

pub data Command : Type 0 where
  prepare commit discard done get : Command

pub record CoordinatorState : Type 0 where
  pub prepare_txs : Map (List ℕ)
  pub commit_txs : Map (List ℕ)
  pub discard_txs : List ℕ

pub record StateMachine : Type 0 where
  pub last_committed_idx : ℕ
  pub state : CoordinatorState

-- The key is in the map, as the number of erased elements and the result of `emplace` tell.
abbrev pub has : ℕ → Map (List ℕ) → Bool
has id m = elim (find id m) [ none ↦ false | some buffer ↦ true ]

-- The cases of `commit` that change the state.
unfoldable pub commit_prepare : ℕ → List ℕ → CoordinatorState → Outcome CoordinatorState
commit_prepare id data_ s =
    if has id s.prepare_txs
    then fatal
    else ok (record s { prepare_txs = put id data_ s.prepare_txs })

unfoldable pub commit_commit : ℕ → List ℕ → CoordinatorState → Outcome CoordinatorState
commit_commit id data_ s =
    if has id s.prepare_txs
    then ok
        (record s { prepare_txs = remove id s.prepare_txs; commit_txs = put id data_ s.commit_txs })
    else fatal

unfoldable pub commit_discard : ℕ → CoordinatorState → Outcome CoordinatorState
commit_discard id s =
    if has id s.commit_txs
    then ok
        (record s { commit_txs = remove id s.commit_txs; discard_txs = emplace id s.discard_txs })
    else fatal

unfoldable pub commit_done : ℕ → CoordinatorState → Outcome CoordinatorState
commit_done id s =
    if member id s.discard_txs
    then ok (record s { discard_txs = erase id s.discard_txs })
    else fatal

unfoldable pub apply_command : Command → ℕ → List ℕ → CoordinatorState → Outcome CoordinatorState
unfolding commit_prepare commit_commit commit_discard commit_done
apply_command prepare id data_ s = commit_prepare id data_ s
apply_command commit id data_ s = commit_commit id data_ s
apply_command discard id data_ s = commit_discard id s
apply_command done id data_ s = commit_done id s
apply_command get id data_ s = ok s

-- The state is the answer to `get`, before it is serialized; the other commands have none.
abbrev reply : Command → CoordinatorState → Option CoordinatorState
reply get s = some s
reply c s = none

unfoldable pub commit_entry :
    ℕ → Command → ℕ → List ℕ → StateMachine → Outcome (Option CoordinatorState × StateMachine)
unfolding apply_command
commit_entry log_idx command id data_ m = elim (apply_command command id data_ m.state) [
  | fatal ↦ fatal
  | ok s ↦ ok (reply command s, record { last_committed_idx = log_idx; state = s })
]

unfoldable pub commit_config : ℕ → StateMachine → StateMachine
commit_config log_idx m = record m { last_committed_idx = log_idx }

unfoldable pub last_commit_index : StateMachine → ℕ
last_commit_index m = m.last_committed_idx
