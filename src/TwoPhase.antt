-- ===== src/TwoPhase.antt =====
-- src/uhs/twophase: the shards that lock and apply, and the coordinator that drives them.
pub mod Outcome
pub mod LockingShard
pub mod Sentinel
pub mod DistributedTx
pub mod StateMachine
pub mod Controller
