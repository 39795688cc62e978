-- ===== src/Raft.antt =====
-- src/util/raft: the log store of the raft nodes.
pub mod LogStore
