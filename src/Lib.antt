-- ===== src/Lib.antt =====
-- OpenCBDC transaction processor: a model of the two architectures that share its transaction
-- format, the two-phase commit (src/uhs/twophase) and the atomizer (src/uhs/atomizer), with the
-- theorems that make their parts correct.
--
-- A client sends a full transaction (src/uhs/transaction). A sentinel validates it and condenses it
-- to a compact transaction, in which inputs and outputs are hashes, the UHS identifiers. In the
-- two-phase architecture a coordinator batches compact transactions into a distributed transaction
-- (dtx), and every locking shard locks the inputs in its range, then applies or releases them.
--
-- The files and the code they model:
--
-- - Common: numbers, lists, sets as lists of numbers and maps as association lists, shared by all.
--   Hashes, keys and signatures are numbers, byte strings are lists of numbers below 256; an
--   unordered container is a list in the order of insertion.
-- - Util/Serialization: src/util/serialization/format.hpp, a codec for every operator pair. A codec
--   encodes to bytes and decodes a prefix of a byte list or fails. Integers are little-endian, as
--   on the supported machines. The chunked reservation of memory while a vector is read has no
--   effect on its result and is left out.
-- - Util/CacheSet: src/util/common/cache_set.hpp.
-- - Config: src/util/common/config.hpp and config.cpp. Texts are lists of bytes, a double is the
--   text that gives it, an error message is the key or the name that it gives. The environment and
--   the file are a parser with values; `hash_from_hex` is an argument.
-- - Transaction and Transaction/Messages, Ids, Validation: src/uhs/transaction/transaction.hpp,
--   messages.cpp, transaction.cpp and validation.cpp. Sums wrap around at 2 ^ 64. SHA-256 and the
--   Schnorr signatures of secp256k1 are the fields of the record Crypto, a parameter of every
--   definition that uses them.
-- - Transaction/Wallet: src/uhs/transaction/wallet.cpp, and in Wallet/Spend the choice of inputs,
--   change and `fan`. The random index and private key that a call of `generate_key` draws are
--   arguments; an exception of `m_keys.at` is the absence of a result. Wallet/Steps has the calls
--   as steps. The files of `save` and `load` are left out.
-- - Sentinel and TwoPhase/Sentinel: src/uhs/sentinel/interface.hpp and
--   src/uhs/twophase/sentinel_2pc/controller.cpp. The random numbers, the answers of remote
--   sentinels and whether the coordinator takes a transaction are lists of what happens; a call
--   that needs more than they hold has not ended.
-- - Client: src/uhs/client/client.cpp and twophase_client.cpp, on the wallet. The answers of the
--   sentinel, the coordinator and the shards are arguments; `sync` takes the identifiers in the
--   order of their set.
-- - TwoPhase/DistributedTx: src/uhs/twophase/coordinator/distributed_tx.cpp. The shards are reached
--   through a record of operations over a state, as in
--   src/uhs/twophase/locking_shard/interface.hpp, and DistributedTx/Recovery puts the locking shard
--   in its place. The callbacks act on a replicated state that is a parameter.
-- - TwoPhase/Controller: src/uhs/twophase/coordinator/controller.cpp. Raft is a record of two
--   operations over the replicated state. A call of `execute_transaction` that waits for room in
--   the batch has no result; dtxs are executed one after another.
-- - TwoPhase/StateMachine: src/uhs/twophase/coordinator/state_machine.cpp, the phases of the dtxs
--   that the coordinators replicate.
-- - Atomizer: src/uhs/atomizer/atomizer/atomizer.cpp, with the errors it sends to the watchtower.
--   An access out of the bounds of a vector is the absence of a result.
-- - Atomizer/Replica: src/uhs/atomizer/atomizer/state_machine.cpp, the requests that the atomizers
--   replicate, without snapshots. The buffers hold the requests and the responses.
-- - Atomizer/Sentinel: src/uhs/atomizer/sentinel/controller.cpp, with the shards as a list of
--   ranges and connections. A read out of bounds is the absence of a result.
-- - Atomizer/Shard: src/uhs/atomizer/shard/shard.cpp, over the key-value store of Atomizer/Leveldb,
--   a record of the operations of LevelDB that the code calls; the law that a batch is applied in
--   order, and that a snapshot has what the database had, is a hypothesis of the theorems. The keys
--   are the word for the height, of 15 bytes, and identifiers of 32 bytes, which differ.
-- - Atomizer/Archiver: src/uhs/atomizer/archiver/controller.cpp, over the reads and writes of
--   LevelDB with the keys and values that it uses (BlockStore). The recursion of `digest_block` has
--   fuel, and no result without it.
-- - Watchtower/BlockCache: src/uhs/atomizer/watchtower/block_cache.cpp, the outputs created and
--   spent in the last blocks.
-- - Watchtower/ErrorCache: src/uhs/atomizer/watchtower/error_cache.cpp, the last errors that the
--   watchtower was told of.
-- - Watchtower/Service: src/uhs/atomizer/watchtower/watchtower.cpp, on the two caches.
-- - Raft/LogStore: src/util/raft/log_store.cpp, over the reads, writes and iterators of LevelDB
--   (LogDb) with indices as keys. The entries of NuRaft and its serializer, with which a pack is
--   written and read, are parameters, and writes and allocations succeed. Indices wrap around at
--   2^64; a compaction to the greatest index, whose loop would not end, has no result; a failed
--   assertion is the absence of a result.
-- - TwoPhase/LockingShard: src/uhs/twophase/locking_shard/locking_shard.cpp. A shard is a record of
--   its members; every call holds the mutex and is a function from the state to an answer and the
--   next state. A fatal log line, which ends the process, is the outcome fatal. The release build
--   is modelled, without the assertions.
--
-- All loops are structural recursion on lists; the decoders recurse on the count that was read, and
-- the loop of the wallet over its seeds on the number of seeds that are left, which is the distance
-- between the two bounds modulo 2^64, so that it ends by its own condition. Only the archiver
-- recurses on fuel; one round more than it has deferred blocks is enough.
--
-- Not modelled: threads, sockets, RPC, NuRaft and its adapters but for the log store, LevelDB and
-- logging, the reading of configuration files, the command-line tools, and the controllers of the
-- shards, of the atomizers and of the watchtower, and the client of the atomizer.
pub mod Common
pub mod Util
pub mod Raft
pub mod Config
pub mod Transaction
pub mod Sentinel
pub mod Client
pub mod TwoPhase
pub mod Atomizer
pub mod Watchtower
