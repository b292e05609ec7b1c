-- ===== src/Lib.antt =====
-- A model of the consensus core of entangled, the C implementation of an IOTA node, and of the
-- message encoding of its MAM library, with the theorems about them. Paths are from the root of the
-- repository.
--
-- The program keeps a tangle of transactions in a database and a ledger of balances in memory. A
-- milestone confirms the transactions that it approves: the ledger validator
-- (ciri/consensus/ledger_validator) walks from it into the past
-- (ciri/consensus/tangle/traversal.c), has each bundle that it meets loaded along the trunks
-- (ciri/consensus/tangle/tangle.c) and judged (ciri/consensus/bundle_validator,
-- common/model/bundle.c), sums the values into a state delta
-- (ciri/consensus/snapshot/state_delta.c), and applies the delta to the latest snapshot
-- (ciri/consensus/snapshot/snapshot.c) when no balance becomes negative. Around this the node keeps
-- the tips that new transactions may approve (ciri/node/tips_cache.c) and the hashes it wants from
-- its neighbors (ciri/node/pipeline/transaction_requester.c). The two tips for a new transaction
-- come from a random walk (ciri/consensus/tip_selection): from a milestone, by the number of the
-- transactions that approve each candidate, over tails that the ledger validator finds consistent.
-- Hashes, values and signatures are sequences of trits (common/trinary, common/crypto). The
-- messages of MAM (mam) are streams of trits that a sponge absorbs, encrypts and authenticates as
-- they are written and read.
--
-- The files:
--   Prelude       shared names, lists over the native numbers, integers, 64-bit words
--   Outcome       return codes, and an object passed by reference with the code of the call
--   HashMap       utils/containers/hash/hash_map.c.tpl
--   HashSet       utils/containers/hash/hash_set.c.tpl and hash_stack.c.tpl
--   StateDelta    ciri/consensus/snapshot/state_delta.c; a function f is state_delta_f
--   Snapshot      ciri/consensus/snapshot/snapshot.c and snapshot_metadata.c; f is iota_snapshot_f
--   Bitset, IndexedMap     utils/containers/bitset.c and utils/hash_indexed_map.c
--   TipSelection  ciri/consensus/tip_selection: CwRating (cw_rating_dfs_impl.c), Validator
--     (exit_probability_validator.c), Walker (walker.c and global_calcs.c), EntryPoint, Selector
--   TipsCache     ciri/node/tips_cache.c; f is tips_cache_f
--   RecentSeenBytesCache   ciri/node/recent_seen_bytes_cache.c and utils/containers/map.c.tpl; f is
--     recent_seen_bytes_cache_f, and map_f is f of the map
--   Requester     ciri/node/pipeline/transaction_requester.c; f is f or requester_f
--   Trinary       common/trinary: trits.h, trit_long.c, add.c, trit_byte.c, trit_tryte.c, tryte_ascii.c
--   Kerl          common/crypto/kerl/bigint.c
--   Transaction   common/model/transaction.h
--   Normalize     common/crypto/iss/normalize.c
--   Bundle        common/model/bundle.c; f is bundle_f
--   Tangle        ciri/consensus/tangle and ciri/consensus/bundle_validator
--   Ledger        ciri/consensus/ledger_validator; f is iota_consensus_ledger_validator_f
--   Merkle        utils/merkle.c
--   Milestones    ciri/consensus/milestone/milestone_service.c
--   Mam           mam/trits (trits.c and buffers.c), mam/sponge (sponge.c and spongos.c) and mam/pb3/pb3.c
--   TransactionValidator   ciri/consensus/transaction_validator/transaction_validator.c
--
-- A hash, an address, a tag or a signature is the number that its trits spell, least trit first,
-- with the digit 2 for the trit -1; the null hash is 0. An int64_t or uint64_t is its pattern, a
-- number below 2^64, and sums wrap. A hash table is the list of its entries in the order of
-- insertion, in which uthash iterates. An allocation is a parameter `malloc` that tells for which
-- hash it succeeds. An operation under a lock is one step. The database, the sponge Kerl and the
-- digest of a signature are parameters, and so are the type double with its operations, the drawn
-- probabilities, what a processor makes of a shift of a word by 64 and more, and the flag that is
-- read from a transaction no load has filled. Where C leaves a sum, a shift or `llabs` of a signed
-- number undefined, the model has what the processor computes. Null pointers are modelled where the
-- caller may pass them on purpose.
--
-- Loops over arrays and tables are structural recursion. Fuel stands in a few places: `min_trits`
-- runs 40 rounds, which its theorem shows to be enough for 64 bits; `validate_signatures` takes a
-- round for each transaction, which a theorem about what it accepts shows to be enough; a walk, and
-- the loop over the stored milestones, take fuel that the caller chooses, and theorems tell how
-- much is enough; the loops of the MAM sponge take a round for each trit, and their theorems show
-- that the whole input is used. The check of the depth of a tip has fuel from its configured limit,
-- the light walks of the ratings from the number of approvers in their map, the loop of the size of
-- a Merkle tree from its number of leaves, and all are shown to be enough; the loop of its depth
-- has 32 rounds, after which the sizes that it compares repeat; the random walk may not end, which
-- a theorem shows.
--
-- Not modelled: the database, threads, sockets, JSON and HTTP, the files of snapshots, the
-- permutations of Curl, Troika and Keccak, logging, and the parts of the tree that are clients,
-- bindings or tools. The masks of loaded columns and the bounds on the time of attachment of a
-- transaction are left out. A write past the end of an array is not modelled, and the asserts of
-- mam are taken for granted. Bytes of trits are as they are built with NO_BYTES_TRITS_LUT.
pub mod Bitset
pub mod Bundle
pub mod HashMap
pub mod HashSet
pub mod IndexedMap
pub mod Kerl
pub mod Ledger
pub mod Mam
pub mod Merkle
pub mod Milestones
pub mod Normalize
pub mod Outcome
pub mod Prelude
pub mod RecentSeenBytesCache
pub mod Requester
pub mod Snapshot
pub mod StateDelta
pub mod Tangle
pub mod TipSelection
pub mod TipsCache
pub mod Transaction
pub mod TransactionValidator
pub mod Trinary
