-- ===== src/Lib.antt =====
-- A node of a small blockchain: accounts sign extrinsics, a pool keeps them until their slot's author
-- puts them in a block, and the runtime executes blocks on three pallets that keep their state in
-- memory and in a key-value store. A command line submits extrinsics to a node or runs them without
-- one, and two macros generate the code that dispatches calls.
--
-- The files, and the code that they follow:
--   Shared, BTreeMap, Codec, Storage: what several parts use. BTreeMap is a list of entries in the
--     order of the keys; Storage is the scan with which each pallet starts and the keys under which
--     it writes; Codec is parity_scale_codec, a parameter with the round trip that it promises.
--   Store: the trait KeyValueStore of src/support.rs, and Store/Memory its test_store. A store is a
--     state of its own, handed from call to call. Store/Rocks is RocksDbStore over a parameter for
--     rocksdb.
--   Dispatch, Extrinsic: DispatchResult, Block, Header, UncheckedExtrinsic, verify and verify_batch of
--     src/support.rs. The signature scheme ed25519_dalek is a parameter.
--   Genesis: the development keyring of src/support.rs and maybe_apply_genesis of src/lib.rs.
--   Mempool: Mempool of src/support.rs.
--   System, Balances, ProofOfExistence: the pallets of src/system.rs, src/balances.rs and
--     src/proof_of_existence.rs, each a record with a function for each method. The children hold the
--     lemmas; InStep, Saved and Survives are about what the store keeps.
--   Runtime: the struct of src/lib.rs with the functions that macros/src/runtime/expand.rs generates
--     for it (new, execute_block, dispatch); macros/src/call/expand.rs generates the dispatch of a
--     pallet. Runtime/Ledger is the ledger that a runtime keeps, without maps and store, with its
--     abstract blocks. Runtime/Sound is the invariant that binds runtime and store, Runtime/Agreement
--     compares one block on two stores.
--   Node: produce_block (Node/Production), the handlers of the RPC server (Node/Rpc) and the branches
--     of the event loop (Node/Loop) of src/node.rs. Node/Loop/Events is the start of a node and any
--     sequence of its events; the other children of Node/Loop are about its ticker (Slots, Tick), its
--     list of peers (Connections), a peer's block (Import, Agreement), its panics (Total) and what makes
--     two nodes agree (Replicas). Node/Lives is a node over any number of launches, Node/Effect follows
--     an extrinsic from the pool to the ledger, Node/Race has the moments between the locks of
--     produce_block at which a handler can read, Node/Behind a node that has missed a block.
--   Network: several nodes of src/node.rs that gossip, in rounds of one slot each: what a node sends on
--     tx_pub (speak, requests) comes into the network loop of each other node (receive, forwarded).
--     Network/Steps is one node in a round, Network/Speaking and Network/Slot a round, Network/Rounds
--     any number of them.
--   Cli: src/main.rs. Cli/Commands is `main` behind clap, with the commands that read or reset the
--     database; Cli/Submit is a submission to a node over HTTP or without one; Cli/Text and
--     Cli/Decimal are the hex digits and numbers that client and node exchange; Cli/Demo is run_demo.
--   Macros: the macros of macros/src. Macros/Syntax is the part of syn's trees that they read,
--     Macros/Call is the call macro (call/parse.rs, call/expand.rs), Macros/Entry the runtime macro
--     (runtime/parse.rs, runtime/expand.rs). Macros/Call/Runs is what the code of the call macro does
--     when it runs, Macros/Items the items of this program that the macros are applied to.
--   Examples: concrete data and tests. Examples/UnitTests has the unit tests of src/system.rs,
--     src/balances.rs, src/proof_of_existence.rs and src/support.rs, Examples/IntegrationTests those
--     of tests/runtime.rs, run on the model.
--
-- A panic is `none`: `unwrap` on an overflow of a nonce or of the block number, the two `expect` of
-- create_claim, the `expect` on the genesis block, the index into an empty list of peers, and in a
-- command each of its `unwrap` and `expect`. Block numbers and nonces are below 2 ^ 32 and balances
-- below 2 ^ 128; additions are checked, or wrap, as in the source. Every loop is over a list or a
-- count; only the printing of a number runs on fuel, ten steps, since a u32 has ten digits at most.
-- A failed write to the store is only printed by the source, and the model passes over it; where a
-- statement depends on the store, it has the hypothesis that the store is reliable. The order in
-- which a HashMap is iterated, the wall clock, hex decoding, the wire encoding, HTTP (ureq), the file
-- system, multiaddresses, and the types and tokens of syn are parameters.
--
-- Not modelled: the libp2p setup of src/network.rs and of `run`, with gossip that is late, lost or out
-- of order, the tests of tests/encoding.rs (the encoding is a parameter), the spawning of tasks, sockets
-- and the queues of the channels, how clap parses arguments, opening the database, and what Debug
-- prints.
pub mod Shared
pub mod BTreeMap
pub mod Codec
pub mod Store
pub mod Storage
pub mod Dispatch
pub mod System
pub mod Balances
pub mod ProofOfExistence
pub mod Extrinsic
pub mod Runtime
pub mod Genesis
pub mod Mempool
pub mod Node
pub mod Network
pub mod Cli
pub mod Macros
pub mod Examples
