-- ===== src/Lib.antt =====
-- On-demand coretime orders: a parachain that pays for its relay chain blocks one order at a time.
--
-- The parts, and how they interact. A node follows the best heads of the relay chain and, in a slot
-- that is its turn, places an order by RPC (services/order). It keeps an order record, which a second
-- task corrects from the relay chain's events. When the node authors a block, the record's relay block
-- becomes an inherent (primitives/order) with a proof of that block's events. The pallet
-- (pallets/on-demand) reads the proof and rewards the author of the order, once per slot. The collator
-- and its import queue (client/consensus/on-demand-aura) author and verify the blocks. The template
-- (template) configures all of it.
--
-- Files:
--   Primitives, Primitives/Keys   primitives/order/src/lib.rs and well_known_keys.rs: the shared data,
--     and the storage keys of the relay chain.
--   Relay   what the code calls of the relay chain's interface.
--   Inherent   primitives/order/src/inherent.rs, and ProvideInherent of the pallet.
--   Pallet/State, Calls, Criteria   pallets/on-demand/src/lib.rs: storage, calls, reward size and
--     criterion. Pallet/Orders, Dispatch, Rewards prove who is rewarded, who may call what, and what
--     is paid over many blocks; Pallet/Paid has what a reward leaves, Pallet/Payments such a run as
--     settlements of slots, and Pallet/Stalls a run after the slot width has changed.
--   Service/Config, Chain, Submit, Orders, Tasks   services/order/src: config.rs, the two halves of
--     chain.rs, and the two of lib.rs. Service/Reads, Cores, Slots, Due, Once, Live, Events prove what
--     is said of them, Service/Exclusive compares two nodes, and Service/Ledger has the specification
--     that the tasks refine.
--   Client/Defender, Verifier   equivocation_import_queue.rs, with Verifier/Accepts.
--   Client/Queue   import_queue.rs and the queue of equivocation_import_queue.rs, with Queue/Limit.
--   Client/Collator   collator.rs, with Collator/Blocks.
--   Client/Basic   collators/basic.rs and collators/mod.rs, with Basic/Requests and Basic/Forks.
--   Client/Consensus   lib.rs of client/consensus/on-demand-aura/src.
--   Pallet/Stages, Failures   which ways an inherent can take, and which calls fail, and how. Pallet/Info has the calls' numbers and weights.
--   Pallet/Benchmarks   pallets/on-demand/src/benchmarking.rs.
--   Pallet/Bulk   what bulk mode holds back.
--   Pallet/Mock   pallets/on-demand/src/mock.rs, the runtime of the pallet's tests.
--   Pallet/Weights   weights.rs of both pallets, and the weights of the databases.
--   Template/Runtime, Rewarding, Genesis, Node, Example   template: the runtime's order checker, the
--     runtime as an instance of the pallet's Config, its genesis presets, the node's criterion and
--     inherent data, and the example pallet. Template/Flow follows one order from record to reward, and
--     Template/Pool takes the criterion over a pool without order, and Template/Apart compares it with
--     the runtime's.
--   Template/Api   template/runtime/src/apis.rs: what the runtime answers at a state. Template/Placed has
--     the order service over these answers, and an order from placement to reward, which Template/Served
--     takes from the order task; Template/Signers tells which key's account signs it.
--   Template/Collators, Admins   template/runtime/src/configs/mod.rs: sessions, collators and balances,
--     and who may change the selection of collators.
--   Template/Queues, Pallets   template/runtime/src/configs/mod.rs and lib.rs: the numbers of the
--     system, of fees and of the queues of messages, and the runtime's pallets with their indices.
--   Template/Rpc   template/node/src/rpc.rs.
--   Template/Constants, Fees, Blocks   template/runtime/src/lib.rs, weights and configs/mod.rs: the
--     constants, what weight and length cost, and the limits of a block.
--   Template/Xcm, Origins, Routes   template/runtime/src/configs/xcm_config.rs: the barrier against messages,
--     as whom a message dispatches a call, and the executor's configuration with the router.
--   Template/Startup   template/node/src/service.rs, how a node is started, and start_on_demand of
--     services/order/src/lib.rs. Effects is the monad, Libraries what is called, Partial and Node the
--     code; Keeps has the rules for what a step leaves out, and Started and Startable prove what runs.
--   Template/Command   template/node/src: chain_spec.rs (Spec), cli.rs (Relay, Cli) and command.rs (Run,
--     Texts), with Laws.
--   Prelude   what all modules share. Tests   concrete runs.
--
-- How the code is read. A function keeps its name. A dispatchable takes the pallet's state and returns
-- it with its result. `?` is the bind of Outcome, which has values, errors and panics. A call to code
-- outside the repository (the relay chain, AuRa, FRAME, the keystore, the RPC node, the codec, the hash
-- functions, the LRU map) is a field of a record that the definitions take, with documented laws as
-- further fields where they are used; one that fails is none, since the code never looks at such an
-- error. A hash and an account are the number that their bytes spell. Events are kept newest first. A
-- stream is the list of its items, and each item comes with the surroundings of its time, so that
-- whatever they answer may change from one to the next. The record's lock is held from the test of
-- the last slot to the writes, so the two tasks take turns by whole heads and single events. A slot
-- that is read from a width shifts as the release profile does, by the width modulo 32. Numbers are
-- unbounded, with `%` or saturation where the source has it.
--
-- Every loop runs over a list or a given number of rounds, so no fuel is needed: find_pool takes as many
-- rounds as there are cores. The loops of the source that never end are taken as far as the given list
-- of items leads.
--
-- Starting a node adds to a list of what was spawned and to the order records in memory, which are
-- named by their number, so that two tasks over one record can be told from two records. What the
-- client libraries build has a type of its own, and a text or a path is a String or a list of them; the
-- address in a URL is a list of bytes. A command is taken up to the function of the libraries that it
-- ends in.
--
-- Not modelled: the benchmarks of the template's pallet, logs and prometheus registries, what the
-- template's runtime only names as a type of a pallet of FRAME, cumulus or XCM, the traits of its API for
-- try-runtime and benchmarks, and the parser of the command line with its help texts.
-- In the import queue the map's own bound of 256 slots is a parameter: what it pushes out is up to it,
-- and each time that it does so is counted.
pub mod Prelude
pub mod Primitives
pub mod Relay
pub mod Inherent
pub mod Pallet
pub mod Service
pub mod Client
pub mod Template
pub mod Tests
