-- ===== src/Lib.antt =====
-- A verification library for sync-rollups: the TypeScript services of a rollup that runs in step
-- with L1.
--
-- The program. Three services share the types of rollup1/reth-fullnode/types.ts. A fullnode follows
-- the events of the Rollups contract on L1, replays them on a local reth engine and tracks the
-- state root that L1 has: reth-fullnode/event-processor.ts drives it, reth-fullnode/state-manager.ts
-- keeps the tracked state and rpc-server.ts answers JSON-RPC. The builder (builder/builder.ts) takes
-- the transactions of users, plans execution entries for them (builder/execution-planner.ts), asks
-- the proofer (proofer/proofer.ts) to sign them and sends the signed batch to L1 before the
-- transactions; the proofer executes the claimed transitions again on a fullnode of its own.
-- A dashboard (visualizator/dashboard) shows the events of both chains.
--
-- The files.
-- - Prelude, Maps, Outcome: the shared notation. A text of JavaScript is a list of codes
--   (Prelude.Text), a `bigint` an integer (Prelude.Int), a `Map` an association list in the order
--   of insertion. A call that may throw returns an Outcome; an async method is an Io, a function
--   of the state that returns an outcome beside the new state, so that what was written before an
--   exception stays written. Outcome.Rules and Outcome.Leaves are the rules that proofs use.
-- - Types: types.ts. Types.BigInt is `BigInt(text)` and `toString(base)`, Types.Json the JSON forms.
-- - StateManager: state-manager.ts, the fields and methods that track the state; BaseFee is
--   `computeNextBaseFee`.
-- - EventProcessor: event-processor.ts. Services is what the class calls outside of itself (the L1
--   provider, reth behind the state manager, the codecs of ethers), a parameter of every
--   definition that uses it. Events is the joining of logs and the grouping of the loop,
--   Replay `processEvent` and `replayExecution`, Batch `replayBatchExecution`, Fetch
--   `fetchAndProcessEvents`, History and ForkPoint the reorg detection, Reorg `handleReorg`,
--   `setResumeState` and a round of polling. A Node is the processor beside the state of the
--   outside, and `next_block` is `lastProcessedBlock + 1`, so that it is a natural number.
-- - Proofer: proofer.ts. Compare is `compareActions`, Entry `verifyEntry`, `verifyBatch` and
--   `applyHint`, Prove `handleProve`. ProoferServices is the JSON-RPC of its fullnode, the clock,
--   the signature and the hash of an action. The texts of refusals are the constructors of Refusal.
-- - Planner: execution-planner.ts. L2 has the plans for L2 transactions, CrossChain those for calls
--   between the chains, Provable what the proofer asks of plans.
-- - Builder: builder.ts. BuilderServices is what it calls outside: L1, the wallet, its fullnode
--   (through the services of the planner), the proofer, the submitters of bundles, the clock. A Site
--   is the builder beside the state of the outside. L2, Batch and L1 are `processL2Transaction`,
--   `processL2Batch` and `processL1Transaction`, Submit `handleSubmit`; Plan is how a transaction is
--   planned, Landing and Bundle how it is signed and brought to L1, Proof `requestProof`, Chain the
--   detection of the chain and the timestamps, Fees the fees, Hints the hint table, Relays
--   bundle-submitter.ts and mock-bundle-submitter.ts. Monitor is about what reaches L1: its theorems
--   take a predicate on sites that survives only the submissions that are allowed.
-- - RpcServer: rpc-server.ts, the block that `syncrollups_revertToSnapshot` goes back to.
-- - Dashboard: the stores (Store), the correlation of events across chains (UnionFind, Correlation,
--   Bundles: crossChainCorrelation.ts), the texts of actions (Format), the tables (Tables:
--   eventProcessor.ts) and the replay of events (Replay: useDerivedState.ts). What viem computes, the
--   hash of an action, is a parameter.
-- - Tests: runs at concrete inputs; Tests.Toy is a small chain for the fullnode, Tests.ToyBuilder
--   the surroundings of a builder.
--
-- Loops. `findForkPoint` runs on fuel, one more than the distance of its bounds; the ranges of a
-- fetch on the number of blocks left, and the rounds over the events of a range on the number of
-- events. The proofer's wait for 5000 ms sleeps 200 ms in each round and has 25 rounds;
-- Proofer.Prove.Waiting is about a clock that passes what is slept. So the builder's wait of 10000
-- ms has 50 rounds of 200 ms, and its wait of 120000 ms for the proofer 40 rounds of 3000 ms; a
-- submitter's wait of 24000 ms has 48 rounds of 500 ms. The attempts that the source counts (15
-- rollbacks, 20 bundles, 5 calls, 60 looks at the engine) are counted down. A search of the
-- union-find has a round for each id that is united and one more, since a path has at most as many
-- steps as there were unions. All other loops are structural.
--
-- Left out. What is printed; reads made only to print a warning; the handler of the error
-- FULL_REPLAY_NEEDED in event-processor.ts, since no call throws it; files, child processes, HTTP
-- servers and command lines; starting and stopping reth and the engine API calls of
-- state-manager.ts, which are operations of Services. Of builder.ts, `handlePrepareL1Call` and
-- `waitForUserTxAndMine`; `postBatchOnL1` is an operation of BuilderServices. Promises that are
-- awaited together are awaited in order. The RPC proxies, the rest of rpc-server.ts, the views
-- and the live stream of the dashboard, the contracts, the Rust fullnode and the scripts have no
-- model.
pub mod Prelude
pub mod Outcome
pub mod Maps
pub mod Types
pub mod StateManager
pub mod EventProcessor
pub mod Proofer
pub mod Planner
pub mod Builder
pub mod RpcServer
pub mod Dashboard
pub mod Tests
