-- ===== src/Lib.antt =====
-- GasLeap: sponsorship pools that pay the fees of cross-chain transactions.
--
-- The program is a Substrate parachain with one pallet of its own. An account creates a pool by
-- reserving a deposit (create_pool), adds to it (fund_pool), and manages its configuration and its
-- authorization rules. Anyone signed may have a transaction sponsored by a pool: the pallet prices
-- it with the gateway's fee estimator, books the cost, logs a record and sends a message through
-- the XCM gateway. Receipts of the other chains come back through process_receipt. Read-only
-- functions of the pallet answer a runtime API, and a JSON-RPC server asks that API. A collator node
-- starts the chain from a chain specification, whose genesis endows the first accounts.
--
-- Which file models what (paths from the repository's root):
--   Types            the data types of pallets/sponsorship/src/lib.rs: pools, configurations,
--                    rules, spending, records, events, errors
--   Pallet           the storage items and the seven dispatchables of the same file, one function
--                    each under the source's name; book_transaction is the part of
--                    sponsor_transaction that writes, conclude the match in process_receipt
--   Pallet/Queries   its read-only functions; ByOwner, Savings, Transactions and Quote below it
--                    are the theorems on them
--   Pallet/Change, Pallet/Refinement   the transitions of the storage in the abstract, and that
--                    each dispatchable makes its own
--   Pallet/History   calls under FRAME's storage layer, new blocks and the rest of the runtime as
--                    a step relation; reachable states and induction on them
--   Pallet/Abstract  a second, shorter account of the calls on maps that are functions: first all
--                    tests, then all writes. Agreement and Sponsored compare each dispatchable with
--                    it, Simulation whole runs; Editing, Following, Charging, Keeping, Observing,
--                    Commuting and Postponing are on a pool's management next to the calls on
--                    other pools, with the events in no order
--   Pallet/Solvency, Conservation, Audit, Owners, Status, Persistence, Integrity, Widths,
--                    Budget   what holds over all histories; Exhaustion is on calls without
--                    deposits, Indexer on a reader of the events of all blocks
--   Pallet/Sponsoring, Creation, Access, Receipts   single calls, branch by branch; Series is
--                    one call over and over, Interleaving two calls in either order, Rules a rule
--                    that is added and removed, Unlimited a call under other limits of
--                    the pool
--   Gateway          the types of pallets/sponsorship/src/xcm_gateway.rs; its structs are
--                    Message (XcmMessageBuilder, XcmMessageValidator), Fee (FeeEstimator),
--                    Dispatch (XcmDispatcher), Retry (TransactionTracker, RetryHandler), Send
--                    (XcmGateway), Receipt (ReceiptProcessor), Settlement (PoolBalanceUpdater,
--                    UserNotificationSystem); Tables, Formats, Delivery, Backoff and Settling are
--                    the theorems
--   Api, Api/Rpc     the runtime API in runtime/src/lib.rs with its declaration in
--                    pallets/sponsorship/rpc/runtime-api/src/lib.rs, and the server in
--                    pallets/sponsorship/src/rpc.rs
--   Weights          pallets/sponsorship/src/weights.rs; Covering and Reading compare it with the
--                    writes and the reads of the calls
--   Benchmarks       pallets/sponsorship/src/benchmarking.rs; Funded and Unfunded are how the
--                    benchmarks end for a caller with and without funds
--   Runtime          the constants and the fee polynomial of runtime/src/lib.rs, with Fees; Limits are
--                    the weights of a block, Inherents what a block's author provides
--                    (node/src/service.rs) and what the runtime checks
--   Node/ChainSpec   node/src/chain_spec.rs and load_spec of node/src/command.rs; Genesis is on
--                    what the built-in specifications build, Launch on the pallet's first calls
--   Node/Cli, Node/Command   node/src/cli.rs, the rest of node/src/command.rs and node/src/main.rs; one
--                    constructor of Task is one cmd.run of the source
--   Node/Relay       the traits SubstrateCli and CliConfiguration of both command lines
--   Node/Service     node/src/service.rs: what a start does is a list of steps, the latest first; Runs
--                    and Starting are on the steps of each part and of a whole start, Success on a
--                    start where every call succeeds
--   Node/Rpc         node/src/rpc.rs and the method names of pallets/sponsorship/src/rpc.rs; Serving
--                    follows a request from the module of all methods to the pallet
--   Node/Whole       a plain run: chain specification, command and service together
--   Frame            what the pallet takes from FRAME and the currency, as a parameter with laws
--   Base             numbers, lists, fallible calls and storage maps
--   Tests            the test suite's inputs, and each theorem at a concrete input; Units are the unit
--                    tests of pallets/sponsorship/src/xcm_gateway.rs
--
-- How it is modelled. A dispatchable is a function from the world (storage and log lines) to a
-- result and the world it leaves, errors included: what the body wrote before an error is still
-- there. FRAME's storage layer, a parameter with the law that it keeps what a success wrote and
-- takes back what an error wrote, is applied in Pallet/History only. Integers are natural numbers
-- with their width written out: saturating_add, saturating_sub and saturating_mul at the largest
-- u32, u64 or u128, the cast of a length to u32 and the power of the back-off modulo 2 ^ 32, which
-- is a release build's arithmetic. Accounts and hashes are only compared, so they are numbers. A
-- storage map is an association list with one value to a key. The gateway keeps no storage, so
-- its effect is the log lines it writes. All loops run over lists, by recursion on the list: no
-- definition uses fuel.
--
-- Parameters: the currency (reserve, free and reserved balances, with the laws that a reserve
-- moves its amount from the free to the reserved balance of one account and leaves the others,
-- and that a reserved balance is a u128), ensure_signed, the hash, MinPoolDeposit, the storage
-- layer, the order in which a map is iterated (with the law that it meets every entry once),
-- the client of the RPC server, weights and their limits, Perbill, slots and clocks, the keys
-- that a seed has and the account of a key, the runtime's code, the reading of a chain
-- specification from a file, and what Substrate, Cumulus and Polkadot answer to the calls of
-- the command line and of the service, and jsonrpsee's modules with the documented laws of
-- their merging. In a history other pallets do anything to the currency, reserve, and release or
-- slash what they have reserved themselves (the bonds of collators, say); how much that is, is a
-- function of the ledger, and a parameter, with the laws that a reserved balance includes it and
-- that a reserve of this pallet does not change it. What takes from the reserve of the pools' owners without
-- this pallet, such as a forced release by root, is left out. frame_system drops the events of block
-- 0, and so does the model.
--
-- Not modelled: the pallet configurations and construct_runtime, which are configuration of
-- FRAME; the handles that node/src/service.rs passes from one of Substrate's and Cumulus's
-- services to another; account_id, which nothing calls; the front end, the
-- SDK, the REST service, the containers and the scripts, which are not Rust. Proof sizes of
-- storage are not modelled either, and type sizes only where the code bounds them.
mod Base
pub mod Types
pub mod Gateway
pub mod Frame
pub mod Pallet
pub mod Api
pub mod Weights
pub mod Benchmarks
pub mod Runtime
pub mod Node
mod Tests
