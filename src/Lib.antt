-- ===== src/Lib.antt =====
-- The BitVMX bitcoin coordinator: it registers transactions, broadcasts them, follows them in the
-- mempool and the chain, and pays for them with CPFP and RBF speedups, one `tick` at a time.
--
-- Parts and files. `Types` models src/types.rs and src/errors.rs, `Config` src/config, `Helper`
-- src/helper.rs. `Storage` and its children model src/core/storage.rs: `Storage.Db` is the persisted
-- state (a record with one field for each `StoreKey`), `News`, `Speedups`, `Records`, `Pending`,
-- `Evict` and `Funding` are the groups of methods of `CoordinatorStorage`, each a function on that
-- state under the method's own name. `Fee`, `Funding` and `Dispatcher` model the managers of
-- src/core/fee.rs, src/core/funding.rs and src/core/dispatcher.rs. `Engine` models src/engines:
-- `Engine.Failure` and `Engine.Common` the two halves of `EngineContext` (common.rs),
-- `Engine.Transactions` transaction_engine.rs, `Engine.Build` and `Engine.Speedup`
-- speedup_engine.rs, and `Engine.Review` one round of the review loop of both engines.
-- `Coordinator` models `tick` and the public methods of src/coordinator.rs; where a public method
-- shares its name with a storage method it is `coordinator_dispatch`, `coordinator_cancel`,
-- `coordinator_news`, `coordinator_ack_news` or `coordinator_monitor`. The children of a file that
-- are named for what they show (`Lifecycle`, `Bounds`, `Inbox`, `Queue`, `Exact`, `Transitions`,
-- `Finalize`, `Once`, `Sound`, `Release`, `Marks`, `Handed`, `Combined`, `Newest`, `Boost`,
-- `Packing`, `Fueled`, `Calls`, `Sends`, `Answers`, `Batches`, `Shrink`, `Waiting`, `Settle`,
-- `Cascade`, `Pacing`, `Paid`, `Ends`, `Restores`, `Released`, `Chain`, `Failing`, `Settles`,
-- `Cancel`, `Register`, `Rules`, `Keeps`, `Fails`, `Stored`, `WellFormed`, `Refines`)
-- hold the proofs. `Invariant` holds the proofs about all parts at once, step by step of the tick, and
-- `Invariant.Session` the client's view: calls of the public methods in any order, with restarts.
-- `Tests` holds the concrete runs.
--
-- State and errors. A method that changes more than the storage runs in the monad `World.M`: the
-- state is the storage, the retry clock of `EngineContext`, and the log of the calls made outside;
-- the state comes back beside an error too, since what was written before it stays written. What
-- other crates answer is the record `Outside`. An answer may depend on the log, which lists the
-- calls that change something outside and the looks at the clock; two questions with the same log
-- have the same answer. What the protocol builder builds depends on what it is given alone.
-- f64 arithmetic and its order are parameters (`FloatFunctions`, `F64Order`).
--
-- Numbers. u64, u32 and usize are natural numbers; where the code adds or multiplies with the plain
-- operator the wrap-around of a release build is written out (`add32`, `add64`, `mul64`), where it
-- saturates so does the model. A usize has 64 bits.
--
-- Fuel. `fail_and_cascade` recurs through the store, and is given one level for each speedup that
-- waits for dispatch and one for the transaction itself (`cascade_fuel`). The loop of
-- `build_speedup`, which ends when the built size stops growing, takes fuel from its callers, up to
-- `tick`: where the builder's transactions have at most `bound` vbytes, `2 * (bound + 1)` rounds are
-- enough. The walk of `remove_replaced_rbf` along replaced RBFs, which ends unless the chain of
-- replacements is cyclic, is given a round for each stored record and one more. Running out is the
-- error `out_of_fuel`, which no method of the code returns.
--
-- Left out: log lines, the texts of messages beyond their fixed part, `new_with_paths` (it wires
-- the crates together), `Config::load_config`, and failures of the storage backend, which is taken
-- to be a reliable map whose prefix scan returns its records in some order (`Scan`). A `HashSet` is
-- a list in order of insertion.
mod Common
pub mod Types
pub mod Config
pub mod Helper
pub mod Storage
pub mod Outside
pub mod Fee
pub mod World
pub mod Funding
pub mod Dispatcher
pub mod Engine
pub mod Coordinator
pub mod Invariant
mod Tests
