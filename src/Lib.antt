-- ===== src/Lib.antt =====
-- A limit order book with pluggable allocation policies and level stores (the crate under src/).
--
-- Parts, and the files that model them:
--   * src/instrument.rs, the tick and lot grid: `Instrument` (the specification and admission) and
--     `Instrument.Convert` (decimals to the grid and back, with the least notional in
--     `Instrument.Convert.Ceiling`), and `Instrument.Configured`, what the constructors lead to.
--     `rust_decimal` is the parameter `Decimal`.
--   * src/allocation.rs, who is filled within one level: `Allocation`, with a child for each matcher
--     (`Fifo`, `ProRata`, `TimeProRata`), and `Allocation.Contract`, the contract that
--     `debug_assert_fills` of src/matching.rs checks.
--   * src/types.rs: `Side`, `Types` (ids, orders, the builder's `build`), `Types.Builder` (its
--     setters), `Types.Ids` (the text of an exchange id) and `Types.Level` (owned levels).
--   * src/order_queue.rs, the linked queue of a level in a shared arena: `OrderQueue`, with the queue
--     as a list in `OrderQueue.Chain`, and a child for each operation. `slotmap` is the parameter
--     `SlotMap`, with the laws `IsSlotMap`; `OrderQueue.Arena` is an instance.
--   * src/storage.rs, the levels: `Storage` (the trait as a record), `Storage.Ladder` (its contract,
--     and lists of levels) and the three stores, `Storage.BTree`, `Storage.HashMap` and
--     `Storage.TickLadder`, each with `Refines`, that it fills the contract.
--   * src/orderbook.rs, the book and its index: `OrderBook`, over any slot map and store;
--     `OrderBook.Index`, where an id is; `OrderBook.Contents`, what a book holds and when its parts
--     agree; `OrderBook.Held`, a book while one level's queue is worked on apart, and
--     `OrderBook.Reindex`, its index; `OrderBook.StopQueues`, the stop books as maps;
--     `OrderBook.Rest`, `OrderBook.Cancel` and `OrderBook.Runs`, that the parts go on to agree;
--     `OrderBook.View`, depth and borrowed levels (`PriceLevelView` of src/types.rs).
--   * src/matching.rs: `Matching` (reports), `Matching.Sweep` (the sweep of one side) and
--     `Matching.Engine` (`submit` and the stops); `Matching.Trades`, `Matching.Halts`,
--     `Matching.Fillable`, `Matching.FillOrKill`, `Matching.Priority`, `Matching.Stops`,
--     `Matching.Execute`, `Matching.Activate` and `Matching.Cascade` are proofs, as are
--     `Matching.Safe`, the sweep on a book whose parts agree, `Matching.Full`, the sweep of orders in
--     whole lots, and `Matching.Sound`, `submit` on a book whose parts agree; `Matching.Sound.Session` has the books that the public operations lead to.
--   * `Prelude`: shared helpers, with the wrap-around of u64 and u128 in `Prelude.Words` and facts
--     about whole lots in `Prelude.Lots`.
--
-- Numbers: machine integers are natural numbers, and every addition, subtraction and multiplication
-- of the code that could leave its type is written with its wrap-around (a release build). The loop
-- of `TimeProRataMatcher` takes one unit of fuel for each maker of the level and one more, since
-- every round but the last caps a maker.
-- The loops of the queue take one unit for each entry and one more, the sweep one for each opposing
-- level and one more, `execute` two, and the cascade of stops one for each pending stop and one more.
--
-- A panic of the code is `none` or the fault `panic`; an operation that fails with an error returns
-- the book as the code leaves it. A reference to a level is a read and a write back. Whether
-- the allocator can give `TickLadderStore` its slots is a parameter. A usize has 64 bits.
-- Not modelled: plain accessors, which are the fields of a record; tests and benchmarks. The debug
-- assertions of the sweep are not run (a release build); `Matching.FillOrKill.Whole` states when the
-- one of a fill-or-kill order holds.
pub mod Prelude
pub mod Side
pub mod Instrument
pub mod Allocation
pub mod Types
pub mod OrderQueue
pub mod Storage
pub mod OrderBook
pub mod Matching
