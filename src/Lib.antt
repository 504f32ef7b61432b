-- ===== src/Lib.antt =====
-- eth-tracker: a service that follows an EVM chain, block by block, and publishes an event for each
-- log, each reverted call and each contract creation that concerns a tracked address.
--
-- The parts and how they interact. The syncer and the backfill push block numbers to a worker pool.
-- A worker calls the processor on a block: it fetches the block and its receipts, asks the cache
-- whether an address is tracked, and hands logs, reverted calls and contract creations to the
-- router. The router finds a handler by the first topic of the log or by the selector of the call.
-- The handler decodes the arguments, updates the cache, and calls back with an event for the
-- publisher. If all of that succeeds, the processor marks the block in the block store. The
-- backfill reads from the store which blocks between the two bounds are not marked, and pushes them
-- to the pool again. Before that, the start of the service fills the cache from the registries on the
-- chain and from the lists of the configuration, and sets the bounds in the store.
--
-- A call that reads and changes the state is a function from a state to a result and a state
-- (Exec). The state is any type with a place for the block store and for the cache (Exec/Lens);
-- what was done before an error stays done. `Result` has the value, a Go error, the end of the
-- process by a run-time panic or by `os.Exit`, and `diverges` for a loop that is still running when
-- the fuel is used up. An error is modelled by its wraps, so that `errors.Is(err,
-- context.Canceled)` can be decided. Logging is left out.
--
-- Which file models which code:
--   Event            pkg/event/event.go: the record of an event; Event/Json for Serialize and
--                    Deserialize
--   Router           pkg/router/router.go: New, the three registrations, ProcessLog, ProcessInputData
--                    and ProcessContractCreation
--   Handler          internal/handler/handler.go and within_network.go; the handlers stand in
--                    Handler/Transfer (token_transfer.go), Token (token_approve.go, token_mint.go,
--                    token_burn.go), Index (index_add.go, index_remove.go), Pool (pool_deposit.go,
--                    pool_swap.go), Quoter (quoter_price.go, quoter_updated.go), Account
--                    (custodial_registration.go, ownership.go, seal.go, contract_creation.go) and
--                    Faucet (faucet_give.go)
--   Service/Routes   cmd/service/router.go: all registrations, in order
--   Service/Schema   the contract with the consumers of the events, written down by hand: the type and
--                    the layout of the payload (Handler/Contract, in the terms of Handler/Layouts)
--                    for each first topic and each selector
--   Cache            internal/cache/cache.go (the interface; Cache/Creation for New), xmap.go
--                    (Cache/MapCache) and bootstrap.go (Cache/Bootstrap)
--   Db               db/db.go (the interface) and db/bolt.go (Db/Bytes for the encoding, Db/Bolt for
--                    the operations, Db/Open for NewBoltDB and for New of db.go)
--   Chain            internal/chain/chain.go: the calls that the processor makes; eth_rpc.go (Chain/Rpc)
--   Processor        internal/processor/processor.go: the block, its receipts and their events
--   Pool             internal/pool/pool.go: Push and Size as a parameter; Pool/Queue has the task that
--                    Push submits, and what pond documents of its queue
--   Publisher        internal/pub/jetstream.go: Send; Publisher/Connect for NewJetStreamPub and Close
--   Syncer           internal/syncer/syncer.go: New up to the dialling; realtime.go: queueRealtimeBlock,
--                    the loop of a subscription (Syncer/Realtime), and subscribing again
--                    (Syncer/Renewal)
--   Backfill         internal/backfill/backfill.go: one run, its two loops, and a tick; Backfill/Loop for
--                    the loop of Start
--   Stats            internal/stats/stats.go: the latest block, the report and the printer
--   Api              internal/api/api.go: the routes and what their handlers write
--   Config           the settings as main reads them; Config/Env for internal/util/init.go
--   Running          cmd/service/main.go: how the parts are put together, and the steps that they make
--                    side by side; Running/SetUp for main up to its routines, Running/Start for the
--                    bootstrap, the syncer and the first run, Running/Shutdown and Running/Stopping for
--                    the end; Running/Interleaving for ProcessBlock of internal/processor/processor.go
--                    call by call
--   Eth              the values of go-ethereum, and what the service calls of it
-- Handler/Emits, Keeps, Ends and Filter, Router/Dispatch, Service/Follows, Emits, Keeps, Ends and
-- Shadowed, Processor/Receipts, Emits, Marks, Visits, Subjects and Ends, Db/Keys, Missing, Values,
-- Reads, Increasing, Bounds and Cleanup, Backfill/Push, Run and Keeps, Syncer/Bounds,
-- Cache/MapCache/Tracking, Cache/Bootstrap/Lists, Keeps, Entries and Ends, Publisher/Ids, Stream and
-- Connections, Stats/Reports, Config/Required, Config/Env/Keys and Values, Running/Marks, Tasks, Rounds, Returned,
-- Configured, Reopened and Serving, and Running/Interleaving/Alone and Marks hold proofs.
-- Publisher/Subjects has which subjects a stream takes in. Tests has concrete states and packages to
-- which the theorems are applied.
--
-- The steps of the running service (Running.Step) are the queueing of a new block, a tick, and a
-- worker that completes the oldest task at once. In the moves (Running/Interleaving.Move) a worker
-- only takes the oldest task, and then goes on whenever it is its turn, up to its next fetch, the next
-- receipt, or the write to the store: the moves of others may come in between, but not within the
-- processing of one receipt; and a tick reads the store at one moment. A step or move may follow
-- any other. In the model they go on after a call that ends the process; there the theorems say
-- nothing of the service.
--
-- Code of other packages is a parameter with its documented behaviour: the decoding by w3 and the
-- texts of addresses and hashes (Eth), the concurrent map (Cache/MapCache.XMap), the bitset
-- (Db/Bitset), the registries and their iterators (Cache/Bootstrap.Registries), the queue of pond
-- (Pool/Queue), the stream (Publisher.JetStreamPub, Publisher/Stream.Deduplicates), the NATS client
-- (Publisher/Connect.Nats, Publisher/Connections), the settings of koanf (Config.Settings), the
-- objects of encoding/json (Event/Json.Codec), the batches of the JSON-RPC client (Chain/Rpc.Client),
-- and the bucket of bbolt with transactions that may fail to open or to commit (Db/Bolt.Bolt). What a
-- cursor returns while the bucket is changed is left open there. The value of a `Get` is assumed to
-- stay as it was after its transaction.
--
-- Numbers are natural numbers; a block number is a uint64, below 2^64, and the counters of the two
-- loops over blocks wrap around. `Set` of a bitset panics on the largest uint64, its capacity. Fuel:
-- the loop over the range of blocks has 2^64+1 rounds, more than it can make before it ends or panics;
-- the rounds of the backfill are the batch size and two more, since each pushes a block at least; the
-- loop over the batches of an index has one round more than the iterator has batches left, of which
-- there are finitely many; printing a number has as many rounds as its value.
--
-- The loop of a subscription is run on the list of what happens: a header is sent, or the `select`
-- picks a case. Headers that were sent and are not taken are kept in order, whether in the buffer of
-- the channel or with the client.
--
-- Not modelled: closing the database file, when go-ethereum subscribes again, the closing of the
-- channels that end the loops, what koanf does in its two loads, the logger, serving HTTP, the signals
-- and the time limits of the shutdown. They are calls of libraries, or parts on which the modelled ones
-- do not depend. The batch size of the backfill is a natural number; with a negative one a run that
-- finds a missing block panics.
pub mod Prelude
pub mod Result
pub mod Exec
pub mod Eth
pub mod Event
pub mod Cache
pub mod Router
pub mod Handler
pub mod Service
pub mod Db
pub mod Chain
pub mod Config
pub mod Api
pub mod Stats
pub mod Processor
pub mod Pool
pub mod Backfill
pub mod Publisher
pub mod Syncer
pub mod Running
pub mod Tests
