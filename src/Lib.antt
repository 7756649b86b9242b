-- ===== src/Lib.antt =====
-- A model of the core of cqserver, a server of continuous queries with message queues, written in
-- Rust, and what makes it correct.
--
-- Prelude (files in Prelude/) has what the other modules share: Boolean tests on the native
-- numbers, lists, association lists for the HashMaps and DashMaps of the source, signed integers.
--
-- Queue models crates/cq-transport/src/queue.rs, the competing-consumer queue. Queue/State has the
-- data: Message is QueueMessage, Lease is LeaseRecord, Inner is QueueInner (what the mutex guards).
-- Queue/Buffer has insert_by_priority, evict_one_for_cap and the eviction loop of
-- publish_with_opts; Queue/Routing has pick_consumer_for and pick_next_consumer_excluding;
-- Queue/Delivery has deliver, deliver_with_lease and the parts of a sweep's round; Queue/Operations
-- and Queue/Settings have the public operations. An operation maps a queue to a queue and the list
-- of its events, which are the frames handed to a session's channel (with how that ended) and the
-- messages that the queue gives up. The session registry, the clock's reading (in milliseconds) and
-- serde_json's constructors are parameters. Leases stand in an association list, in any order, for
-- the order in which a HashMap yields them is not fixed. A step of the model is an operation under
-- one clock reading; where the source takes the lock twice in one operation the model runs the
-- parts in sequence. sweep_expired is sweep_expired_with_queues without a registry of queues, as
-- every publication calls it; sweep_expired_with_queues works on the whole registry of queues,
-- since it publishes to another of them. The loop of evictions runs on fuel, and the length of the
-- buffer is enough, since a round removes a message or the buffer is empty.
--
-- Limits models crates/cq-transport/src/limits.rs, the admission of connections. Limits/State has
-- ConnectionLimits, its guards and try_accept (in three parts: check_rate, the permit, check_ip),
-- try_register_user_session and the drops of the guards; Limits/Tally has the counter maps. The
-- semaphore is a number of permits. Limits/Server adds the guards that are alive, as the source's
-- callers hold them, and runs any sequence of accepts, closes, logons and logoffs. The clock's
-- reading is an argument; that two threads may both reset a window at its end is not modelled.
--
-- Conflation models crates/cq-core/src/conflation.rs, which merges the deltas of a subscription
-- that wait for the next flush. Conflation/Conflator has merge, submit and drain; Conflation/View
-- has what a consumer shows after a list of deltas. The payload of a delta is any type, and for a
-- consumer a whole row; one that merges the partial updates of a sparse subscription is not
-- modelled. A HashMap's drain is the association list in its order.
--
-- Wire models crates/cq-protocol/src/version.rs (Wire/Version) and
-- crates/cq-protocol/src/depth_guard.rs (Wire/DepthGuard, whose loop has its local variables in a
-- record). Wire/Nesting has the reference: the text without its strings, and its greatest depth.
--
-- Predicate models crates/cq-core/src/predicate.rs up to the compiler: the type CompiledPredicate
-- with the expressions in it, the columns that it names, and its evaluation on a row
-- (Predicate/Leaf for the leaves, Predicate/Evaluation for the combinators). Predicate/Values has
-- what it reads of crates/cq-core/src/store.rs: a row maps a column to a Cell, the answers of the
-- store's getters for it, whatever its type. Floats, regular expressions and the case mappings of
-- Unicode are the record Ops. A text is the list of its code points and a HashSet a list. A list of
-- expressions inside an expression is a type of its own (StringExprs, NumExprs). Combinators never
-- reach matches_leaf_bool, whose clauses for them in the source are left out. The compiler from SQL
-- rests on a parser that is not in the repository and is not modelled.
--
-- Spillover models crates/cq-transport/src/spillover.rs, the overflow file of a slow subscriber:
-- its bytes, the two cursors and the count of pending frames. A text frame is the bytes of its
-- text, and which bytes are UTF-8 is a parameter. A disk that fails is not modelled, but a file
-- that ends too early is. Spillover/Fifo has the abstract queue of frames that the file holds.
--
-- SowStore models crates/cq-core/src/sow_store.rs, the store in one shard or several, over any hash
-- of the keys; the listings, which only read, are left out.
--
-- Subscription models crates/cq-core/src/subscription.rs and crates/cq-core/src/predicate_index.rs.
-- Subscription/Rows has what they read of the store (crates/cq-core/src/store.rs) and of a query;
-- State the subscription, Plain the evaluation of a mutation for one without a TOP-N window, Sparse
-- its sparse deltas, TopN that of one with a window, Index the predicate index and Engine the
-- SubscriptionEngine. evaluate_row_kind_indexed is evaluate_row_kind with no changed columns. Rows
-- are written to the store between evaluations, as the events come; the evaluator threads of a
-- topic, which may run behind the writes, are not modelled. A RoaringBitmap and a HashSet are
-- lists, the BTreeSet of ranked rows a list in the order of the keys; the flag that closes a
-- subscription is a field. The body that a delta may carry already encoded, and continuous
-- aggregates, are left out.
--
-- Topic models crates/cq-core/src/topic.rs, the column store it writes
-- (crates/cq-core/src/store.rs) and recover_topic_with_archive of crates/cq-server/src/main.rs.
-- Topic/Values has the conversion of JSON to typed values and to what a column holds, Table the
-- rows of the store, State the topic and the commit of a row, Merging the rows of a publication,
-- Publishing the operations, Runs sequences of them, and Replay those of the journal. The journal
-- is the list of its entries with decoded payloads (crates/cq-txlog/src/lib.rs), a parameter tells
-- which entries its writer takes, and a sparse publication is journaled as it came or as the full
-- row it makes, by the setting sparse_delta_txlog. Instants and durations are numbers of one unit,
-- given to the operations. The fields of a map are scalars, and an integer fits i64. Sequences do
-- not wrap. Parsing and printing of numbers and timestamps and base64 are the record TextOps. Left
-- out are schema discovery, index columns, the throttling of publishers, view taps, snapshots,
-- queries, the capacity of the store and the versions of its rows, which readers retry on.
--
-- But for the sequences of topics, sequence numbers, delivery ids and redelivery counts wrap around
-- at their width. Metrics, tasks and sockets are not modelled.
pub mod Prelude
pub mod Queue
pub mod Conflation
pub mod Limits
pub mod Wire
pub mod Spillover
pub mod SowStore
pub mod Predicate
pub mod Subscription
pub mod Topic
