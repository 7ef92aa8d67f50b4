-- ===== src/Lib.antt =====
-- The data stores of httk: leases of the MongoDB store, OPTIMADE filters, federated queries and
-- schema upgrades.
--
-- src/httk/store keeps typed records in SQL or MongoDB databases and searches them through one
-- neutral protocol (query/protocols.py). OPTIMADE filters are translated to that protocol
-- (query/optimade_filters.py), and a federation runs one query over several stores
-- (federated_store.py). Writers of a MongoDB store and its consistency check keep out of each
-- other's way by lease documents (backend/mongo/leases.py).
--
-- Prelude passes on the library's names and adds tests, lists, results and integers on the native
-- numbers, comparisons (Prelude/Comparison), permutations and slices of lists.
--
-- Leases models backend/mongo/leases.py. MongoDB is a record of the operations that the code calls
-- (Leases/Server), with their documented behaviour as laws (`Documented`); Leases/Memory is a
-- server in memory with these laws. Leases/Actions has `LeaseTiming`, `Lease.refresh_heartbeat`,
-- `Lease.release`, the two document queries and `clear_stale_lock`. Leases/Writer and Leases/Fsck
-- are `acquire_writer` and `acquire_fsck` as state machines with one step per database call, since
-- the processes interleave between calls; Leases/System is the step relation of a writer, an fsck
-- run and other processes. A process's clock, its monotonic time and the time between its calls
-- are arguments of a step. `MongoStore._refresh_writer_lease` and the release in `MongoStore.save`
-- (backend/mongo/store.py) and in `fsck_store` (backend/mongo/fsck.py) are steps too. `Timely`
-- says that the writer's last heartbeat is younger than the stale age when the fsck run looks.
--
-- Query/Truth has the truth values of a search with missing values.
--
-- Filters models query/optimade_filters.py. A parsed filter is a tree (Filters/Syntax) with the
-- operands that the parser of httk-core makes; search expressions are the trees of the calls to
-- the neutral protocol. Filters/Decimal and Filters/Texts stand for Python's `Decimal` and text
-- methods. Filters/Values is `format_value`, whose arguments are a node or a tuple of nodes; an
-- exception is a value, and one that is not a `FilterTranslationError` is `type_error`.
-- Filters/Handlers has the handlers, Filters/Tables the handler tables and `filter_searcher`, and
-- Filters/Settings and Filters/Translate `translate_filter_ast`. Its recursion on a rewritten
-- relationship test has depth one, since the rewritten node tests the `id` of a relationship, so
-- `translate_rewritten` needs no fuel. `timestamp_handler` is an argument. Filters/Meaning
-- evaluates an expression on a row whose fields answer in `Truth`.
--
-- Federation models federated_store.py. A child store is a record of the
-- search operations, each of which may raise (Federation/Child). A generator is the stream of what
-- it yields, then a stop or an exception (Federation/Stream). Federation/Plan is one source up to
-- its iterator, Federation/Execute is `_execute_plan`, Federation/Count is `_count_plan` with the
-- count caches as a heap, since slices share one, and Federation/Results is `FederatedResultSet`.
-- Streams are finite, as are the rows of a store. Federation/Builder and Federation/Calls are
-- `FederatedSearcher`, whose calls may raise after they have changed it; a new count cache is the
-- next number.
--
-- Evaluator models backend/mongo/evaluator.py, which decides predicates on hydrated records. What
-- it asks of Python's objects, of codecs and of fractions is a record of operations (`Objects`).
-- Evaluator/Syntax has scopes, values and predicates, each with the operands that its kind has;
-- Evaluator/Compare is `_compare` with the exact keys, Evaluator/Evaluate the mutual `_items`,
-- `_eval_value` and `_eval_predicate`, and Evaluator/Root is `evaluate`. The stack of
-- `_root_scope` is a recursion in the order in which the stack is emptied. An encoding may raise an
-- exception that `_exact_key` does not catch, and a key may have no hash; attributes, content ids,
-- timestamps and `==` of objects are taken to return.
--
-- Clock models store_timestamp.py: Clock/Capture has `capture_store_timestamp`, with the readings
-- of the clock as arguments, and `advance_store_timestamp_mark`; Clock/Order composes them into
-- the sequence of saves of a store, as `MongoStore` (backend/mongo/store.py) does. Clock/State has the
-- persisted configuration. Of what Python's `int` reads it has the texts of decimal digits, since the
-- code refuses every text that `str` does not print. `digits` has one more round than the number,
-- and a number has no more digits than that.
--
-- StoredFederation models backend/sql/stored_federation.py, which serves one entry family from
-- several stores. StoredFederation/Candidates has the candidates and their sort keys,
-- StoredFederation/Merge the heap merge, StoredFederation/Select `_unsorted_candidates` and
-- `_sorted_candidates`, StoredFederation/Sources the constructor, StoredFederation/Streams
-- `_streams`, StoredFederation/Bounds the checks of arguments, StoredFederation/Probes the probes for
-- duplicates, StoredFederation/Query `query` and `fetch`, StoredFederation/Batches
-- `_BatchedCandidateIterator`, StoredFederation/Audit `audit_duplicate_ids` and
-- StoredFederation/Cutoff `snapshot_cutoff_ns`. A heap is the list of its entries in the order of
-- `heappop`. A plan (`StoredPropertySqlPlan`) and the order of sort values are parameters; a searcher
-- is its rows and its count, and an offset and a limit cut the rows. The loops of the merge have as
-- many rounds as there are candidates, or as the target asks for; a call of an iterator has two. The
-- filters `id = …` and `id > …` that the code prints are constructors of `Condition`. The rendering
-- of records, the width check of rows and the checks of argument types are left out.
--
-- StorageLayout models storage_layout.py. StorageLayout/Upgrade/Fingerprint has parsed fingerprints,
-- whose remaining values are a type with decidable equality; StorageLayout/Upgrade/Classify is
-- `classify_schema_upgrade` and `schema_fingerprint_diff`, with the rejection messages as
-- constructors. A stored fingerprint that is absent or cannot be parsed is `none`.
-- StorageLayout/Closure is `_walk_closure`, with the referenced classes of a class as a parameter
-- and the depth of calls as fuel: there are no more nested calls than classes.
-- StorageLayout/Families is `_normalize_entry_families`, `_storage_layout` and
-- `_merge_storage_layouts`, and StorageLayout/Families/Registered is `normalize_entry_records`, with
-- the registry and the schemas of classes as a parameter; classes are numbers, and names are lists
-- of code points. The checks that a name has no white space around it, and that a class is a frozen
-- dataclass, are left out.
--
-- Not modelled: the printing of predicates, the conversion of timestamp operands, the expression proxies of
-- federated queries, the other SQL stores, which are statements for SQLAlchemy, the resolution and
-- declaration of schemas, the documents and
-- pipelines of the MongoDB store, and the encoding of records.
pub mod Clock
pub mod Evaluator
pub mod Federation
pub mod Filters
pub mod Leases
pub mod Prelude
pub mod Query
pub mod StorageLayout
pub mod StoredFederation
