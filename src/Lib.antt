-- ===== src/Lib.antt =====
-- LaunchDarkly server-side SDK for Go: the data stores, the data system, the update sink, the
-- migrations, and the evaluation of flags by the client.
--
-- The program receives flags and segments from LaunchDarkly, keeps them in a store and evaluates flags
-- from it. A data source gives a full data set or single updates to the update sink, which writes the
-- data store, keeps the graph of the references between items, tells the listeners which flags may have
-- changed, and keeps the status of the data source. In the newer data system a store of two tiers takes
-- the events of the FDv2 protocol instead. A migrator runs the application's old and new functions by
-- the stage of a migration flag, and records what it did in a tracker, from which an event is built.
-- A persistent store is reached through a wrapper with a cache, whose poller watches for the end of an
-- outage. The client evaluates a flag between the stages of the application's hooks, falls back to the
-- default value, and makes snapshots of all flags.
--
-- Files and code:
-- - Prelude and its children: Boolean tests, integers over the native numbers, equality as an
--   interface, and Go's maps as association lists, with the lemmas that the components share.
-- - Types: subsystems/ldstoretypes/data_store_types.go, internal/datakinds, and the DataStore interface
--   of subsystems/data_store.go as a record of operations. DataStore: the contract of that interface.
-- - MemoryStore: internal/memorystorev2/memory_store.go. A method is a function from the store to its
--   result and the new store. A payload is a type that is never inspected.
-- - InMemoryDataStore: internal/datastore/in_memory_data_store_impl.go.
-- - Proto: internal/fdv2proto (events.go, event_to_storable_item.go, selector.go, payloads.go).
-- - Toposort: internal/toposort/toposort.go.
-- - DataSystem: internal/datasystem/store.go, over a MemoryStore and any DataStore.
-- - Dependencies: internal/datasource/data_model_dependencies.go.
-- - UpdateSink: internal/datasource/data_source_update_sink_impl.go, over any DataStore; the status and
--   the outage tracker are in UpdateSink/Status.
-- - Broadcasters: internal/broadcasters.go, with numbered channels.
-- - Persistent: internal/datastore/persistent_data_store_wrapper.go (Persistent/State, Wrapper), its cache
--   and keys (Cache, Keys), data_store_status_poller.go and data_store_update_sink_impl.go (Poller), and
--   the serialization of items, with internal/datakinds/data_kinds_impl.go (Codec); the other files of the
--   folder are about what is read after writes, failures, and the polling.
-- - DataSource: internal/datasource: helpers.go, polling_data_source.go (DataSource/Polling) and
--   streaming_data_source.go (DataSource/Streaming), over any DataSourceUpdateSink; and of
--   internal/datasourcev2 the streaming source (DataSource/Fdv2) and the polling (DataSource/Fdv2Polling),
--   over any DataDestination. Parsed events and answers of requests are their input.
-- - Hooks: internal/hooks (runner.go, iterator.go, evaluation_execution.go).
-- - FlagTracker: internal/flag_tracker_impl.go, over a Broadcaster.
-- - FlagState: interfaces/flagstate/flags_state.go.
-- - Client: ldclient.go: the evaluation with its fallbacks and events (Client), the typed methods with
--   the hooks (Client/Variations, Client/Methods), and AllFlagsState (Client/Flags); the scopes of
--   ldclient_events.go, and the data availability of internal/datasystem/fdv1_datasystem.go.
-- - Migration: migration_op_tracker.go (Migration/Tracker), migrator.go and migrator_base.go
--   (Migration/Migrator), migrator_builder.go (Migration/Builder).
-- - Samples: concrete data on which the theorems are applied.
--
-- Conventions:
-- - Each method that holds its lock from its first access to its last is one step. Interleavings are
--   sequences of such steps.
-- - Go leaves the order of a range over a map open: it is a parameter, of which only is known that each
--   entry is met once.
-- - Other repositories' code is a parameter: the data model of the evaluation engine (LdModel), the
--   flags, contexts and the sampler (TrackerModel), the client, its clock and the application's functions
--   (Client, MigratorImpl), the persistent store (DataStore, PersistentDataStore), go-cache (GoCache, with
--   its documented behaviour in CacheLaws and NeverExpires), the JSON of items (ItemModel, Faithful), the
--   evaluation engine (Engine) and the hooks.
-- - Time is a number given to each handler. A version is an integer without a bound: versions are only
--   compared.
-- - sort.Slice is the insertion sort that it runs on slices of up to twelve elements; the data sets have
--   one collection for each data kind.
--
-- Fuel: addWithDependenciesFirst takes an item out of the map at each call, so the size of the map is
-- enough; the outer loop likewise. addAffectedItems adds a vertex at each call that recurs, and follows
-- edges of vertices with an entry in the graph, so the number of those entries, and one more, is enough.
-- The loop over the hooks takes one more than their number: one test for each hook and one at the end.
--
-- Not modelled: network, file and stream input (the parsing of events, the requests, ldhttp, ldntlm,
-- ldfiledata, ldfilewatch), JSON, logging, the wiring in ldclient.go and ldcomponents, big segments,
-- telemetry, test support, waiting for room in a channel, waitFor of the update sink, which blocks on one, and the
-- callers that join a running query of the persistent store.
pub mod Prelude
pub mod Types
pub mod MemoryStore
pub mod DataStore
pub mod InMemoryDataStore
pub mod Proto
pub mod Toposort
pub mod DataSystem
pub mod Migration
pub mod Dependencies
pub mod UpdateSink
pub mod Broadcasters
pub mod Samples
pub mod Client
pub mod DataSource
pub mod FlagState
pub mod FlagTracker
pub mod Hooks
pub mod Persistent
