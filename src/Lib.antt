-- ===== src/Lib.antt =====
-- The key/value server of the FLEDGE key value service: its cache, the loading of data into it, the set
-- queries over it, the lookups that answer from it, sharded or not, and the handlers of requests.
--
-- Parts, and how they meet. The data orchestrator (components/data_server/data_loading) reads snapshot and
-- delta files and turns their records into calls of the cache (components/data_server/cache): updates,
-- deletions and cleanups, each with a logical commit time; calls arrive in any order. The names of
-- new delta files come from the notifier (components/data/blob_storage) into the orchestrator's queue.
-- The lookups of components/internal_server read the cache: LocalLookup from the server's own cache, ShardedLookup from
-- the cache of every shard, through the clients that the shard manager (components/sharding) keeps. A
-- query of sets is parsed into the tree of components/query, whose keys are fetched before it is
-- evaluated. The handlers of components/data_server/request_handler answer from the cache or through
-- the user defined functions (components/udf), whose code comes with the records of the files.
--
-- Files. Each file's own comment names the code that it is about.
-- - Base: shared names, Boolean tests on native numbers (Base/Tests), lists (Base/Lists), signed integers
--   (Base/Ints), the order of strings (Base/Strings), and association lists for the hash maps and
--   hash sets (Base/Maps).
-- - Cache/State: the fields of KeyValueCache (components/data_server/cache/key_value_cache.h).
--   Cache/KeyValue and Cache/Sets: its operations on single values and on value sets
--   (key_value_cache.cc, get_key_value_set_result_impl.cc), one function for each method and one for
--   each loop or loop body. Cache/Run: the calls of cache.h and sequences of them.
-- - Query/Sets, Query/Ast, Query/Driver: sets.h, ast.h with ast.cc, driver.h with driver.cc of
--   components/query.
-- - Lookup/Types, Lookup/Local, Lookup/Padder, Lookup/Sharded: lookup.proto with lookup.h,
--   local_lookup.cc, string_padder.cc and sharded_lookup.cc of components/internal_server. Lookup/Server:
--   lookup_server_impl.cc and remote_lookup_client_impl.cc, the lookup between two servers.
-- - Sharding/ShardManager: shard_manager.cc of components/sharding. Sharding/Lookups joins it to the
--   sharded lookup. Sharding/AsgName and Sharding/ClusterMappings: cluster_mappings_manager.cc.
-- - Loading/Records, Loading/Files: data_orchestrator.cc of components/data_server/data_loading, the
--   effect of records and the loading of files; Loading/Queue: the same file while the server runs, its
--   queue and its thread; Loading/Retry: components/errors/retry.h and retry.cc; Loading/Notifier:
--   components/data/blob_storage/delta_file_notifier.cc. Loading/Filenames:
--   public/data_loading/filename_utils.cc with the forms of public/constants.cc.
-- - Reader/Shards: the concurrent reader of public/data_loading/readers/riegeli_stream_io.h.
-- - Handlers/GetValues, Handlers/GetValuesV2, Handlers/Adapter: get_values_handler.cc,
--   get_values_v2_handler.cc and get_values_adapter.cc of components/data_server/request_handler, over
--   the interface Handlers/Json to the JSON library.
-- - Udf: components/udf/udf_client.cc, the client that the records with code and the handlers use.
-- - Storage/Streambuf: components/data/blob_storage/seeking_input_streambuf.cc.
-- - Tests: runs of the definitions on small inputs, and an instance of each theorem.
--
-- Choices. A logical commit time is an int64_t that is only compared and copied; it is kept as the
-- native number t + 2^63, which has the same order. Maps are association lists with the find, insert
-- and erase of the hash maps; their order is that of insertion, and no theorem that is listed below
-- depends on it. std::multimap and btree_map are lists in the order of their keys. A method that holds
-- its mutex throughout is one step on the state; UpdateKeyValueSet and DeleteValuesInSet, which change
-- from the lock of the map to the lock of the key, are one step too, so what another thread may do
-- between the two locks is not modelled. The records of a file are processed in one order, that of a list;
-- the threads of the concurrent reader race for the greatest commit time and the statistics, which is
-- not modelled. Metrics, logging, latency recording and status messages are left out. The loops of
-- ast.cc over an explicit stack run on fuel; the number of nodes of the tree is enough for every
-- tree, which is part of what is shown of them. So do the loop of BuildShards, for which the size of the
-- stream is enough, and those of RetryableWithMax and of underflow, for which the theorems say how much
-- is. All other loops are over lists. The threads of the orchestrator are events in any order, of
-- which one is a whole attempt to load a file; the notifier is a list of rounds of its loop.
--
-- Arguments. What is not source of this repository is an argument: the generated parser (a function
-- from the query to its outcome), the string that a move leaves behind, the hash function, the
-- serialisation of protobuf messages, the reader and the writer of QUICHE (a record with their
-- documented laws), the random generator, the cloud's description of the instances, and the contents
-- of the data bucket as the Riegeli reader gives them. So are, for the sharded lookup, the clients of
-- the other shards, for the client, the call over gRPC and the oblivious HTTP encryption of
-- components/data_server/request_handler, which calls QUICHE, and the client of the user defined
-- functions; for that client, Roma, which runs the code; for the request handlers, the JSON library (an
-- interface), JsonStringToMessage, the split of a string and the concatenator of compression groups;
-- for a stream, the size and the chunks of its blob; for the notifier, the clock's flag, the
-- notifications and the listings; for a retry, the function and the wait. A padded size is taken to fit an int where that is said.
--
-- Not modelled: the clients of the cloud, the thread that renews the cluster mappings, the hooks of the
-- user defined functions, the compression and the encryption of responses, the record codecs,
-- configuration, telemetry and the command line tools.
pub mod Base
pub mod Cache
pub mod Query
pub mod Lookup
pub mod Sharding
pub mod Loading
pub mod Reader
pub mod Storage
pub mod Handlers
pub mod Udf
mod Tests
