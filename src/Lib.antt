-- ===== src/Lib.antt =====
-- pg_grpc: gRPC calls from PostgreSQL, at once or through a queue.
--
-- The extension's parts. A call names an endpoint and a method, and may come with metadata and
-- options; TLS settings are one of the options. A synchronous call runs in the session. An
-- asynchronous one is a row of `grpc.call_queue`, which a background worker takes out in batches,
-- runs, and answers by a row of `grpc._call_result` in the same transaction; the session looks the
-- row up by the id it was given. The descriptors of a service come from the server's reflection or
-- from `.proto` files, which a session stages, compiles and so registers.
--
-- Which file models which part:
--   Common, Text, HashMap, Json   what the program uses of Rust's library and of serde_json: tests,
--     `Result` with `?` as a bind, `str`, `HashMap` behind its laws, and JSON values. The numbers
--     of serde_json are a parameter (`Json.Numbers`), with the documented range of `as_i64`.
--   Errors            src/error.rs
--   Guc               src/guc.rs, less the registration of the settings with PostgreSQL
--   Endpoint          src/endpoint.rs, `validate_endpoint`
--   Call.Method       src/call.rs, `parse_method`
--   Call.Metadata     src/call.rs, `apply_metadata`; tonic's keys and values are `MetadataCodec`
--   Call.Network      what src/call.rs uses of prost-reflect, serde_json, http and tonic: the
--     parameter `Libraries`
--   Call.Codec, Call.Messages   src/call.rs, `RawBytesCodec`; `resolve_method`, `encode_request` and
--     `decode_response`
--   Call.Async        src/call.rs, `call_async` and `unary_call` with `get_or_connect` in them, cut at
--     their `.await`s into `begin` and `resume`
--   Call.Timed        src/call.rs, `tokio::time::timeout` around `call_async`, and `make_grpc_call`;
--     a `Schedule` tells when replies come, whether that is in time, and what other calls make of the
--     caches meanwhile
--   Call.Row          src/call.rs, `call_async_row`
--   Call.Tasks        the calls of one process, each by its pieces, as a step relation on the shared
--     caches
--   Tls               src/tls.rs; tonic's `ClientTlsConfig` is the parameter `Tls.Build.TlsBuilder`
--   Options           src/options.rs
--   ChannelCache      src/channel_cache.rs; tonic's transport is the parameter `Transport`, and what
--     other calls make of the cache while one connects is an argument
--   Staging           src/proto_staging.rs; `Extension.Stage` has the SQL functions of src/lib.rs on it
--   Registry          src/proto_registry.rs
--   Proto             src/proto.rs, `compile_proto_files` and `backfill_wkts`; protox and
--     prost-reflect are the parameter `Descriptors`; `Extension.Register` has the SQL functions of
--     src/lib.rs on the registry
--   Proto.Fetch       src/proto.rs, `fetch_pool`; the reflection client is the parameter `Reflection`
--   Queue             src/queue.rs over the tables of src/async_schema.rs, and the INSERT of
--     `grpc_call_async` in src/lib.rs; `Queue.Store` has the writes to `grpc._call_result`
--   Worker            src/worker.rs, the inner loop of `grpc_async_worker`
--   Extension.Enqueue  src/lib.rs, `grpc_call_async`
--   Extension.Fetch   src/lib.rs, `grpc_call_result`; the tables that its polls see are an argument
--   Extension.Sync    src/lib.rs, `grpc_call`; its child EndToEnd joins `grpc_call_async`, the worker
--     with `call_async_row` as its tasks, and the look-up
--   Wake              src/shmem.rs, `wake_worker_on_commit` of src/lib.rs, and the exit hook of
--     src/worker.rs; `Wake.System` has the worker's start, outer loop, SIGHUP and exit, the commits
--     of sessions and the steps of their callbacks as one relation; `Wake.Fair` has the rounds and the
--     commits between them
-- Each function has its source's name. Theorems stand in the children named Laws, Bounds, Dequeue,
-- Results, Lookup, Batch, Headers, Rounds, Kept, Drain, Ids, Answered, Connects, Finds, Steps, Resumes,
-- Fails, InTime, Late, Warm, Shared, Pools, EndToEnd, Backfill, History, Ahead, Awake, Safety and
-- Progress, and runs of the code in those named Tests, on the concrete network of
-- `Call.Network.Sample`.
--
-- How state is modelled. A map behind a lock, and the tables of the database, are arguments and
-- results of the functions that change them. A table is the list of its rows in the order of a scan;
-- an SQL statement is a function on it with the constraints of its table, and an SQL error is `none`.
-- `pgrx::error!` is the result `err`. An id of a call is a natural number: `bigserial` starts at 1.
-- `timeout_ms` of a row is a signed word, by `as i32` and `as u64` (`Common.Int`).
-- What PostgreSQL makes of an interval and which results it accepts (jsonb has no character U+0000),
-- and what tokio makes of a task, are parameters (`Worker.Runtime`): the cut-off of a clean-up or the
-- ERROR that it raises, the results that an INSERT can store, the result of each task or its panic,
-- the order in which tasks complete, the clock of each round and when SIGTERM arrives.
--
-- Fuel. `Worker.drain` allows a number of rounds; one more than there are calls in the queue is
-- enough while no new calls arrive. `Call.Timed.run` allows four waits, for the channel, the
-- descriptors, the client and the response, which a call never exceeds; the several reads of a
-- reflection stream count as one wait, since the call changes nothing shared between them.
-- `Extension.Fetch.wait` allows a number of polls; one more than find the call pending is enough.
-- `Text.display` allows one digit more than the value of its number, which is never too few.
--
-- Not modelled: `_PG_init` of src/lib.rs and the registration of the settings in src/guc.rs, which are
-- calls into PostgreSQL; the tests, and the website. Of tonic, that a channel belongs to the runtime
-- on which it was connected, and of the transport how it keeps a limit on messages. Calls that arrive
-- while the worker drains the queue are not part of `Worker.drain`, but of `Wake.Fair` and of
-- `Wake.System`, whose steps are atomic and see one memory: a session's commit, a load or store of the
-- shared memory, a round's transaction. PostgreSQL sets the latch of a process that it starts, and a
-- worker whose start fails has not yet its exit hook. `Worker.drain` and `Wake.Fair` run under one
-- setting of the batch size and the TTL, which a worker loads anew only outside its inner loop, in
-- `Wake.System`.
pub mod Common
pub mod Text
pub mod Errors
pub mod Endpoint
pub mod Call
pub mod Json
pub mod Tls
pub mod Options
pub mod HashMap
pub mod Staging
pub mod Registry
pub mod Extension
pub mod Queue
pub mod Worker
pub mod ChannelCache
pub mod Proto
pub mod Guc
pub mod Wake
