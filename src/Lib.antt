-- ===== src/Lib.antt =====
-- A verification library for libatapp, the application framework of atframework: models of its
-- components, translated from the C++ sources function by function, and the theorems that make
-- them correct.
--
-- Parts. The worker pool (src/atframe/modules/worker_pool_module.cpp) spreads jobs over threads
-- and changes their number with the load. The etcd client (src/atframe/etcdcli) keeps keys
-- alive, watches key ranges and packs its requests as JSON. An endpoint
-- (src/atframe/connectors/atapp_endpoint.cpp) keeps messages until a connection handle that is
-- bound to it and to a connector is ready. The application core (src/atframe/atapp.cpp) uses all
-- three and is modelled in part, and so is its configuration (src/atframe/atapp_conf.cpp); the
-- connectors for atbus and loopback are not.
--
-- - Prelude: the names that all modules share; Boolean tests on native numbers, lists, signed
-- integers.
-- - WorkerPool: worker_pool_module. Config is reload; Worker and Key are the classes worker,
-- worker_set and worker_compare_key; Resize is do_scaling_up, internal_reduce_workers and
-- internal_autofix_workers; Select is select_worker; Jobs is spawn, rebalance_jobs, stop and the
-- end of a thread; Background is background_job_tick and do_shared_job_on_main_thread; Scaling
-- is tick; Life is the relation of spawns, ticks, resets of a tick interval, the end of reload,
-- stop, cleanup and the moves of the threads, in any order; the rounds of jobs that a worker
-- runs, the registration of tick handles and what reload changes of the configuration and of the
-- intervals are no steps of it.
-- - Etcd.Frame: the cutting of a watch stream into documents,
-- etcd_watcher::libcurl_callback_on_watch_write. Etcd.Watch: the requests of a watcher and what
-- its handler is told, the other callbacks and process of etcd_watcher; Server is about what
-- etcd sends to a watcher, Reached about the requests that follow, Replica about the state that
-- the handler builds up from it, Renewal and Waiting about the order and the times of the
-- requests, Chunks about the stream. Etcd.KeyRange: etcd_packer::pack_key_range. Etcd.Keepalive:
-- the class etcd_keepalive, one key and its requests, with a server that stores the value.
-- Etcd.Cluster: the lists of keepalives of etcd_cluster and its retries. Etcd.Discovery:
-- etcd_discovery_set; Discovery has the maps by id and by name, Metadata the filter by metadata,
-- Ring the two hash rings and the search in them, Cache the index of each rule with what clears
-- it and what fills it.
-- - Endpoint: the queue of atapp_endpoint. Endpoint is push_forward_message,
-- retry_pending_messages, cancel_pending_messages and reset; Account is about its limits,
-- Delivery and Timeout about retries with and without a connection, Cancel about reset.
-- - Config: src/atframe/atapp_conf.cpp. Expression is expand_environment_expression; Template
-- says what an expression is meant to say. Duration is pick_number, at int64_t, and
-- pick_const_data for a duration.
-- - App: src/atframe/atapp.cpp. Id is split_ids_by_string, convert_app_id_by_string and
-- convert_app_id_to_string; Packing is about the bits of the segments, Digits about their digits
-- in decimal and in hexadecimal, Segments about the text. Stop is the suspended stop of
-- module_impl (src/atframe/atapp_module_impl.cpp) and the stop of all modules in
-- app::run_ev_loop; Waits is about whom the application waits for, Deadline about how long. Tick
-- is the compensation of expensive ticks, and Account what it adds up to.
-- - Connection: the two bind helpers and atapp_connection_handle
-- (src/atframe/connectors/atapp_connector_impl.cpp). Connection is their operations; Links is
-- about the two sides of a binding; Bound is about the recursion of close; Ready is about all
-- sequences of operations.
--
-- Conventions. What a connector makes of a message of an endpoint is a function of the message
-- and, in a retry, of the number of sends that are left, which tells the attempts apart. A job
-- is a number and so is the address of a worker, which the parameter alloc gives. A time is a
-- number of nanoseconds of the system clock, or of microseconds where the source has them; one
-- reading of the clock serves for a whole operation. Numbers are natural numbers. Casts to a
-- narrower integer are written out as remainders of a power of 2; sums and products of times in
-- int64_t are not cut off, since the values that overflow them are out of reach of the clock;
-- the number of a duration in text wraps around. A lock makes an operation one step; Life lets
-- steps of threads fall between any two operations.
--
-- Fuel. The loop of expand_expression_impl is on fuel, the length of its text; the digits of a
-- number that is written are on 20, as a number of 64 bits has no more. The loop of the watch
-- callback is on fuel; a chunk needs as much fuel as it has bytes, and every theorem about a
-- sequence of chunks gives each that much.
--
-- Not modelled. What a connector does with a message beyond its result, such as a new sequence
-- number; the times for which a handle asks to be woken; the swap of all handles in the reset of
-- an endpoint and in the cleanup of a connector, as a sequence of unbinds;
-- lower_bound_sorted_nodes of etcd_discovery_set, and the versions and gateways of its nodes;
-- what the owner of a watcher makes of the error code of a request; timestamps, sizes and the
-- reflection of the configuration; the rest of the application core; the requests of
-- etcd_cluster for members, leases and authorization; logging, curl, rapidjson, protocol
-- buffers, atbus, threads and condition variables as such; a worker's push into its queue is
-- never between the emptying of that queue and the end of its thread.
pub mod App
pub mod Config
pub mod Connection
pub mod Endpoint
pub mod Etcd
pub mod Prelude
pub mod WorkerPool
