-- ===== src/Lib.antt =====
-- Verification of the Dubbo service mesh agent (src/*.c of the repository): a process beside each
-- consumer and each provider. The consumer's agent takes HTTP requests, picks a provider's agent
-- for each, relays the bytes and relays the response; the provider's agent turns a request into a
-- Dubbo call to its provider and the answer into an HTTP response. Both are single-threaded event
-- loops over non-blocking sockets, with their connection objects in object pools.
--
-- The parts and their files:
--   Pool      src/pool.c. A pool is a record of its counters and its two stacks of buckets; an
--             element is its address. PoolInit is `Create.init`, PoolGet `get`, PoolReturn
--             `return`, PoolFree `free_pool`. The functions that a pool is given are hooks on a
--             world. Pool.Stack sees a pool as a stack, Pool.Ownership as a set of elements with
--             owners. Pool.Memory, Loop and Leaks follow the blocks that the allocator has given
--             out, Keeps and CreateKeeps what a pool's hooks keep of the world.
--   Net       what the agents take from outside: read, write, close and the clock, the event loop
--             of src/ae.c and the sockets of src/anet.c as the fields of a record `Host` on a
--             state. `HostLaws` and `Streams` are what read(2) and write(2) document; `Flows` is a
--             socket that always has room for a byte, `Reliable` in Consumer.Added a network and an
--             allocator that do not fail. Net.Buffer has the fixed arrays, Net.Clock and
--             Net.Interface are src/util.c.
--   Consumer  src/consumer.c. The static variables and the objects by address are a record; each
--             handler is a function on it: `on_read_from_consumer` is read_from_consumer, and so
--             on. Balance has get_endpoint_least_loaded and get_endpoint_min_latency, Connect the
--             connections to remote agents, Setup consumer_init and on_etcd_service_endpoint,
--             Lottery get_endpoint_min_latency_prob, about which Draw is. History is the step
--             relation of the agent: the event loop accepts and calls handlers in any order. Flow,
--             Replies and Drain follow requests and responses over sequences of events, Added,
--             Discovered and Start are about the start, Connect.Retry about the loop that connects.
--   Provider  src/provider.c. Dubbo has the request of on_http_body, Response the HTTP response of
--             _write_to_consumer_agent, Handlers and Local the handlers. http_parser is a parameter
--             `Parser`, which calls on_body. Register has register_etcd_service and Setup
--             provider_init, and Registered the key that it registers. Frame, Requests and
--             Translation are about what the handlers leave in a connection; Sent, Sendings,
--             Delivered, Posted and Arrived follow a request from the socket of the consumer's
--             agent to that of the provider, Answered, NextRequest and Written the response.
--             Bounds, ParseBounds, Safety, History and Start carry the bounds of the buffers from
--             one handler to every history of events. `ParserLaws` is what they use of http_parser:
--             it works on the agent only through its callback, with parts of its input; `Parses` in
--             Provider.Posted is that it finds the body of a whole request.
--   Main      src/main.c: the options, the signal handler, accept_tcp_handler, main. CommandLine is
--             about the options. Agents puts both agents in the places of main's calls, Runs has
--             the histories of a whole process, and Stops and Safety what main leaves.
--   Discovery the key by which a consumer's agent finds a provider's agent, and Discovery.Found the
--             two agents together.
--   Mesh      a request on its way through both agents, and in Mesh.Response the response on its
--             way back.
--   Debug     src/debug.c: the limit on core dumps, and the lines of a stack trace.
--   Log       src/log.c and the macros of src/log.h: which line each stream gets; Log.Reentrant has
--             the versions for signal handlers.
--   Text      the functions of <string.h>, <stdlib.h> and sprintf that the agents use, on lists of
--             bytes.
--   Base      shared names, tests, lists, C integers.
--
-- Both agents use Pool through its hooks: an endpoint's pool connects in its Init function. The
-- loop that connects until it succeeds is bounded by `tries`, a parameter of every definition that
-- reaches it; a result `none` is a connection that has not come up, and the theorems hold for every
-- bound. A handler of the provider's agent also has no result where the source touches memory
-- outside an array or NULL, or ends the process. A descriptor is a C int, a counter of the pool a
-- uint32_t that wraps, a count for read and write a size_t that wraps; the counters of requests and
-- milliseconds of an endpoint are not wrapped.
--
-- Not modelled: the copies of other projects' code (the event loop, the sockets, the allocator, the
-- HTTP parser, the etcd client), which are parameters where the agents call them; set_cpu_affinity
-- of src/main.c, which is compiled out. Arrays are functions from indexes, and what a write behind
-- one does to other memory is not modelled: for the buffers the theorems give the bounds, while
-- nothing in src/consumer.c keeps the endpoints to the three places of their array, so that with
-- more than three keys in etcd the theorems speak of a longer array. The handlers leave out their
-- calls of the log, but for a FATAL one, which ends the process; the arguments of a DEBUG call are
-- not evaluated, since the macro drops the call.
pub mod Base
pub mod Net
pub mod Text
pub mod Log
pub mod Debug
pub mod Pool
pub mod Consumer
pub mod Provider
pub mod Main
pub mod Discovery
pub mod Mesh
