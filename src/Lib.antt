-- ===== src/Lib.antt =====
-- A model of claire, a C++ network library (an event loop, TCP and HTTP on it, and protocol buffer
-- RPC on that), with theorems on its parts. Paths are from the repository's root.
--
-- Buffer (netty/Buffer.h, netty/Endian.h): the byte buffer below every connection. `Buffer.antt` has
-- the record and an operation for each method; `Parts` has the invariant and the view of the storage
-- as three parts, `Content` the operations on bytes, `Ints` those on integers, `Crlf` the search for
-- an end of line. A buffer holds fewer bytes than `size_t` can count, so sizes do not wrap.
--
-- Rpc (protorpc): `Message` has the types of protorpc/rpcmessage.proto and `Codec` the codec of
-- protorpc/RpcCodec.cc. Protocol buffers, zlib's adler32 and snappy are not part of the repository
-- and enter as the record `Wire`; a theorem that needs one of their laws says so for the messages at
-- hand. The loop of `ParseFromBuffer` has one round of fuel more than the buffer has bytes, which is
-- enough because a round that goes on takes at least eight; `Codec.Serialized`
-- has what the codec's callers see of it. `Controller` is the outcome of a call,
-- `Channel` the client's side (protorpc/RpcChannel.cc): its state with the calls that wait, an
-- operation for each function, `Invariant`, `Answers` and `Fitting` on each, `Runs` and `Checks` on any
-- order of them. `Server` is the server's side (protorpc/RpcServer.cc, BuiltinService.cc), with `Counts`,
-- `Accounts`, `Checks` and `Runs` on what it owes. `Call` puts the two together for one call, through
-- the codecs. Protocol buffers and JSON enter as the records `Reflection` and `Library`, and a method that is called completes at
-- any later time.
--
-- LoadBalancer (netty/loadbalancer): a record of operations and laws, which the channel takes as a
-- parameter, and `RoundRobin` and `Random` that fill it.
--
-- Tcp/Connection (netty/TcpConnection.cc): the connection as a record of its state, channel, buffers
-- and posted tasks. What the system answers to a write or a read is an argument. `Stream` follows the
-- bytes, `Invariant` and `Steps` the states, and `Drained` when the write side is closed.
--
-- Tcp/Server (netty/TcpServer.cc, common/events/EventLoopThreadPool.cc): the table of a server's
-- connections and the loops they are given to; `Balance` is on their count.
--
-- Tcp/Connector (netty/Connector.cc): the attempts of a client to connect, as a state machine of calls,
-- timers and events in the loop's thread; `Stopped` is on what can follow a stop.
--
-- Events/Timeouts (common/events/TimeoutQueue.cc): the queue of timers in its loop's thread. `Order` is
-- on the set of events, `Firing` on adding and cancelling, `Due` on what is due and put back,
-- `Runs` on what fires.
--
-- Events/Loop (common/events/EventLoop.cc): the rounds of the loop, the tasks that are posted to it and
-- its wakeups; `Wakeups` follows each task. Events/Poller (common/events/poller/EPollPoller.cc,
-- Channel.cc): the table of channels and what epoll is told of them, with epoll's manual as the laws of
-- the record `Epoll`; `Watched` is on one channel and `Runs` on any sequence of updates of many.
--
-- Metrics (common/metrics): `Samples` has the ranges of a histogram's buckets, the counts, and the
-- iterator that adds one vector to another; `Search` is on the binary search and on counting, `Merge`
-- and `Snapshot` on adding and taking away, `Arguments` on the arguments of a
-- histogram. The search has a round of fuel more than there are buckets, the merge one more
-- than the buckets of both vectors. `Counters` has the cells of counters and threads and the sampler
-- (CounterProvider.cc, CounterSampler.cc), `Cells` what an increment changes.
--
-- Http (netty/http): `Headers` has a message's headers and their text, `Message` when a body is there
-- and how long it is, `Parse` the parser of a connection; its loop has one round of fuel more than
-- the buffer has bytes, and a round that goes on takes an end of line. `Parse.Total` is on its
-- end, `Parse.Stream` on reading back what was written, and `Parse.Overread` on bodies that are not
-- there.
--
-- A failed `CHECK` or `DCHECK` ends the process; such a run is `none`, and `Returns m P` says that a
-- run is there and has the property. Logging, counters of traffic other than the RPC server's,
-- and histograms of call times have no effect on what is modelled and are left out, as are sockets and
-- threads. Not modelled are the client class on the connection, the HTTP server and client, strings,
-- tracing, and the conversion of protocol buffers; the symbolizer, logging, files and threads are
-- input and output or wrappers of the system.
pub mod Prelude
pub mod Buffer
pub mod Rpc
pub mod Tcp
pub mod Metrics
pub mod Events
pub mod Http
pub mod LoadBalancer
