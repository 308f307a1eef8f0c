-- ===== src/Lib.antt =====
-- tfcgi: a FastCGI library. A web server opens connections to the process. The thread of a
-- connection reads packets from the socket and gives each to the request that its header names; a
-- request collects its parameters, and goes to the queue of the worker threads when they are
-- complete; a worker calls the application, which writes to the streams of the request, and ends it.
--
-- What models what:
--   Protocol: include/fcgi/protocol.hpp. Records for the structs, numbers for the enums, and the bytes
--     of a struct in memory. Numbers in memory lie low byte first, as on a little-endian host, so
--     that htons, ntohs, htonl and ntohl are the swaps `swap16` and `swap32`.
--   Socket: `Connection::recv_all` and `Connection::send_packet` (src/connection.cpp). What the kernel
--     answers to the successive calls of read and send is a parameter, a list of results.
--   Packet: src/ipacket.cpp and src/ipacket.hpp. An `ipacket` is its header and the socket.
--   Nvp.Serializer: `serialize_size` and `serialize` of src/name-value-pairs.cpp.
--   Nvp.Deserializer: `Deserializer` of include/fcgi/name-value-pairs.hpp and src/name-value-pairs.cpp,
--     with the memory of its lengths, and `current_buffer` as an object and an offset. `new_key` is a
--     parameter. A read or a write outside an object is the failure `out_of_bounds`.
--   Nvp.Maps: `ToMap`, `CreateMap`, and `GetValueHandler::new_key` of src/connection.cpp.
--   OStream: `ostreambuf` and `ostream` (include/fcgi/iostream.hpp, src/iostream.cpp), and the two
--     inline `send_packet` of src/connection.hpp. What goes out is the list of buffers given to
--     `send_packet(const char*, size_t)`.
--   IStream: `istreambuf` and `istream` of the same files.
--   Request: src/request.cpp and include/fcgi/request.hpp, and `push_request` of
--     src/request-workers.cpp. `handle_packet` takes the request and the state that it shares
--     (`Shared`) to new ones, or stops: blocked in read, out of bounds, or with an exception.
--   Worker: `pop_request` and the body of `thread_func` of src/request-workers.cpp, with what the
--     application does to the streams and how it ends as a parameter.
--   Request.Headers: the helpers of include/fcgi/request.hpp that write headers to `cout`.
--   Connection: the table of the requests, `GetValueHandler`, the constructor and the destructor of
--     src/connection.hpp and src/connection.cpp, and `Connection::thread_func`: `one_packet` is one
--     round of its loop, `read_loop` the loop, `teardown` what follows it. Connection.Incoming has the
--     packets of a request as they come on the wire, and what the loop makes of them; System.Answers
--     goes on to the worker and the answer.
--   System: one connection and the workers, as a step relation. A step is a round of the thread of
--     the connection, the teardown, a return of `pop_request`, what a worker does from there to the
--     fall of `request_actives`, or the erasure of the connection when `request_actives` is 0. It has
--     one connection, so that the queue holds the requests of that connection alone.
--   Server: the process, as a step relation: the accept loop of src/main.cpp, the loop of the workers
--     with its counters, the list of the connections, and src/stats.cpp, src/stats.hpp and
--     include/fcgi/stats.hpp. How a connection changes, and what a worker does with a request, are
--     left open in it.
--   Pool: all connections over the one queue of the workers, as a step relation that uses the steps
--     of System: `Connection::global_list`, `create_connection`, and the queue of
--     src/request-workers.cpp. `view` is one connection with its part of the queue.
--   Examples: the applications of examples/, as the texts that they write to `cout`; Worker.Page has
--     what a worker makes of such an application.
--   Prelude: lists measured by native numbers, Boolean tests, and the result type. The Tests modules
--     apply the theorems to small inputs.
-- The socket is read through Socket by Packet, Packet by Request; Request owns a Deserializer and the
-- four streams, and these send to the wire of `Shared`. Worker takes from the queue of `Shared` the
-- request that Request put there.
--
-- Bounds: uint16_t, uint32_t and unsigned int wrap as written out in the definitions; a size_t is a
-- number without bound. The loop of `feed` runs on fuel, `length datas + 2` rounds: each round but the
-- first takes two bytes at least. The loops of the socket run on the list of the kernel's answers;
-- when the list ends the next call blocks. The loop of a connection runs on fuel too, one round more
-- than an eighth of the bytes that the kernel ever returns: each round but the last takes the eight
-- bytes of a header.
--
-- Not modelled: what the application does in startup, begin_shutdown and shutdown; the calls of
-- close; syslog; the memory that a request or a connection takes, beyond the bounds of the buffers
-- that are parsed. A critical section is one step, since its mutex keeps the others out; in System
-- and Pool the change of a counter next to one belongs to that step, in Server it is a step of its
-- own. System and Pool do not count the workers: any request of the queue may be taken. An
-- exception that leaves the thread of a connection ends the run. Builds for authorizers, filters
-- and custom roles are not covered: the code has FCGI_RESPONDER alone.
pub mod Prelude
pub mod Protocol
pub mod Socket
pub mod Packet
pub mod Nvp
pub mod OStream
pub mod IStream
pub mod Request
pub mod Worker
pub mod Connection
pub mod System
pub mod Pool
pub mod Server
pub mod Examples
