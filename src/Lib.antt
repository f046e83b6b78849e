-- ===== src/Lib.antt =====
-- LibraCore, a C++ library for servers on libuv: its byte buffers, the binary protocol of its TCP
-- server, its HTTP server, and its wrapper of libuv.
--
-- The parts. A socket's bytes go to one of two servers. The TCP server (net/tcp_server) keeps a
-- buffer of 64 KiB for each connection, appends what arrives, and lets a decoder (net/decoder) take
-- packets from its front, which go to the program's callback; a program reads and builds packets
-- (net/packet) by readers and writers (base/buffer_reader, base/buffer_writer) of buffers
-- (base/buffer), in network byte order (base/bytes). The HTTP server (net/http) gives the bytes to a
-- parser, whose callbacks fill a request; the program answers by a response, whose headers are a map
-- by a case-insensitive order (base/utility).
--
-- The files.
-- - Common: the names that all files share, list lemmas, `Outcome` and `Exec` (Common/Effects): a
--   method is a function of the object's state, which returns, throws, or is at fault where the
--   language says nothing of what follows (an access outside of an object, a deleted object); a
--   throw keeps what was written before.
-- - Base/Buffer: the class `Buffer` of base/buffer.h with every operation (get, set, append, remove,
--   copy, the two operator[], set_size, free_size) and the constructors of its subclasses; sums of
--   `size_t` wrap at 2 ^ 64, and copies outside of the array are faults. Base/Buffer/Content, Parts
--   and Indexing have what each operation does to the data; Base/Buffer/Specification has a
--   bounded list of bytes as the abstract view, Base/Buffer/Refinement what ties the class to it.
--   Base/Buffer/Interface is the class IBuffer: its methods and what they promise, which readers and
--   writers take as an instance and Buffer fills.
-- - Base/Bytes: SwapH2N and SwapN2H of base/bytes.h, by the byte order of the host. A value of a
--   fixed-size type is its bit pattern.
-- - Base/Reader, Base/Writer: base/buffer_reader.h, base/buffer_writer.h. The index is the bit
--   pattern of its `int`. Base/Codec writes and reads lists of fields by them.
-- - Base/CaseMap: ci_less of base/utility.h, and `std::map` by it as a list in order.
--   Base/CaseMap/Keys has the abstract view, a function of the keys, which are texts up to case.
-- - Net/Packet: net/packet.h, net/packet.cpp. Net/Packet/Frame describes the protocol: the letters
--   L and I, the length of the body and the command in two bytes each, the body.
-- - Net/Decoder: Decoder::handle of net/decoder.cpp, round by round: the loop of the source is at
--   most five rounds, which is the fuel. The callback is a parameter, which may act on the buffer
--   and on the rest of the program, so that a deleted buffer is seen.
-- - Net/Address: net/address.cpp. The text functions of libuv are parameters.
-- - Net/Server: tcp_server::Client of net/tcp_server.h and .cpp, and the callback of listen. What
--   libuv answers (accept, peername, is_active, write) is an argument. Net/Server/Events runs a
--   connection event by event; Net/Server/Reads cuts a stream into reads; Net/Server/Messages goes
--   from a peer's packets to the program that reads them. Net/Server/Many is the event loop, which
--   calls the callbacks of any number of clients in any order; the program keeps a state for each.
--   What libuv reports of a write to a client that is gone is left to Net/Server/Dangling.
-- - Net/Http: net/http.h, net/http.cpp. Status and Response are the class response, with the text
--   that its end writes; Response/Reply is a reader of such texts, by fuel of the text's length.
--   Request is url_obj and request; Context is client_context: the callbacks that parse() sets and
--   that of read_start.
--   Life is the life of client_context, its request, response and socket, with Http::start and
--   create_server; Exchange goes from a request to the client that reads the answer;
--   Session has all of a connection, from its first read to the end of its handle, and any number of
--   them.
--   Net/Server/Listening is the class TCPServer.
-- - Base/Singleton: base/singleton.h. Threads take one step at a time as a schedule says.
-- - Base/Events: base/events.h. Base/Tuples: the templates of base/utility.h on tuples, and the types
--   that EventEmitter computes by them; a type is an element of a parameter, `none` a program that
--   does not compile. Base/Format: string_util::format of base/utility.h, and how snprintf fills an
--   array. Base/Log: base/log.h. Base/Exceptions: base/exception.h, uv/error.h. Base/Application:
--   base/application.cpp, by its calls of the loop.
-- - Uv/Callbacks: uv/callback.h. Uv/Apply: uv/apply.h. Uv/Stream: uv/handle.h and the requests of
--   uv/stream.h, uv/tcp.cpp and uv/timer.cpp, by the slots of their callbacks;
--   Uv/Stream/Lifecycle has the steps that a handle can take. Uv/Reading: the memory
--   of a read of uv/stream.h. Uv/Tcp: uv/tcp.cpp. Uv/Signal: uv/signal_.cpp. Uv/Pool: a work request
--   of uv/pool.h, by what is allocated. Uv/Loop: the order in which the loop calls the callbacks of
--   many objects, for the servers. What libuv answers is an argument.
-- The printing of a number (Base/Format.digits) has fuel of the number itself: there are fewer digits
-- than that.
--
-- Parameters. The parser in extra/http-parser is another project's: http_parser_parse_url is a
-- function that says which parts a text has, http_parser_execute a list of the callbacks that bytes
-- lead to; a callback that answers other than 0 puts the parser into an error, in which it takes
-- nothing, as its documentation says. libuv's handle of a signal watches for the signal of its last
-- start alone (Uv/Signal.UvSignal). Callbacks of the program are parameters.
--
-- Not modelled: uv/non_copyable.h; the classes of net/socket.h and net/connector.h, which nothing
-- uses; uv/fs.h, which is not finished; the texts that printf makes and the logs that the other parts
-- write; the memory that a write under way reads. A delete of an array by delete in place of delete[]
-- is taken for its deletion, and an exception that leaves a callback into C code for one that reaches
-- the caller of the loop; C++ promises neither.
pub mod Common
pub mod Base
pub mod Net
pub mod Uv
