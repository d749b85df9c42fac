-- ===== src/Lib.antt =====
-- Verification library of the order book server: a C++20 program that rebuilds an order book from a
-- file of market-by-order messages and serves snapshots of it over HTTPS.
--
-- The parts and the files that model them:
--
-- - src/orderbook/orderbook.h, class OrderBook. Book.antt has the state (the record Book) and the
--   operations `add`, `cancel`, `modify`, `handle_*`, `clear`, `apply`, under the names of the
--   source. Book/Queue.antt is the `std::list<Order>` of a level: a node has an address, which is
--   what the iterator in a Ref holds. Book/Prices.antt is the price grid, Book/Levels.antt the read
--   and write of one level, Book/Depth.antt the queries. Book/Ledger.antt is the abstract view, a
--   map from order ids to side, price and open shares; Book/Priority.antt is the order in which the
--   orders of a level wait; Book/Invariant.antt, Steps, Operations and Refinement tie the two
--   together. Book/Snapshot.antt and Book/Mbp.antt build the messages that go out, as Json values.
-- - src/dbn_wrapper/dbn_wrapper.h and src/orderbook/orderbook_controller.cpp: Streaming.antt, the
--   loop that applies the records of a file to the controller's book, as a step relation: the sleep
--   before a message is a state of its own, and a stop can come between any two steps. The counter
--   is a natural number where the source has an `int`; logging is left out. Streaming/Stop.antt is
--   any number of requests to stop against the end of the loop on another event base.
-- - src/orderbook/orderbook_controller.cpp: OrderBookController.antt has its members, the callback
--   of the loop and the snapshot that is sent. What the clock gives, and the arithmetic of doubles,
--   are parameters.
-- - src/main.cpp: Endpoints.antt, the four endpoints and what their handlers compute.
-- - core/json: Json.antt has the values of class Json and the operations that build those messages.
--   It is a model of values: the sharing of objects between Json values, and the pools they come
--   from, are left out, which no function modelled here can observe, as each object it writes to is
--   its own. Json/Conversions.antt reads a value as another type and compares it with an integer,
--   and Json/Containers.antt has arrays by index and the loops over members. Json/Writer.antt is
--   the text of a value. Json/Parser.antt is the class JsonParseNew of json_parse.cpp, with its
--   loops over characters in Json/Parser/Scanner.antt: its recursion runs on fuel, one round for
--   each call and each turn of the two loops over members, for which four rounds for each byte of a
--   written text are enough. The calls of `std::to_chars` and `std::from_chars` for a `double` are
--   parameters.
-- - core/queue/mpsc_queue.h: MpscQueue.antt, the ring buffer of the event bases, as one thread uses
--   it. MpscQueue/Threads.antt is the same ring with many threads in `push` and one in `pop`: a
--   step is one access to the shared memory, and the accesses are taken to be sequentially
--   consistent.
-- - core/coroutine: Coroutines/Future.antt is a coroutine that awaits a future, a call of
--   `set_value` on it and the event base that resumes the coroutine; Coroutines/Release.antt is the
--   end of a coroutine, between the owner of its task and its event base. Both are step relations,
--   one access a step.
-- - core/cache/cache_pool.h: CachePool.antt, the ring of free objects of the pools. An operation is
--   one step: other threads do not run in between.
-- - core/cache/share_string.cpp: ShareString.antt, the shared strings, on the model of the pool.
--   ShareString/Store.antt is the step relation of all live objects.
-- - core/utils/utils.cpp: Base64.antt, the base64 functions. Bytes are numbers, and the encoder's
--   bit masks are quotients and remainders. SplitString.antt is `Utils::split_string`.
-- - core/utils/spin_lock.h: SpinLock.antt, the lock as a step relation of any number of threads.
-- - core/utils/latency_tracker.h: LatencyTracker.antt, the window of samples and the percentiles.
-- - core/network/https_server/request/http_request.cpp: HttpRequest.antt, the parser of the request
--   line, the query parameters and the headers; HttpRequest/Lookups.antt, the lookups, the files
--   that are sent, with the file system as a parameter, and the canned responses;
--   HttpRequest/QueryJson.antt, the query string that is written from a `Json`.
--   HttpRequest/Post.antt is http_request_post.cpp, the body of a POST request.
-- - core/network/https_server/request/http_request.cpp, CreateNewHttpRequest:
--   HttpRequest/Creation.antt, the object of the class that belongs to the method of a message.
-- - core/system_io/https_server_io/http_client_socket.cpp: HttpClientSocket.antt, what a socket
--   does with the bytes it reads: the request in pieces that `save_buffer` joins. The reads are a
--   parameter.
-- - core/network/https_server/response: HttpResponse.antt, a response and the text that is sent.
-- - core/network/https_server/route: Routes.antt, the registration of routes and the handling of a
--   request. A handler is a function of the request: it responds or throws, and an exception ends
--   the program, as `unhandled_exception` of core/coroutine/base_task.h does. It is a coroutine in
--   the source, which can be suspended; here it runs from its start to its end.
--
-- What C++ leaves undefined (an index out of range, an iterator to no node, an `int64_t` overflow, a
-- division by zero) and an uncaught exception are `none`, unless an operation names its exceptions.
-- `std::unordered_map` is a function from keys to optional values; `uint64_t` totals wrap at 2 ^ 64.
-- A loop is structural recursion on the rounds that are left or on the list it walks, but for these,
-- which run on fuel: the Json parser, the loop over the parts of a form, and `split_string` and the
-- loop over query parameters, with one round more than the text has bytes. The theorems on the parser,
-- `split_string` and the query parameters say that their fuel is enough where the code ends at all.
--
-- Not modelled: the calls on sockets, TLS, epoll, timers and logging, which are I/O; the code that the
-- compiler makes of a coroutine; the reader of the DBN file, which is a library.
mod Prelude
pub mod Json
pub mod Book
pub mod MpscQueue
pub mod CachePool
pub mod ShareString
pub mod Base64
pub mod SplitString
pub mod HttpClientSocket
pub mod HttpRequest
pub mod HttpResponse
pub mod Routes
pub mod Streaming
pub mod OrderBookController
pub mod Endpoints
pub mod Coroutines
pub mod LatencyTracker
pub mod SpinLock
mod Tests
