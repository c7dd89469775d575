-- ===== src/Lib.antt =====
-- filth, a small HTTP/1.1 origin server. A scheduler polls the sockets and queues the pieces of
-- work that are ready, a pool of workers runs them, and the work of a connection reads a request,
-- takes a response from a shared cache or from the file system, and writes it. This library models
-- the cache, the connections and the loops over the socket, the parsing and handling of a request,
-- the files behind it, the scheduler and the command line.
--
-- * Base has the names that all share: Boolean tests, lists, maps, machine words, text as a
--   list of bytes, and the values of <errno.h>. Int is `time_t`; its overflow is not modelled.
-- * Cache is src/Cache.hpp. Cache/Defs has the state and the operations, in the sections that run
--   under one lock or as one atomic instruction, and as whole calls: `get`, `unget`, `put`,
--   `evict` (both), `flush`, `advise_evict`. Words wrap as in the code. The loops of `evict()` and
--   of `put` run on fuel: each round takes a handle out of `toevict`, so its length and one more
--   is enough, which is proved. Cache/Invariant, Reserve, Evict, Put and Borrow are about calls
--   that run alone; Cache/Threads interleaves the sections of any number of threads, of which some or
--   none call `flush`. The order of
--   an unordered set is a parameter, `Front`. A `put` whose allocation fails is a step of its own.
-- * Http/Constants is src/HTTP_constants.hpp with data/*.def; Http/Entry is
--   src/HTTP_CacheEntry.cpp and its header; Http/Output prints both; Http/Request is `parsereqln`
--   and `parseuri` of src/HTTP_Server_Work.cpp, with `uri_hex_escape` (Escape), which nothing calls;
--   Http/Lines is src/HTTP_parsing.cpp, over the unread text of the stream. Its loop runs on fuel, one unit for each byte and one more.
--   Http/Response is src/HTTP_2616_Server_Work.cpp: Serve and Borrow are `cache_get`, Store is
--   `cache_put`, Writes the methods that write, Reset is `reset`, Browse and Headers are `browse_req`,
--   Read is the methods that read and the choice of the body, Prepare is `prepare_response` as a
--   whole, Returns is about its end, Methods is the class as one derived from HTTP_Server_Work, and
--   Exchange is about a request and its response on a connection; the origin server, and whether a socket can be reached, are its arguments. Exceptions are
--   values. The clock stands still during a call.
-- * Http/Conn is a connection. State is src/HTTP_Work.hpp; Server is `operator()` of
--   src/HTTP_Server_Work.cpp with `reset` and `async_setresponse`, over any derived class, Plain the
--   class by itself, Client the same of src/HTTP_Client_Work.cpp. A call is a function from the
--   answers of the socket to the state that it leaves, the bytes that it sends and the way it ends.
--   Sending and Delivered are about the way out, Receive and Bodies about the way in, Exchange and Relay about
--   a request to a dynamic resource and its response, Shifted about a client talking to a server.
-- * Work is `rduntil` and `wruntil` of src/Work.cpp. What the system answers is an argument, a
--   list, so the loops run on its length; a loop that has used it up is blocked.
-- * Sched/Find is src/FindWork_prealloc.hpp; Sched/Poll is the loop of `poll`, `registercb`,
--   `halt` and what `schedule` asks of epoll in src/Scheduler.cpp, over what `epoll_wait` returns,
--   a list; the callbacks are a parameter. Sched/Handlers is its two callbacks. Sched/Workers is
--   `work` of src/Worker.cpp; what a piece of work does is a parameter, and the fuel counts the
--   rounds.
-- * Origin is src/HTTP_Origin_Server.cpp: Files is `validate` and `unlink`, Put and Written are `putorpost`,
--   Request and Fetched are `request`, Listing is `dirtoHTML`, over the answers of the file system as lists;
--   the loops that run out of answers go on for ever. Gzip is `uncompress` of src/gzip.cpp; zlib is
--   a parameter.
-- * Server is the server as a process. Start is the constructor and destructor of src/Server.hpp, the calls
--   by which it comes to listen, and `root_giveup` of src/root_safety.cpp; the system answers each
--   call by a parameter. Serve is the loop of `serve` with src/CachingServer.hpp, over the signals that
--   come in each pass; Started and Passes are about both. Pool is src/ThreadPool.hpp, as steps of
--   threads, and Pool/Left is about the order in which they leave.
-- * Queue/LockFree is src/LockFreeQueue.hpp, the queue that the server uses, cut at each read and write of what
--   the threads share. An address is not handed out twice; a read of a deleted node is an outcome
--   of its own. Shape has the invariant, Changes, Fresh and Links what the writes do to it, Keeps and Runs each step;
--   Order is about what goes in and out, Schedule about one interleaving.
-- * Queue is src/DoubleLockedQueue.hpp: Locked cuts its calls into the steps of threads, Order and
--   Wakeups are about their interleavings; Store is src/Preallocated.hpp, one call at a time.
-- * Mime is src/mime_types.cpp; the words of a line are read on fuel, one unit for each byte and one
--   more. Mime/Suffix is about a line and the names of files.
-- * Cmdline is src/cmdline.hpp (Parse) with the table of src/HTTP_cmdline.cpp and data/*.def
--   (Table); Given and Names are about both. `atoi` is a parameter.
--
-- Not modelled: the lines of the header that `browse_req` overwrites; the masks and the yank of a pool
-- of threads; locks and threads as such, logging, zlib, `main` and the masks of signals, which only
-- call the operating system or libraries.
pub mod Base
pub mod Int
pub mod Cache
pub mod Http
pub mod Work
pub mod Sched
pub mod Cmdline
pub mod Origin
pub mod Mime
pub mod Queue
pub mod Server
