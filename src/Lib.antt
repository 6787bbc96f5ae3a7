-- ===== src/Lib.antt =====
-- ReactorServer: an HTTP server on a reactor, with an event loop in each thread.
--
-- The parts and how they interact. An event loop (src/EventLoop) waits in its poller
-- (src/EpollPoller) and lets each channel with an event (src/Channel) call its callbacks, which
-- are those of a TCP connection (src/TcpConnection) or of the acceptor. New connections are dealt
-- to the loops of a thread pool (src/EventLoopThreadPool). A connection hands the bytes that it has
-- read to the HTTP server (src/HttpServer), which parses them (src/HttpContext) into a request
-- (src/HttpRequest), lets a callback fill in a response (src/HttpResponse) and sends its text. A
-- time heap (src/Timer) calls the callbacks of timers. The first server (v0.1) hands its events to
-- threads through a job queue (v0.1/thread_pool), from a table of event handlers (v0.1/reactor); its
-- connections (src/HttpConn) read a request, map the file and write the response themselves.
--
-- The files:
--   Prelude         lists, bytes, maps and signed integers; `Run`, the outcomes of a call
--   Timer           TimerHeap: `add_timer`, `del_timer`, `pop`, `tick` and the others by name
--   Timer/Slots, Timer/Order, Timer/Up, Timer/Down, Timer/Copy
--                   the array of the heap, its order, and the loops over it
--   Timer/Heap, Timer/Expiry
--                   what the methods do to a well-formed heap
--   Http            the enumerations and texts of src/CommonUtil
--   Http/Request    HttpRequest; Request/Headers: addHeader and getHeader
--   Http/Context    HttpContext, the parser; Context/Lines: parseLine; Context/Requests:
--                   well-formed requests and what is read of them; Context/Truncated
--   Http/Response   HttpResponse; Response/Framing: what a client reads of its text
--   Http/Server     HttpServer; Server/Pages: defaultHttpCB; Server/Requests: onMessage
--   Net/Channel     Channel; Channel/Dispatch: handleEvent
--   Net/Poller      EpollPoller, and the methods of Channel and EventLoop that register channels;
--                   Poller/Interest: the interest list of epoll, out of the calls that were made;
--                   Poller/Registration: its invariant; Poller/Changes, Poller/Removal,
--                   Poller/Masks, Poller/Ready: what each operation does
--   Net/Loop        EventLoop; Loop/Schedule: the steps of the threads; Loop/Fifo, Loop/Wakeup,
--                   Loop/Drain
--   Net/Connection  TcpConnection; Connection/Setup, Connection/Lifetime, Connection/Aborts: from
--                   its first event to its removal; Connection/Transfer: handleRead, sendInLoop and
--                   handleWrite, with Transfer/Reading and Transfer/Writing
--   Net/ThreadPool  EventLoopThreadPool; ThreadPool/RoundRobin, ThreadPool/Readiness
--   Net/LoopThread  EventLoopThread, with Thread and CountDownLatch; LoopThread/Invariant,
--                   LoopThread/Calls, LoopThread/Handshake: startLoop and the thread that it makes
--   Net/Server      TcpServer; Server/Names: the map of its connections
--   Net/Acceptor    Acceptor; Acceptor/Accepted: what a server takes from it
--   JobQueue        the job queue of v0.1/thread_pool; JobQueue/Chain: its links; JobQueue/Fifo
--   JobQueue/Pool   its threads; Pool/Invariant, Pool/Sound: what holds in every state of them
--   HttpConn        HttpConn: its state, and the handlers of a line of the request
--   HttpConn/Process
--                   processRead; Process/Keeps, Process/Progress: its end; Process/Requests,
--                   Process/RequestLine, Process/Outcome, Process/Serves: requests without
--                   content, and what it tells of them
--   HttpConn/Reply  processWrite and what it calls; Reply/Room, Reply/Bounds: the write buffer;
--                   Reply/Pages, Reply/Files: the texts that it makes
--   HttpConn/Transfer
--                   read, write and process; Transfer/Reading, Transfer/Writing, Transfer/Serving
--   Config          get_config and ConfigFile of src/ConfigUtil; Config/Lines: a line of the file;
--                   Config/Entries, Config/Lookup: what init and get_config find
--   Slog            the function slog of src/Slog and its files; Slog/Calls: what a call does
--   Reactor         the event handlers of v0.1/reactor; Reactor/Table: adding and removing
-- A method keeps its name, in snake case; a field loses its trailing `_`.
--
-- Outcomes. A call returns (`ok`), throws, fails an assertion or exits (`aborts`; the build does
-- not define NDEBUG), does what C++ leaves undefined (`fault`), or uses up the rounds that the
-- model gives a loop (`out_of_fuel`). The loops of the heap get as many rounds as there are slots
-- and one more, the loop of parseRequest two more than there are bytes, the loop of processRead
-- two more than twice the bytes read, the loops over the configuration file one more than it has
-- bytes; the theorems that a call returns or ends show that this is enough. The loops of
-- HttpConn's read and write run over the answers of recv and writev. The loop of addHeader that
-- cuts trailing spaces has a bound of its own, `trims`, as have the calls that slog makes of
-- itself, and the `while` of EventLoop::loop runs over a list of answers of epoll_wait.
--
-- Parameters. The file system (`FileSystem`, `fopen`), the eventfd (`Eventfd`), the answers of
-- epoll_wait, what accept, read, write, recv and writev return, the functors and the callbacks are
-- arguments; calls of epoll_ctl and of the server's callbacks are recorded in the order in which
-- they are made. Threads are steps of a relation, each critical section one step.
--
-- Not modelled: the calls of the log in the other parts; sockets and their options, mutexes and the
-- daemon, which are calls of the system; the handlers in src/handler_*.cc, which are commented out;
-- the programs that start the parts.
pub mod Prelude
pub mod Timer
pub mod Http
pub mod Net
pub mod JobQueue
pub mod HttpConn
pub mod Reactor
pub mod Config
pub mod Slog
