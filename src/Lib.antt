-- ===== src/Lib.antt =====
-- gitrpc: a git server over gRPC. A client opens a repository, streams a pack into it, sets a
-- reference and closes it again. The calls reach handler threads, which post tasks to the thread
-- that owns the one current repository and wait for the results; the repository itself is
-- libgit2's.
--
-- Prelude models no code: it has the numbers, lists and tests that the other modules share.
--
-- Base64 models src/base/base64.cpp on lists of bytes, with the size of the input of base64_decode
-- as an int (counted), one recursive function per loop: encode_loop and encode_tail are the loop
-- of base64_encode and the code after it, decode_push and decode_tail those of base64_decode.
-- Base64/Sextets relates the masks and shifts to digits, Base64/RoundTrip states RFC 4648
-- (rfc_encode), and Base64/Stops is about lengths and foreign characters.
--
-- Pickle models src/base/pickle: Pickle/Words has AlignInt and the machine words, Pickle/Writer
-- the class Pickle, Pickle/Iterator the class PickleIterator. An unsigned word is a number, with
-- the wrap-around written out; an int is its pattern of 32 bits. Memory is little-endian, size_t
-- has 64 bits, int and wchar_t have 32. `none` is an access through a NULL header. DCHECK is not
-- part of a release build and is left out. realloc succeeds. Floating-point values are their
-- bytes. Pickle/Growth, Fields, Values and RoundTrip follow a value from the writer to the reader,
-- Pickle/Within and Bounds are about readers of hostile bytes, Pickle/Copies about copies and
-- assignments, Pickle/Wire about the bytes of a whole pickle, and Pickle/Wide about the overflow
-- in ReadWString.
--
-- Git models src/services/git and src/common. Git/Library is the interface to libgit2: the record
-- Libgit2 is a parameter, and every call takes the world (the disk, the library's state) to the
-- next one. Git/Repo is the class GitRepo, with `none` for a pointer that no call has set; a
-- method gives `none` where it follows such a pointer or fails an assertion. Git/Manager is
-- RepositoryManager: `handle` runs one of its methods, which hold `repoLocker` from start to end,
-- so a history of the process is a list of requests (`handle_all`). Git/Manager/Open is about an
-- object whose pointers are set, Git/Manager/Session, Broken and View about such histories.
--
-- Git/Requests models RepoStateChange and WriteReference of src/services/git/requests, two classes
-- with the same completion-queue loop. The queue is the list of operations under way; an event
-- names the one that is handed out, with the flag `ok` and the message of the client, so a list of
-- events is any order in which gRPC can work. A request is an address whose object has a status or
-- is gone, and an address is not used again. Git/Requests/Answers has Read and Write of
-- WriteReference over the manager; Live is about the operations under way, Simulation about two
-- processes behind the same loop, Safety, Waiting and Trace about the loop.
--
-- Git/Requests/PackStream models RecvPackStream, which has one request at a time and uses the
-- values of RequestStatus as tags. The buffer of a Read is filled when its event is handed out. A
-- request that is deleted while an operation on its stream is under way is `none`. Upload is about
-- the events in the order in which the operations were started, Races about a failed append.
--
-- Git/Proxy models src/services/git/repository/RepoProxy.cpp: the task that each call posts to the
-- receiver "Main", with its arguments and its promise, a number, and the handlers of
-- RepositoryManager as the tasks call them. The name of an open is freed before its task reads it:
-- what the task finds there (`freed`) may be any text, and is taken not to stop the process. What
-- a priority holds that Bind leaves unset may be any number for each task (`unset`).
-- Git/Proxy/Tasks is about the tasks one after the other, Round about a round of the pump, Future
-- about one call, Handlers has Read of WriteReference and RepoStateChange with their calls posted,
-- Handlers/Threads is about the handler thread of WriteReference, Handlers/Close about a close of
-- RepoStateChange, Life about all rounds, Order and Race about the priorities.
--
-- Git/Service models src/services/git/GitServiceImpl.cpp, the synchronous service: each method
-- takes the messages of its call and the world to a response and a status. ReceivePackStream
-- compares the messages of GitRepo by address; the parameter `merged` says whether the equal
-- literals of the two files are one object. A text of libgit2 that reads "success" would be taken
-- for the literal. Git/Service/Bracket is about ReceivePackStream, Git/Service/Reference about
-- WriteReference and ListRefs.
--
-- PriorityQueue is the interface to std::priority_queue: its operations, and as laws what the C++
-- library documents of them, with the order among equal elements left open. PriorityQueue/Sorted
-- fills it by a list, and PriorityQueue/Drain is about loops that empty such a queue.
--
-- Dispatch models src/base/threading/dispatcher/Dispatcher.cpp, the registry that routes a task by
-- the name of its receiver; the pumps, runners and threads are a parameter. Dispatch/Routing
-- compares the maps with the history of registrations. Dispatch/Task is the class Task of
-- DispatcherTypes.h, a member that is not set being `none`, and Dispatch/Task/Invoke is about what
-- Invoke calls.
--
-- Dispatch/Posting follows a task from PostTask through a task runner or a thread to the pump of
-- its receiver (src/base/threading/TaskRunner.cpp and Thread.cpp), with addresses for the objects.
--
-- Dispatch/Pump models src/base/platform/linux/dispatcher/MessagePumpEPoll.cpp: a pump is the
-- record of what its thread owns, a round of the loop takes the descriptors that epoll_wait
-- reports. Dispatch/Pump/Drain is about the loop on the queue, Dispatch/Pump/Wake about posts from
-- other threads: a state has the pump, the threads between their push and their write, and the
-- place of the loop, and the steps go in any order. The pipe and the epoll descriptor are the
-- parameter Pipe, whose laws say what the operating system documents: a byte that is written makes
-- an edge. What a write to a full pipe does, and when such a pipe takes a byte again, is open.
--
-- TaskManager models src/base/taskmanager. TaskManager/Task is the class Task of
-- TaskManagerTypes.h, TaskManager/Runner and Runner/Loop the runners (Runner.cpp),
-- TaskManager/Pool the thread pool (ThreadPool.cpp), with History as the events of the posting
-- thread and of the pool's threads in any order and Bound about them, and TaskManager/Manager the
-- manager (TaskManager.cpp), with Size about InitializeThreadPool and Posts about the queues of
-- the runners.
--
-- App models the start of the program (src/app, src/base/app, TaskRunner::Init and Start,
-- Thread::Start, MakeMessagePump, RepositoryManager::Init and CreateGRPCServer of
-- src/common/GRPC.cpp): objects are addresses, the pumps are what stands at each one. App/Server
-- follows the program from its start to the calls of the proxy, App/Threads is about threads with
-- a pump of their own. Dispatch/Pump/Rounds and First are about one round and the first one.
--
-- Logging models src/base/logging.cpp on Linux, with the disk as a function from names to
-- contents. A call of the log is one step: calls that overlap, for which the code takes no lock,
-- are left out. Logging/File is about the file of the log, Logging/Tag about the tags. Metrics
-- models src/base/metrics/InfluxDBClient.cpp; Metrics/Line is about the line that is sent,
-- Metrics/Sender about the thread that is to send it.
--
-- EventHub models src/base/events: the map from names to handlers as an association list.
-- EventHub/Independence compares it with one list of handlers for each name.
--
-- Utils/Random models RandomInt and GenerateRandomString of src/base/Utils.cpp, and Utils the rest
-- that is modelled of it: `split`, whose loop over std::getline is split_from, EndsWith and
-- str_tolower, the latter in the locale of C.
--
-- Fuel: drain_queue and run_queue, the loops on a queue, get one unit more than the queue has
-- tasks, which is enough since each round takes one off. The other loops go over lists that are
-- given.
--
-- Not modelled: the copies of other projects under src/external, and generated code. Of the
-- repository's own code: the calls of the operating systems (threads, pipes, locks, the Windows
-- and Android pumps); the building of the server by gRPC; ListRefRequests.cpp, whose methods are
-- empty; the other functions of Utils.cpp, and the printing of numbers for metrics. Tasks that
-- post to the queue that is running them are left out, since the pump waits for its own lock then
-- and a runner loses its place in the queue. The models of the handlers in Git/Requests take a
-- call of the proxy, with the wait for its future, as one step of the manager; Git/Proxy has the
-- way through the pump that this step stands for.
pub mod Prelude
pub mod PriorityQueue
pub mod Base64
pub mod Pickle
pub mod Dispatch
pub mod TaskManager
pub mod EventHub
pub mod Utils
pub mod Git
pub mod App
pub mod Logging
pub mod Metrics
