-- ===== src/Lib.antt =====
-- ideacrawler: a crawler that runs as a server. Clients submit crawl jobs over gRPC, the server
-- fetches pages, follows their links and streams back the pages that the client asked for. In
-- cluster mode a server passes the fetching on to workers that have connected to it.
--
-- The parts of the program, and the files that model them:
--
-- - Proto and StatusCodes are the messages of protofiles/ideacrawler.pb.go, as far as the program
--   reads them, and the codes of statuscodes/statuscodes.go.
-- - Job is the `job` of job.go with its `subscriber` of worker.go: `sendPageHTML`, `done`, the
--   send on `cancelChan`. A job is one record, the queue of fetchbot in it a list of commands.
--   Job/Sending is about the pages that reach the client's channel.
-- - Web is the interface of what job.go calls and this repository does not define: net/url, the
--   purell, xpath and goquery libraries, fetchbot's queue. It is an argument of every definition
--   that uses it.
-- - Fetch has the three response handlers of job.go, Fetch/Links `checkEnqueueEligibility` and
--   `enqueueLinks`. Below them are the proofs, by what they are about: the URLs that are queued
--   (Links/Dedup, Links/History, Links/Targets, Links/Coverage), the report of `enqueueLinks` and
--   when it returns (Links/Reporting), the depth limit (Depth), the pages sent (Shipping,
--   Callback) and what a response adds to the queue (Queueing).
-- - RunJob is `RunJob` of job.go: the choice of the HTTP client, the idle time, the goroutine
--   that takes page requests (`handle_pages`), the seed, and, as a step relation in
--   RunJob/Lifecycle, the closing of `doneChan` by three parties. RunJob/Setup is the whole
--   function: the log, the client, the handlers and settings of the fetcher, and the deferred
--   function on every early return; RunJob/Ending is about what these leave behind, with the
--   settings of the fetcher in RunJob/Settings.
-- - ChromeClient is chromeclient/chromeclient.go: the start of the browser and the tabs,
--   `doNavigate` in ChromeClient/Navigate, `doJS` and `Do` in ChromeClient/Script. The answers of
--   the browser and of the devtools library in one call are a record. The proofs are about the
--   tabs left open (Tabs, with Opening), the answers (Answers, Returning, Outcomes), the URL of a
--   script (Encoding), the scroll loop (Scroll) and what follows a failed start (Startup).
-- - Login is the login of `makeHTTPClientLoginDirect` in job.go (Login/Parsing is about the
--   fields that it posts, Login/Direct about its outcome), Login/Chrome `setupChromeClient` and
--   the two clients that use chrome. Doer is the `Do` of doer.go, with the random numbers of its
--   pauses (Doer/Random, Doer/Pauses) and the goroutines that prefetch (Doer/Prefetching), and
--   PrefetchUrl is prefetchurl/prefetchurl.go.
-- - Server is the registry of worker.go: `addNewJob` and the rounds of `jobManager`. Jobs lie in
--   a store under their ids, and a pointer to a job is its id. Server/Refinement is the abstract
--   view, a function from ids to jobs, which Server/Refinement/Runs relates to any run of the
--   registry. Server/Rpc has `AddPages`, `CancelJob` and `GetWorkerID`, Server/Rpc/Streams the
--   two handlers that stream to a client.
-- - WorkerQueue is workerqueue.go. WorkerManager is workermanager.go: `createNewClient`,
--   `newWorkerJob` and `Do`; WorkerManager/Protocol is the goroutine `run` with the callers of
--   `nextWorker` as a step relation, WorkerManager/Responses is `respHandler`,
--   WorkerManager/Listener `startClusterListener`, and WorkerManager/Answers joins the job that a
--   manager starts on a worker to the handlers of Fetch.
-- - Main is main.go with the listeners and `startCrawlerWorker` of worker.go; Main/Modes is about
--   the modes.
-- - GoClient is goclient/: the job spec with its options (GoClient/Spec), `CrawlJob`
--   (GoClient/CrawlJob), its `run` with the goroutine that passes pages on, as a step relation
--   (GoClient/Passing), and the dial of a worker (GoClient/Connection).
-- - Delivery joins GoClient, Server and RunJob: the way of a page request from the client into
--   the queue of the crawl, with the goroutine that takes it there in Delivery/Serving.
--
-- Prelude has what these share: Boolean tests and lists over the native numbers, texts, maps as
-- association lists (Prelude/Dict), buffered channels (Prelude/Chan), int32 and int64 as integers
-- (Prelude/Int), and `Outcome`, which is a value, a wait that nothing in the state ends, or a
-- panic. A `select` with two ready cases takes either, so the choice is an argument; a map that
-- is ranged over is taken in the order of its insertion.
--
-- How the parts interact: `AddDomainAndListen` (Server/Rpc/Streams) makes a job in the registry
-- (Server) and streams its send channel, which the handlers (Fetch, Job) fill; `AddPages`
-- (Server/Rpc) fills its request channel, which `handle_pages` (RunJob) turns into commands; the
-- fetcher hands responses to the handlers, which put further commands into the queue. `CancelJob`
-- and a lost client wake the cancel goroutine (Job, RunJob/Lifecycle), which closes `doneChan`,
-- and the registry drops the job. In a cluster the manager is itself a client (GoClient) of its
-- workers.
--
-- Bounds and fuel: three loops run on fuel. That of `next` in WorkerQueue has one round more than
-- the queue has workers, and its theorem says that this is enough. The one that scrolls to the
-- end of a page has as many turns as it is given, since the page decides when it ends; its
-- theorem says how many are enough. So does the loop of `genRand` in Doer/Random, which ends with
-- the first draw that is large enough; `gen_loop-Returns` says that it does. The loop over the
-- responses that a tab receives is a recursion on their list. Depths are int32 and wrap around.
-- The capacities of the channels are those of the source.
--
-- Not modelled: the cookies and timeouts of the transports of job.go, `Stop` of chromeclient.go,
-- the semaphore of doer.go, the parsing of the flags and the profiler in main.go, logging and
-- files on disk, generated and vendored code, the Python client, the examples. The fetcher itself
-- is a library: which handler it calls, when, and how many at once is not part of the model, only
-- what the handlers do.
pub mod Prelude
pub mod Proto
pub mod StatusCodes
pub mod WorkerQueue
pub mod Job
pub mod Web
pub mod Samples
pub mod Fetch
pub mod Server
pub mod PrefetchUrl
pub mod ChromeClient
pub mod Doer
pub mod Login
pub mod RunJob
pub mod GoClient
pub mod WorkerManager
pub mod Main
pub mod Delivery
