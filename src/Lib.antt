-- ===== src/Lib.antt =====
-- Boruta manages a farm of test devices: users make requests, workers register themselves, and
-- matchers give each request that is due a worker that fits it. Users and administrators reach the
-- server over HTTP. On each device an agent, Dryad, prepares it for a user. This library models
-- the server, its HTTP API, the client of that API, and the agent.
--
-- The parts and their files:
-- - Common.antt and Common/: Boolean tests, lists and association lists over the native numbers,
--   texts as lists of code points with their order. A Go map is an association list.
-- - Types.antt: the data and the errors of boruta.go, requests/errors.go, workers/error.go and
--   matcher/error.go, and the results of calls: a value, an error, a panic, or a wait at a mutex
--   or a channel. Outcome.antt: what it means that a call ends well.
-- - Std.antt: what the program takes from the standard library of Go (container/heap, sort, net,
--   strings), as a parameter.
-- - Lists.antt: lists.go. Filter.antt: filter/filter.go, with its description in
--   Filter/Sound.antt. Sorter.antt: requests/sorter.go and workers/sorter.go. Tunnels.antt: the
--   state of tunnels/tunnels.go.
-- - Queue.antt: requests/queue.go, lanes by priority and an iterator that holds the mutex;
--   Queue/Counts.antt has what its changes do to the contents, Queue/Iterate.antt what the
--   iterator gives.
-- - Times.antt: requests/times.go and requests/timesheap.go, times with a timer set for the
--   earliest; Times/Past.antt is about what is taken when the timer fires, Times/Armed.antt about
--   what it is set for.
-- - Requests.antt and Paging.antt: requests/requests.go, ReqsCollection (NewRequest is
--   new_request, Run is run_request, Timeout is timeout_request, and so on).
--   Requests/Consistent.antt relates the queue to the requests, Requests/Keeps.antt takes the
--   operations one by one, Requests/Running.antt follows the workers that requests run on,
--   Requests/Ready.antt is about VerifyIfReady, Requests/Effects.antt about what calls do that are
--   allowed. Paging/Pages.antt and Paging/Walk.antt are about the pages of ListRequests,
--   Paging/Numbers.antt about the numbers that are said of them, Sorter/Order.antt about the order
--   of requests.
-- - Workers.antt: workers/workers.go, the list of workers and its getters. Workers/Best.antt is
--   about the loop that chooses a worker. Workers/Goroutine.antt: the operations of a worker's
--   goroutine call by call, as prepareKey and putInMaintenance; Workers/Endings.antt is about how
--   they end.
-- - Server.antt: the calls that cross from one part to another: setState with its listener,
--   OnWorkerFail, PrepareWorker, and the jobs of matcher/jobs.go. Server/Api.antt: closing a
--   request, and Register, SetFail, SetState, SetGroups and Deregister. Server/Matching.antt:
--   matcher/validmatcher.go. Server/Reception.antt: rpc/superviser/reception.go, how Register of a
--   Dryad reaches the server. Server/Background.antt: the goroutine that each worker has.
--   Server/Calls.antt: all that can happen to a server, with matcher/deadlinematcher.go and
--   matcher/timeoutmatcher.go.
-- - Server/Invariant.antt states what holds between calls; Server/Stop.antt, Server/States.antt,
--   Server/Keeps.antt, Server/Works.antt and Server/Safety.antt take the calls one by one,
--   Server/Reach.antt is about what calls lead to, and Server/Access.antt about whom they give a
--   worker to; Server/Deadlock.antt follows a match that fails. Requests/Leads.antt,
--   Server/Follows.antt and the modules below them are about the states that requests come to be
--   in. Server/Match.antt, Server/Best.antt, Server/Start.antt, Server/Iterate.antt and
--   Server/Ends.antt take the valid matcher from the choice of a worker to the loops;
--   Server/Room.antt, Server/Progress.antt and Server/Served.antt are about what it serves where
--   nothing is waited for.
-- - Http.antt: http/http.go and http/error.go, with `Web`, what the API takes from encoding/json,
--   strconv, encoding/pem and time, as a parameter. Http/Handlers.antt:
--   http/server/api/v1/handlers.go. Http/Router.antt: http/server/api/v1/api.go, the routes and
--   what is wrapped around a handler. Http/Panics.antt: panicHandler of http/server/api/api.go,
--   and jsonMustMarshal. Http/Versions.antt: the rest of http/server/api/api.go, the redirection
--   to the default version and paths that are not found. Http/Client.antt: http/client/client.go.
--   Http/Exchange.antt and Http/Network.antt put a method of the client and a route of the server
--   together; Http/Calls.antt and Http/RoundTrip.antt are about requests, Http/WorkerCalls.antt
--   about workers, Http/Listing.antt about ListRequests and ListWorkers, Http/Heads.antt about
--   HEAD. Http/Answers.antt and Http/Safe.antt take the handlers one by one and are about all
--   routes.
-- - Dryad.antt and Dryad/: the agent on a device. Dryad/Interface.antt has what it takes from the
--   operating system and the STM, as a parameter; Dryad.antt is dryad/user.go and dryad/key.go,
--   Dryad/Rusalka.antt dryad/rusalka.go and dryad/muxpi.go, Dryad/Conf.antt dryad/conf/conf.go.
--   Dryad/Ends.antt has what is documented of the system, Dryad/Keys.antt and Dryad/Prepared.antt
--   are about Prepare, Dryad/Blinking.antt about the LEDs.
-- - Samples.antt, Tests.antt and the modules below them: concrete servers, a concrete encoding,
--   and the theorems at them.
--
-- A time is a natural number of nanoseconds, 0 being the zero time; request IDs and times are
-- unbounded; a clock that the code reads is an argument. A channel holds 32 states at most, as in
-- the code. Calls are made one after another, each up to its return: the mutexes of requests and
-- of workers make them so, except that the code releases a mutex between the parts of some calls.
-- The loop of the valid matcher is on fuel: one more than the size of the queue for a round, since
-- each pass of the loop takes an element from the iterator, and as many rounds as the caller
-- gives, of which one more than the size of the queue is enough, since each round with a match
-- takes a request from the queue; to run out is a wait that never ends.
--
-- Not modelled: the router httptreemux, net/http, encoding/json and CORS, which are not in the
-- repository; the rest of rpc/, wrappers of net/rpc; cmd/dryad, which starts the agent; the
-- connection between the server and an agent, whose outcome is an argument of the steps and of the
-- operations of the goroutine; the copying of bytes in tunnels; mocks. They are input and output,
-- or generated.
pub mod Common
pub mod Dryad
pub mod Types
pub mod Outcome
pub mod Queue
pub mod Std
pub mod Times
pub mod Requests
pub mod Lists
pub mod Filter
pub mod Sorter
pub mod Paging
pub mod Tunnels
pub mod Workers
pub mod Server
pub mod Http
pub mod Samples
pub mod Tests
