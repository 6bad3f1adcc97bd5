-- ===== src/Server.antt =====
-- How the parts of the server call each other: requests/requests.go, workers/workers.go and
-- matcher/jobs.go, for the calls that cross from one to another. An error that the source
-- drops is dropped by `ignore`.
pub mod Invariant
pub mod Stop
pub mod States
pub mod Keeps
pub mod Safety
pub mod Reach
pub mod Access
pub mod Works
pub mod Deadlock
pub mod Api
pub mod Matching
pub mod Match
pub mod Best
pub mod Start
pub mod Iterate
pub mod Ends
pub mod Room
pub mod Progress
pub mod Served
pub mod Reception
pub mod Background
pub mod Calls
pub mod Follows
use boruta.Common.{
  ℕ, suc, ◌+◌, ◌≤◌, ◌≡◌, Bool, true, false, not, ◌&&◌, ◌||◌, Option, none, some, List, [], ◌∷◌,
  ◌++◌, Text, codes, text_eq, ◌==◌, nat_eq, if◌then◌else◌, ltb, leb, Map, lookup, insert, delete,
  length,
}
use boruta.Types.{
  ReqId, ReqState, inprogress, done, failed, WorkerUuid, WorkerState, idle, run, prepare,
  worker_state_eq, worker_state_beq, Time, ReqInfo, AccessInfo, TcpAddr, Error, not_found,
  job_already_exists, forbidden_state_change, Result, ok, err, panic, blocked, ◌>>=◌, ◌>>◌, fail_if,
  or_fail,
}
use boruta.Std.{Std}
use boruta.Tunnels.{Tunnel, create_tunnel, close_tunnel, tunnel_addr}
use boruta.Requests.{ReqsCollection, no_request, find_request, store_request, on_worker_idle}
use boruta.Workers.{
  MapWorker, WorkerList, find_worker, store_worker, get_worker_ssh_addr, get_worker_key, deref,
}

-- workers/job.go
pub record Job : Type 0 where
  pub access : AccessInfo
  pub tunnel : Tunnel
  pub req : ReqId

pub record Server : Type 0 where
  pub reqs : ReqsCollection
  pub workers : WorkerList
  pub jobs : Map WorkerUuid Job

abbrev pub no_job : Error
no_job = not_found (codes "Job")

abbrev pub ignore : Server → Result Server → Result Server
ignore s (ok t) = ok t
ignore s (err e) = ok s
ignore s panic = panic
ignore s blocked = blocked

-- The capacity of the channels, backgroundOperationsBufferSize.
abbrev pub buffer_size : ℕ
buffer_size = 32

unfoldable pub send : WorkerState → MapWorker → Result MapWorker
send state w =
    if ltb (length w.background_operation) buffer_size
    then ok (record w { background_operation = w.background_operation ++ state ∷ [] })
    else blocked

-- JobsManagerImpl.Get
unfoldable pub get_job : WorkerUuid → Server → Result Job
get_job worker s = or_fail (lookup worker s.jobs) no_job

-- JobsManagerImpl.Finish with prepare false, which is also its critical section.
unfoldable pub break_job : WorkerUuid → Server → Result Server
unfolding get_job
break_job worker s = do
  job ← get_job worker s
  closed ← close_tunnel job.tunnel
  ok (record s { jobs = delete worker s.jobs })

-- A request known to exist gets a new state.
unfoldable pub fail_request : ReqId → ReqInfo → Server → Server
fail_request rid req s = record s {
  reqs = store_request rid (record req { state = failed }) s.reqs;
}

-- ReqsCollection.OnWorkerFail
unfoldable pub on_worker_fail : WorkerUuid → Server → Result Server
unfolding break_job fail_request
on_worker_fail worker s = elim (lookup worker s.jobs) [
  | none ↦ ok s
  | some job ↦ elim (lookup job.req s.reqs.requests) [
    | none ↦ panic
    | some req ↦ do t ← ignore s (break_job worker s); ok (fail_request job.req req t)
  ]
]

module _ ⦃std : Std⦄ where
  -- What setState tells the listener: that a worker is idle, and that a job was broken. `now` is the
  -- clock of OnWorkerIdle.
  unfoldable pub tell_idle : WorkerUuid → WorkerState → Time → Server → Result Server
  tell_idle uuid state now s =
      if state == idle
      then (on_worker_idle uuid now s.reqs >>= λ c. ok (record s { reqs = c }))
      else ok s

  unfoldable pub tell_fail : WorkerUuid → WorkerState → WorkerState → Server → Result Server
  unfolding on_worker_fail
  tell_fail uuid old state s =
      if old == run && not (state == idle) && not (state == prepare)
      then on_worker_fail uuid s
      else ok s

  unfoldable pub notify_listener :
      WorkerUuid → WorkerState → WorkerState → Time → Server → Result Server
  unfolding tell_idle tell_fail
  notify_listener uuid old state now s =
      if s.workers.has_listener
      then (tell_idle uuid state now s >>= λ t. tell_fail uuid old state t)
      else ok s

  -- setState
  unfoldable pub set_state : WorkerUuid → WorkerState → Time → Server → Result Server
  unfolding notify_listener send
  set_state uuid state now s = do
    w ← find_worker uuid s.workers
    sent ← send state w
    t ← notify_listener uuid w.info.state state now s
    ok (record t {
      workers =
          store_worker uuid (record sent { info = record (w.info) { state = state } }) t.workers;
    })

  -- PrepareWorker
  unfoldable pub prepare_worker : WorkerUuid → Bool → Time → Server → Result Server
  unfolding set_state
  prepare_worker uuid with_key_generation now s = do
    w ← find_worker uuid s.workers
    fail_if (not (w.info.state == run)) forbidden_state_change
    set_state uuid (if with_key_generation then prepare else idle) now s

  -- JobsManagerImpl.Finish with prepare true: PrepareWorker is deferred, so it is called whether there
  -- was a job or not. Its error is dropped, as callers drop that of Finish.
  unfoldable pub finish_job : WorkerUuid → Time → Server → Result Server
  unfolding break_job prepare_worker
  finish_job worker now s = do
    t ← ignore s (break_job worker s)
    ignore t (prepare_worker worker true now t)

  -- closeRequest
  unfoldable pub close_running : ReqId → ReqInfo → Time → Server → Result Server
  unfolding finish_job
  close_running rid req now s = do
    let t = record s { reqs = store_request rid (record req { state = done }) s.reqs }
    elim req.job [ none ↦ ok t | some j ↦ finish_job j.worker_uuid now t ]
