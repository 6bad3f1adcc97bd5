-- ===== src/Server/Invariant.antt =====
-- What holds of the server between two calls, and the changes of requests, jobs and workers that keep
-- it.
use boruta.Common.{
  ℕ, ◌≡◌, sym, subst, ◌∙◌, ◌↔◌, ◌⊎◌, ◌≢◌, Bool, true, false, Option, none, some, arith, nat_eq,
  text_eq, text_beq_iff, text_beq, ◌==◌, Map, lookup, insert, delete, lookup-insert, lookup-delete,
  IsUnique, insert-IsUnique, delete-IsUnique, inl, inr, Bool-cases,
}
use boruta.Types.{
  ReqId, inprogress, req_state_eq, WorkerUuid, WorkerState, idle, run, ReqInfo, JobInfo,
}
use boruta.Requests.Running.{worker_of, IsAssigned, SameWorkers}
use boruta.Requests.Keeps.{IsHeld}
use boruta.Workers.{MapWorker, check_pending_operation, long_operation}
use boruta.Server.{Server, Job}

abbrev pub job_req : Option Job → Option ReqId
job_req none = none
job_req (some j) = some j.req

-- A job has a tunnel that is open.
abbrev pub IsOpen : Option Job → Type 0
IsOpen none = Unit
IsOpen (some j) = j.tunnel.is_closed ≡ false

-- Requests in progress and jobs correspond: request `id` runs on worker `w` exactly when the job of
-- `w` is for `id`.
pub record JobsMatch (m : Map ReqId ReqInfo) (jobs : Map WorkerUuid Job) : Type 0 where
  pub matched :
      (id : ReqId) (w : WorkerUuid)
      → (worker_of (lookup id m) ≡ some w) ↔ (job_req (lookup w jobs) ≡ some id)
  pub assigned : (id : ReqId) → IsAssigned (lookup id m)
  pub opened : (w : WorkerUuid) → IsOpen (lookup w jobs)

module _ {m : Map ReqId ReqInfo} {jobs : Map WorkerUuid Job} (v : JobsMatch m jobs) where
  -- Changes of requests that keep their workers.
  pub same-JobsMatch : {n : Map ReqId ReqInfo} → SameWorkers m n → JobsMatch n jobs
  same-JobsMatch w = record {
    matched = λ id u.
        (λ h. (v.matched id u).0 (sym (w.same id) ∙ h), λ h. w.same id ∙ (v.matched id u).1 h);
    assigned = λ id. w.assigned id (v.assigned id);
    opened = v.opened;
  }

  -- A request that runs on a worker stops, and the worker's job is deleted.
  pub stop-JobsMatch :
      (rid : ReqId) (w : WorkerUuid) (s : ReqInfo)
      → job_req (lookup w jobs) ≡ some rid
      → (s.state == inprogress) ≡ false
      → JobsMatch (insert rid s m) (delete w jobs)
  stop-JobsMatch rid w s e es = record {
    matched = λ id u. (
      λ h. ground (
        arith,
        lookup-insert rid id s m,
        lookup-delete w u jobs,
        v.matched id u,
        v.matched rid w,
        text_beq_iff w u,
      ),
      λ h. ground (
        arith,
        lookup-insert rid id s m,
        lookup-delete w u jobs,
        v.matched id u,
        v.matched rid u,
        v.matched rid w,
        text_beq_iff w u,
      ),
    );
    assigned = λ id. ground (arith, lookup-insert rid id s m, v.assigned id);
    opened = λ u. ground (arith, lookup-delete w u jobs, v.opened u);
  }

  -- A request that waits starts on a worker that has no job.
  pub start-JobsMatch :
      (rid : ReqId) (w : WorkerUuid) (r s : ReqInfo) (i : JobInfo) (j : Job)
      → worker_of (lookup rid m) ≡ none
      → lookup w jobs ≡ none
      → s.state ≡ inprogress
      → s.job ≡ some i
      → i.worker_uuid ≡ w
      → j.req ≡ rid
      → j.tunnel.is_closed ≡ false
      → JobsMatch (insert rid s m) (insert w j jobs)
  start-JobsMatch rid w r s i j e f es ej ei er eo = record {
    matched = λ id u. (
      λ h. ground (
        arith,
        lookup-insert rid id s m,
        lookup-insert w u j jobs,
        v.matched id u,
        v.matched rid u,
        v.matched id w,
        text_beq_iff w u,
      ),
      λ h. ground (
        arith,
        lookup-insert rid id s m,
        lookup-insert w u j jobs,
        v.matched id u,
        v.matched rid u,
        v.matched id w,
        text_beq_iff w u,
      ),
    );
    assigned = λ id. ground (arith, lookup-insert rid id s m, v.assigned id);
    opened = λ u. ground (arith, lookup-insert w u j jobs, v.opened u);
  }

-- What is pending for a worker's background goroutine is the worker's state: the last state that was
-- sent, or else the state whose operation it runs.
abbrev pub IsPending : Option WorkerState → Option WorkerState → WorkerState → Type 0
IsPending (some x) op state = x ≡ state
IsPending none (some op) state = op ≡ state
IsPending none none state = Unit

-- A worker that is idle or runs a job has a key.
abbrev pub IsKeyed : WorkerState → Option ℕ → Type 0
IsKeyed state (some k) = Unit
IsKeyed state none = (state ≢ idle) × (state ≢ run)

-- A long operation is one of those that backgroundLoop knows.
abbrev pub IsLong : Option WorkerState → Type 0
IsLong none = Unit
IsLong (some op) = long_operation op ≡ some op

pub record IsSane (uuid : WorkerUuid) (w : MapWorker) : Type 0 where
  pub named : w.info.worker_uuid ≡ uuid
  pub pending : IsPending (check_pending_operation w.background_operation) w.background w.info.state
  pub keyed : IsKeyed w.info.state w.key
  pub long : IsLong w.background

abbrev pub IsSane? : WorkerUuid → Option MapWorker → Type 0
IsSane? uuid none = Unit
IsSane? uuid (some w) = IsSane uuid w

-- A worker with a job is in state RUN.
abbrev pub IsBooked : Option Job → Option MapWorker → Type 0
IsBooked none w = Unit
IsBooked (some j) none = ⊥
IsBooked (some j) (some w) = w.info.state ≡ run

pub record WorkersMatch (m : Map WorkerUuid MapWorker) (jobs : Map WorkerUuid Job) : Type 0 where
  pub sane : (uuid : WorkerUuid) → IsSane? uuid (lookup uuid m)
  pub booked : (uuid : WorkerUuid) → IsBooked (lookup uuid jobs) (lookup uuid m)
  -- Go's maps hold a key once.
  pub unique : IsUnique m

module _ {m : Map WorkerUuid MapWorker} {jobs : Map WorkerUuid Job} (v : WorkersMatch m jobs) where
  -- A worker is stored that has no job or runs.
  pub store-WorkersMatch :
      (uuid : WorkerUuid) (w : MapWorker)
      → IsSane uuid w
      → ((lookup uuid jobs ≡ none) ⊎ (w.info.state ≡ run))
      → WorkersMatch (insert uuid w m) jobs
  store-WorkersMatch uuid w s b = record {
    unique = insert-IsUnique uuid w m v.unique;
    sane = λ u. elim (Bool-cases (text_beq uuid u)) [
      | inl h ↦
          rw (lookup-insert uuid u w m, h) (subst (λ x. IsSane x w) ((text_beq_iff uuid u).0 h) s)
      | inr h ↦ rw (lookup-insert uuid u w m, h) (v.sane u)
    ];
    booked = λ u. ground (arith, lookup-insert uuid u w m, text_beq_iff uuid u, v.booked u);
  }

  -- A worker that has no job goes.
  pub delete-WorkersMatch :
      (uuid : WorkerUuid) → lookup uuid jobs ≡ none → WorkersMatch (delete uuid m) jobs
  delete-WorkersMatch uuid b = record {
    unique = delete-IsUnique uuid m v.unique;
    sane = λ u. elim (Bool-cases (text_beq uuid u)) [
      | inl h ↦ rw (lookup-delete uuid u m, h) tt
      | inr h ↦ rw (lookup-delete uuid u m, h) (v.sane u)
    ];
    booked = λ u. ground (arith, lookup-delete uuid u m, text_beq_iff uuid u, v.booked u);
  }

  -- A job goes.
  pub delete_job-WorkersMatch : (uuid : WorkerUuid) → WorkersMatch m (delete uuid jobs)
  delete_job-WorkersMatch uuid = record {
    unique = v.unique;
    sane = v.sane;
    booked = λ u. ground (arith, lookup-delete uuid u jobs, v.booked u);
  }

  -- A worker that runs gets a job.
  pub insert_job-WorkersMatch :
      (uuid : WorkerUuid) (w : MapWorker) (j : Job)
      → lookup uuid m ≡ some w
      → w.info.state ≡ run
      → WorkersMatch m (insert uuid j jobs)
  insert_job-WorkersMatch uuid w j e er = record {
    unique = v.unique;
    sane = v.sane;
    booked = λ u. ground (arith, lookup-insert uuid u j jobs, text_beq_iff uuid u, v.booked u);
  }

-- What holds at every call; `iterating` tells whether the requests are iterated over, as they are
-- inside of the valid matcher only.
pub record Inv (iterating : Bool) (s : Server) : Type 0 where
  pub reqs_held : IsHeld s.reqs
  pub phase : s.reqs.iterating ≡ iterating
  pub jobs_match : JobsMatch s.reqs.requests s.jobs
  pub workers_match : WorkersMatch s.workers.workers s.jobs
  pub listens : s.workers.has_listener ≡ true
