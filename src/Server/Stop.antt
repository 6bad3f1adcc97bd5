-- ===== src/Server/Stop.antt =====
-- How a request stops that runs, with the job of its worker: jobs.Finish, OnWorkerFail.
use boruta.Common.{
  ◌≡◌, refl, ap, subst, Bool, false, Option, none, some, arith, nat_eq, text_eq, beq_refl, ◌==◌,
  lookup, insert, delete, lookup-delete, inl, inr, Option-cases,
}
use boruta.Types.{wait, inprogress, req_state_eq, WorkerUuid, ReqInfo, ok}
use boruta.Outcome.{Sound, returns}
use boruta.Tunnels.{close_tunnel}
use boruta.Requests.Consistent.{settle-IsConsistent}
use boruta.Requests.Running.{worker_of}
use boruta.Requests.{store_request}
use boruta.Server.{Server, Job, break_job, on_worker_fail, fail_request}
use boruta.Server.Invariant.{Inv, job_req, IsOpen, stop-JobsMatch, delete_job-WorkersMatch}

-- The request of a job runs on the job's worker.
pub worker_of-some :
    (o : Option ReqInfo) (w : WorkerUuid)
    → worker_of o ≡ some w
    → (r : ReqInfo) × (o ≡ some r) × (r.state ≡ inprogress)
worker_of-some none w e = cc
worker_of-some (some r) w e = (r, refl, ground arith)

pub break_job-ok :
    (s : Server) (w : WorkerUuid) (j : Job)
    → lookup w s.jobs ≡ some j
    → IsOpen (lookup w s.jobs)
    → break_job w s ≡ ok (record s { jobs = delete w s.jobs })
unfolding break_job close_tunnel
break_job-ok s w j e o =
    let open_tunnel : j.tunnel.is_closed ≡ false = subst IsOpen e o in rw (e, open_tunnel)

module _ {b : Bool} {s : Server} (v : Inv b s) where
  pub job_request :
      (w : WorkerUuid) (j : Job)
      → lookup w s.jobs ≡ some j
      → (r : ReqInfo) × (lookup j.req s.reqs.requests ≡ some r) × (r.state ≡ inprogress)
  job_request w j e = worker_of-some _ w ((v.jobs_match.matched j.req w).1 (ap job_req e))

  -- The request of a worker's job is put into another state, and the job is gone.
  pub stopped-Inv :
      (w : WorkerUuid) (j : Job) (r t : ReqInfo)
      → lookup w s.jobs ≡ some j
      → lookup j.req s.reqs.requests ≡ some r
      → r.state ≡ inprogress
      → t.id ≡ r.id
      → t.priority ≡ r.priority
      → (t.state == wait) ≡ false
      → (t.state == inprogress) ≡ false
      → Inv b (record s {
        reqs = record (s.reqs) { requests = insert j.req t s.reqs.requests };
        jobs = delete w s.jobs;
      })
  stopped-Inv w j r t e er ei tid tp tw ti = record {
    reqs_held = record {
      consistent = settle-IsConsistent v.reqs_held.consistent j.req r t er tid tp (ground arith) tw;
      held = v.reqs_held.held;
    };
    phase = v.phase;
    jobs_match = stop-JobsMatch v.jobs_match j.req w t (ap job_req e) ti;
    workers_match = delete_job-WorkersMatch v.workers_match w;
    listens = v.listens;
  }

-- What a stop on worker `w` leaves: no job there, and the workers as they were.
pub record Stopped (b : Bool) (w : WorkerUuid) (s t : Server) : Type 0 where
  pub inv : Inv b t
  pub no_job : lookup w t.jobs ≡ none
  pub workers : t.workers ≡ s.workers

-- OnWorkerFail, in a server that has the invariant, keeps it, leaves the worker without a job and
-- changes no worker. It returns so, or returns an error, or waits at a mutex or a channel, and
-- never panics.
pub on_worker_fail-Stopped :
    {b : Bool} {s : Server} (v : Inv b s) (w : WorkerUuid)
    → Sound (Stopped b w s) (on_worker_fail w s)
unfolding on_worker_fail store_request fail_request
on_worker_fail-Stopped {b} {s} v w = elim (Option-cases (lookup w s.jobs)) [
  | inl e ↦ rw (e, on_worker_fail) (returns (record { inv = v; no_job = e; workers = refl }))
  | inr (j, e) ↦
      let (r, er, ei) = job_request v w j e in
      rw (e, on_worker_fail, er, break_job-ok s w j e (v.jobs_match.opened w))
        (returns (record {
          inv = stopped-Inv v w j r _ e er ei refl refl refl refl;
          no_job = rw (lookup-delete w w s.jobs, beq_refl w);
          workers = refl;
        }))
]
