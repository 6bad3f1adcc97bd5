-- ===== src/Server/Access.antt =====
-- AcquireWorker of requests/requests.go, on the servers that calls lead to: whom a worker is given.
use boruta.Common.{
  ◌≡◌, ◌↔◌, sym, refl, subst, arith, false, Option, none, some, codes, lookup, nat_eq, text_eq,
  ◌==◌, Option-cases, Bool-cases, inl, inr,
}
use boruta.Types.{
  ReqId, WorkerUuid, AccessInfo, inprogress, req_state_eq, run, not_found, worker_not_assigned,
  Error, Result, ok, err, panic, blocked,
}
use boruta.Std.{Std, SortLaws}
use boruta.Workers.{MapWorker}
use boruta.Requests.{find_request}
use boruta.Requests.Running.{worker_of}
use boruta.Server.{Server, Job, get_job}
use boruta.Server.Api.{acquire_worker}
use boruta.Server.Invariant.{Inv, IsBooked, IsOpen, job_req}
use boruta.Server.Follows.Step.{Later, Later-Follows}

-- What is given is the access of a worker's job, for the request and for no other, with the tunnel
-- open and the worker in state RUN.
pub record Granted (s : Server) (id : ReqId) (info : AccessInfo) : Type 0 where
  pub uuid : WorkerUuid
  pub worker : MapWorker
  pub job : Job
  pub known : lookup uuid s.workers.workers ≡ some worker
  pub runs : worker.info.state ≡ run
  pub booked : lookup uuid s.jobs ≡ some job
  pub access : info ≡ job.access
  pub own : job.req ≡ id
  pub opened : job.tunnel.is_closed ≡ false
  pub alone :
      (other : ReqId) → (worker_of (lookup other s.reqs.requests) ≡ some uuid) ↔ (other ≡ id)

-- An error is for a request that runs on no worker; there is no panic and no wait.
abbrev pub Grants : Server → ReqId → Result AccessInfo → Type 0
Grants s id (ok info) = Granted s id info
Grants s id (err e) = worker_of (lookup id s.reqs.requests) ≡ none
Grants s id panic = ⊥
Grants s id blocked = ⊥

job_of :
    (o : Option Job) (id : ReqId) → job_req o ≡ some id → (j : Job) × (o ≡ some j) × (j.req ≡ id)
job_of none id e = cc
job_of (some j) id e = (j, refl, cc)

booked_worker :
    (j : Job) (o : Option MapWorker)
    → IsBooked (some j) o
    → (w : MapWorker) × (o ≡ some w) × (w.info.state ≡ run)
booked_worker j none h = absurd h
booked_worker j (some w) h = (w, refl, h)

refused :
    (s : Server) (id : ReqId)
    → worker_of (lookup id s.reqs.requests) ≡ none
    → (e : Error) × (acquire_worker id s ≡ err e)
unfolding acquire_worker find_request
refused s id h = elim (Option-cases (lookup id s.reqs.requests)) [
  | inl n ↦ (not_found (codes "Request"), rw n refl)
  | inr (r, e) ↦ elim (Bool-cases (r.state == inprogress)) [
    | inl f ↦ elim (Option-cases r.job) [
      | inl g ↦ (worker_not_assigned, rw (e, f, g) refl)
      | inr (j, g) ↦ ground (arith, h, e, f, g)
    ]
    | inr f ↦ (worker_not_assigned, rw (e, f) refl)
  ]
]

given :
    (s : Server) (id : ReqId) (uuid : WorkerUuid) (j : Job)
    → worker_of (lookup id s.reqs.requests) ≡ some uuid
    → lookup uuid s.jobs ≡ some j
    → acquire_worker id s ≡ ok j.access
unfolding acquire_worker find_request get_job
given s id uuid j h e = ground (arith, h, e)

Inv-Grants : {s : Server} → Inv false s → (id : ReqId) → Grants s id (acquire_worker id s)
Inv-Grants {s} v id = elim (Option-cases (worker_of (lookup id s.reqs.requests))) [
  | inl n ↦ let (e, f) = refused s id n in subst (Grants s id) (sym f) n
  | inr (uuid, h) ↦
      let (j, e, own) = job_of (lookup uuid s.jobs) id ((v.jobs_match.matched id uuid).0 h) in
      let (w, known, runs) =
        booked_worker j (lookup uuid s.workers.workers) (
          subst (λ o. IsBooked o (lookup uuid s.workers.workers)) e
            (v.workers_match.booked uuid)) in
      subst (Grants s id) (sym (given s id uuid j h e)) (record {
        uuid = uuid;
        worker = w;
        job = j;
        known = known;
        runs = runs;
        booked = e;
        access = refl;
        own = own;
        opened = subst IsOpen e (v.jobs_match.opened uuid);
        alone = λ other. (
          λ k. ground (arith, (v.jobs_match.matched other uuid).0 k, e, own),
          λ k. subst (λ i. worker_of (lookup i s.reqs.requests) ≡ some uuid) (sym k) h,
        );
      })
]

-- If sort.Sort permutes the workers it is given and the server has the invariant, then after any
-- calls that return, one after another, of users, administrators, workers, timers and background
-- goroutines, AcquireWorker of any request does not panic and does not wait; if it returns an
-- access, it is that of a job of the request, whose tunnel is open, on a worker that is known and
-- in state RUN and that no other request runs on; and if it returns an error, the request runs on
-- no worker.
pub acquire_worker-Grants :
    ⦃std : Std⦄ (laws : SortLaws std) (s t : Server)
    → Inv false s
    → Later s t
    → (id : ReqId) → Grants t id (acquire_worker id t)
acquire_worker-Grants laws s t v l id = Inv-Grants (Later-Follows laws s t v l).0 id
