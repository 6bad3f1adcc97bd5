-- ===== src/Server/Follows.antt =====
-- The states of requests, through the calls that cross from one part of the server to another.
pub mod Calls
pub mod Match
pub mod Iterate
pub mod Step
use boruta.Common.{
  ◌≡◌, refl, sym, ap, subst, ◌⊎◌, inl, inr, Bool, true, false, not, ◌&&◌, ◌||◌, Option, none, some,
  Map, lookup, insert, nat_eq, text_eq, ◌==◌, arith, Bool-cases, ◌↔◌, if◌then◌else◌,
}
use boruta.Types.{
  ReqId, WorkerUuid, WorkerState, ReqState, Time, ReqInfo, JobInfo, idle, run, prepare, wait,
  inprogress, cancel, timeout, invalid, done, failed, req_state_eq, worker_state_eq, Result, ok,
  err, panic, blocked, Error, ◌>>=◌,
}
use boruta.Std.{Std}
use boruta.Outcome.{
  Every, gives, refuses, breaks, stays, Every-bind, Every-after, Every-or_fail, Every-fail_if,
  Every-if, Every-map,
}
use boruta.Requests.{ReqsCollection, find_request, store_request, cancel_request}
use boruta.Requests.Running.{worker_of}
use boruta.Requests.Leads.{
  Leads, Keeps, Leads-refl, Leads-trans, insert-Leads, open-IsKept, is_running,
}
use boruta.Requests.Leads.Calls.{cancel_request-Every, on_worker_idle-Every}
use boruta.Tunnels.{close_tunnel}
use boruta.Workers.{find_worker, store_worker}
use boruta.Server.{
  Server, Job, ignore, get_job, break_job, fail_request, on_worker_fail, tell_idle, tell_fail,
  notify_listener, set_state, send, prepare_worker, finish_job, close_running,
}
use boruta.Server.Invariant.{JobsMatch, job_req}

-- What becomes of the requests of a server in a later one.
abbrev pub Follows : Server → Server → Type 0
Follows s t = Keeps s.reqs t.reqs

pub Follows-refl : (s : Server) → Follows s s
Follows-refl s = Leads-refl s.reqs.requests

pub ignore-Every :
    {P : Server → Type 0} (s : Server) {m : Result Server} → P s → Every P m → Every P (ignore s m)
ignore-Every s p (gives q) = gives q
ignore-Every s p refuses = gives p
ignore-Every s p breaks = breaks
ignore-Every s p stays = stays

-- One call after another.
pub Every-then :
    (s : Server) {m : Result Server} {f : Server → Result Server}
    → Every (Follows s) m
    → ((t : Server) → m ≡ ok t → Every (Follows t) (f t))
    → Every (Follows s) (m >>= f)
Every-then s h k = Every-bind h λ t e p. Every-map (k t e) λ u q. Leads-trans p q

-- A request that a job is for is in progress.
job_open :
    {m : Map ReqId ReqInfo} {jobs : Map WorkerUuid Job} (v : JobsMatch m jobs) (uuid : WorkerUuid)
    (j : Job) (r : ReqInfo)
    → lookup uuid jobs ≡ some j
    → lookup j.req m ≡ some r
    → r.state ≡ inprogress
job_open v uuid j r e f =
    let at : worker_of (some r) ≡ some uuid =
      subst (λ o. worker_of o ≡ some uuid) f ((v.matched j.req uuid).1 (rw e refl)) in
    is_running r (ground (arith, at))

break_job-Every : (uuid : WorkerUuid) (s : Server) → Every (λ t. t.reqs ≡ s.reqs) (break_job uuid s)
unfolding break_job
break_job-Every uuid s =
    Every-after (get_job uuid s) λ job. Every-after (close_tunnel job.tunnel) λ _. gives refl

fail_request-Follows :
    (rid : ReqId) (r : ReqInfo) (s t : Server)
    → t.reqs ≡ s.reqs
    → lookup rid s.reqs.requests ≡ some r
    → r.state ≡ inprogress
    → Follows s (fail_request rid r t)
unfolding fail_request store_request
fail_request-Follows rid r s t e f h =
    subst (λ c. Leads s.reqs.requests (insert rid (record r { state = failed }) c.requests)) (sym e)
      (insert-Leads s.reqs.requests rid (record r { state = failed })
        (open-IsKept _ r _ inprogress f h refl))

module _ (s : Server) (v : JobsMatch s.reqs.requests s.jobs) where
  fail_job-Every :
      (uuid : WorkerUuid) (j : Job) (o : Option ReqInfo)
      → lookup uuid s.jobs ≡ some j
      → lookup j.req s.reqs.requests ≡ o
      → Every (Follows s) (elim o as (λ _. Result Server) [
        | none ↦ panic
        | some req ↦ ignore s (break_job uuid s) >>= λ t. ok (fail_request j.req req t)
      ])
  fail_job-Every uuid j none e f = breaks
  fail_job-Every uuid j (some r) e f =
      Every-bind (ignore-Every s refl (break_job-Every uuid s))
        λ t _ same. gives (fail_request-Follows j.req r s t same f (job_open v uuid j r e f))

  fail_at-Every :
      (uuid : WorkerUuid) (o : Option Job)
      → lookup uuid s.jobs ≡ o
      → Every (Follows s) (elim o as (λ _. Result Server) [
        | none ↦ ok s
        | some job ↦ elim (lookup job.req s.reqs.requests) as (λ _. Result Server) [
          | none ↦ panic
          | some req ↦ ignore s (break_job uuid s) >>= λ t. ok (fail_request job.req req t)
        ]
      ])
  fail_at-Every uuid none e = gives (Follows-refl s)
  fail_at-Every uuid (some j) e = fail_job-Every uuid j (lookup j.req s.reqs.requests) e refl

  on_worker_fail-Every : (uuid : WorkerUuid) → Every (Follows s) (on_worker_fail uuid s)
  unfolding on_worker_fail
  on_worker_fail-Every uuid = fail_at-Every uuid (lookup uuid s.jobs) refl

-- A state that is no end of a job, or a server whose jobs match its requests.
abbrev pub IsSafe : WorkerState → Server → Type 0
IsSafe state s = ((state == idle || state == prepare) ≡ true) ⊎ JobsMatch s.reqs.requests s.jobs

module _ ⦃std : Std⦄ where
  tell_fail-Every :
      (uuid : WorkerUuid) (old state : WorkerState) (s : Server)
      → IsSafe state s
      → Every (Follows s) (tell_fail uuid old state s)
  unfolding tell_fail
  tell_fail-Every uuid old state s (inl quiet) =
      Every-if (old == run && not (state == idle) && not (state == prepare))
        (λ e. absurd (ground (arith, e, quiet))) (λ _. gives (Follows-refl s))
  tell_fail-Every uuid old state s (inr v) =
      Every-if (old == run && not (state == idle) && not (state == prepare))
        (λ _. on_worker_fail-Every s v uuid) (λ _. gives (Follows-refl s))

  -- A call of the requests' collection.
  pub reqs-Every :
      (s : Server) {m : Result ReqsCollection}
      → Every (Keeps s.reqs) m
      → Every (Follows s) (m >>= λ c. ok (record s { reqs = c }))
  reqs-Every s h = Every-bind h λ c _ k. gives k

  tell_idle-Every :
      (uuid : WorkerUuid) (state : WorkerState) (now : Time) (s : Server)
      → IsSafe state s
      → Every (λ t. Follows s t × IsSafe state t) (tell_idle uuid state now s)
  unfolding tell_idle
  tell_idle-Every uuid state now s h =
      Every-if (state == idle)
        (λ e.
          Every-map (reqs-Every s (on_worker_idle-Every s.reqs uuid now))
            λ t k. (k, inl (ground (arith, e))))
        (λ _. gives (Follows-refl s, h))

  notify_listener-Every :
      (uuid : WorkerUuid) (old state : WorkerState) (now : Time) (s : Server)
      → IsSafe state s
      → Every (Follows s) (notify_listener uuid old state now s)
  unfolding notify_listener
  notify_listener-Every uuid old state now s h =
      Every-if s.workers.has_listener
        (λ _.
          Every-bind (tell_idle-Every uuid state now s h) λ t _ (k, safe).
            Every-map (tell_fail-Every uuid old state t safe) λ u l. Leads-trans k l)
        (λ _. gives (Follows-refl s))

  pub set_state-Every :
      (uuid : WorkerUuid) (state : WorkerState) (now : Time) (s : Server)
      → IsSafe state s
      → Every (Follows s) (set_state uuid state now s)
  unfolding set_state find_worker
  set_state-Every uuid state now s h = Every-or_fail (lookup uuid s.workers.workers) _ λ w _.
      Every-after (send state w)
        λ sent. Every-bind (notify_listener-Every uuid w.info.state state now s h) λ t _ k. gives k

  pub prepare_worker-Every :
      (uuid : WorkerUuid) (b : Bool) (now : Time) (s : Server)
      → Every (Follows s) (prepare_worker uuid b now s)
  unfolding prepare_worker find_worker
  prepare_worker-Every uuid b now s = Every-or_fail (lookup uuid s.workers.workers) _ λ w _.
      Every-fail_if (not (w.info.state == run)) _
        λ _. set_state-Every uuid (if b then prepare else idle) now s (inl (ground arith))

  finish_job-Every :
      (uuid : WorkerUuid) (now : Time) (s : Server) → Every (Follows s) (finish_job uuid now s)
  unfolding finish_job
  finish_job-Every uuid now s =
      Every-bind (ignore-Every s refl (break_job-Every uuid s)) λ t _ same.
        Every-map (ignore-Every t (Follows-refl t) (prepare_worker-Every uuid true now t))
          λ u k. subst (λ c. Leads c.requests u.reqs.requests) same k

  finish_of-Every :
      (o : Option JobInfo) (now : Time) (s : Server)
      → Every
          (Follows s)
          (elim o as (λ _. Result Server) [ none ↦ ok s | some j ↦ finish_job j.worker_uuid now s ])
  finish_of-Every none now s = gives (Follows-refl s)
  finish_of-Every (some j) now s = finish_job-Every j.worker_uuid now s

  pub close_running-Every :
      (rid : ReqId) (r : ReqInfo) (now : Time) (s : Server)
      → lookup rid s.reqs.requests ≡ some r
      → r.state ≡ inprogress
      → Every (Follows s) (close_running rid r now s)
  unfolding close_running store_request
  close_running-Every rid r now s e h =
      let t = record s {
        reqs = record (s.reqs) {
          requests = insert rid (record r { state = done }) s.reqs.requests;
        };
      } in
      Every-map (finish_of-Every r.job now t) λ u k.
        Leads-trans
          (insert-Leads s.reqs.requests rid (record r { state = done })
            (open-IsKept _ r _ inprogress e h refl))
          k
