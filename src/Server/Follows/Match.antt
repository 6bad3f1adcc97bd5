-- ===== src/Server/Follows/Match.antt =====
-- The states of requests, through a match of the valid matcher.
use boruta.Common.{
  ◌≡◌, refl, sym, subst, inr, Bool, true, false, not, Option, none, some, List, [], Text, lookup,
  is_none, nat_eq, text_eq, nat_beq,
}
use boruta.Types.{
  ReqId, WorkerUuid, Time, ReqInfo, TcpAddr, Capabilities, run, Result, ok, err, panic, blocked,
  ◌>>=◌,
}
use boruta.Std.{Std}
use boruta.Filter
use boruta.Outcome.{
  Every, gives, breaks, stays, Every-bind, Every-after, Every-fail_if, Every-if, Every-map,
  Every-ok,
}
use boruta.Tunnels.{create_tunnel}
use boruta.Requests.{ReqsCollection, run_request, verify_if_ready, get_request}
use boruta.Requests.Leads.{Leads, Keeps, Leads-trans}
use boruta.Requests.Leads.Calls.{run_request-Every}
use boruta.Workers.{matching_workers, best_of, max_int32, get_worker_ssh_addr, get_worker_key}
use boruta.Server.{Server, ignore, prepare_worker}
use boruta.Server.Invariant.{JobsMatch}
use boruta.Server.Follows.{
  Follows, Follows-refl, ignore-Every, set_state-Every, prepare_worker-Every,
}
use boruta.Server.Matching.{
  Round, create_job, panic_on_error, take_best, start_job, match_workers, try_request,
}

create_job-Every :
    (rid : ReqId) (uuid : WorkerUuid) (listened : Option TcpAddr) (s : Server)
    → Every (λ t. t.reqs ≡ s.reqs) (create_job rid uuid listened s)
unfolding create_job
create_job-Every rid uuid listened s = Every-fail_if (not (is_none (lookup uuid s.jobs))) _ λ _.
    Every-after (get_worker_ssh_addr uuid s.workers) λ addr.
      Every-after (get_worker_key uuid s.workers)
        λ key. Every-after (create_tunnel listened addr) λ t. gives refl

-- What a match, or none, makes of the server.
abbrev pub Matched : Server → Bool × Server → Type 0
Matched s (b, t) = Follows s t

module _ ⦃std : Std⦄ where
  take_best-Every :
      (groups : List Text) (caps : Capabilities) (now : Time) (s : Server)
      → JobsMatch s.reqs.requests s.jobs
      → Every (λ (uuid, t). Follows s t) (take_best groups caps now s)
  unfolding take_best
  take_best-Every groups caps now s v =
      let f = Filter.match_worker (Filter.new_workers groups caps) in
      Every-after (panic_on_error (matching_workers (some f) none [] true s.workers)) λ matching.
        let best = best_of max_int32 [] matching in
        Every-fail_if (nat_beq best.0 max_int32) _
          λ _. Every-bind (set_state-Every best.1 run now s (inr v)) λ t _ k. gives k

  give_up-Every :
      (uuid : WorkerUuid) (now : Time) (s t : Server)
      → Follows s t
      → Every (Matched s) (ignore t (prepare_worker uuid false now t) >>= λ u. ok (false, u))
  give_up-Every uuid now s t k =
      Every-bind (ignore-Every t (Follows-refl t) (prepare_worker-Every uuid false now t))
        λ u _ l. gives (Leads-trans k l)

  run-Every :
      (uuid : WorkerUuid) (r : Round) (s t : Server) (m : Result ReqsCollection)
      → Follows s t
      → Every (Keeps t.reqs) m
      → Every (Matched s) (elim m as (λ _. Result (Bool × Server)) [
        | err e ↦ ignore t (prepare_worker uuid false r.idle_now t) >>= λ u. ok (false, u)
        | panic ↦ panic
        | blocked ↦ blocked
        | ok c ↦ ok (true, record t { reqs = c })
      ])
  run-Every uuid r s t (ok c) k h = gives (Leads-trans k (Every-ok c h refl))
  run-Every uuid r s t (err e) k h = give_up-Every uuid r.idle_now s t k
  run-Every uuid r s t panic k h = breaks
  run-Every uuid r s t blocked k h = stays

  created-Every :
      (rid : ReqId) (uuid : WorkerUuid) (r : Round) (s : Server) (m : Result Server)
      → Every (λ t. t.reqs ≡ s.reqs) m
      → Every (Matched s) (elim m as (λ _. Result (Bool × Server)) [
        | err e ↦ ignore s (prepare_worker uuid false r.idle_now s) >>= λ u. ok (false, u)
        | panic ↦ panic
        | blocked ↦ blocked
        | ok t ↦ elim (run_request rid uuid r.run_now t.reqs) as (λ _. Result (Bool × Server)) [
          | err e ↦ ignore t (prepare_worker uuid false r.idle_now t) >>= λ u. ok (false, u)
          | panic ↦ panic
          | blocked ↦ blocked
          | ok c ↦ ok (true, record t { reqs = c })
        ]
      ])
  created-Every rid uuid r s (ok t) h =
      let same : t.reqs ≡ s.reqs = Every-ok t h refl in
      run-Every uuid r s t (run_request rid uuid r.run_now t.reqs)
        (subst (λ c. Leads s.reqs.requests c.requests) (sym same) (Follows-refl s))
        (run_request-Every t.reqs rid uuid r.run_now)
  created-Every rid uuid r s (err e) h = give_up-Every uuid r.idle_now s s (Follows-refl s)
  created-Every rid uuid r s panic h = breaks
  created-Every rid uuid r s blocked h = stays

  start_job-Every :
      (rid : ReqId) (uuid : WorkerUuid) (r : Round) (s : Server)
      → Every (Matched s) (start_job rid uuid r s)
  unfolding start_job
  start_job-Every rid uuid r s =
      created-Every rid uuid r s (create_job rid uuid (r.listened rid) s)
        (create_job-Every rid uuid (r.listened rid) s)

  taken-Every :
      (rid : ReqId) (r : Round) (s : Server) (m : Result (WorkerUuid × Server))
      → Every (λ x. Follows s x.1) m
      → Every (Matched s) (elim m as (λ _. Result (Bool × Server)) [
        | err e ↦ ok (false, s)
        | panic ↦ panic
        | blocked ↦ blocked
        | ok (worker, t) ↦ start_job rid worker r t
      ])
  taken-Every rid r s (ok (uuid, t)) h =
      let k : Follows s t = Every-ok (uuid, t) h refl in
      Every-map (start_job-Every rid uuid r t) λ x l. Leads-trans k l
  taken-Every rid r s (err e) h = gives (Follows-refl s)
  taken-Every rid r s panic h = breaks
  taken-Every rid r s blocked h = stays

  module _ (s : Server) (v : JobsMatch s.reqs.requests s.jobs) (r : Round) where
    match_workers-Every : (req : ReqInfo) → Every (Matched s) (match_workers req r s)
    unfolding match_workers
    match_workers-Every req =
        taken-Every req.id r s (take_best req.owner.groups req.caps r.idle_now s)
          (take_best-Every req.owner.groups req.caps r.idle_now s v)

    attempt-Every :
        (m : Result ReqInfo)
        → Every (Matched s) (elim m as (λ _. Result (Bool × Server)) [
          | err e ↦ ok (false, s)
          | panic ↦ panic
          | blocked ↦ blocked
          | ok req ↦ match_workers req r s
        ])
    attempt-Every (ok req) = match_workers-Every req
    attempt-Every (err e) = gives (Follows-refl s)
    attempt-Every panic = breaks
    attempt-Every blocked = stays

    pub try_request-Every : (rid : ReqId) → Every (Matched s) (try_request rid r s)
    unfolding try_request
    try_request-Every rid =
        Every-if (not (verify_if_ready rid r.now s.reqs)) (λ _. gives (Follows-refl s))
          (λ _. attempt-Every (get_request rid s.reqs))
