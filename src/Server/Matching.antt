-- ===== src/Server/Matching.antt =====
-- How requests get workers: matcher/validmatcher.go, matcher/jobs.go (Create) and workers/workers.go
-- (TakeBestMatchingWorker). The clock and the outcome of listening for a tunnel are those of a round,
-- one call of iterateRequests.
use boruta.Common.{
  ℕ, zero, suc, Bool, true, false, not, Option, none, some, List, [], ◌∷◌, Text, codes, text_eq,
  nat_beq, if◌then◌else◌, is_none, lookup, insert,
}
use boruta.Types.{
  ReqId, WorkerUuid, run, Time, TcpAddr, ReqInfo, job_already_exists, no_matching_worker, Result,
  ok, err, panic, blocked, ◌>>=◌, ◌>>◌, fail_if, Capabilities,
}
use boruta.Std.{Std}
use boruta.Filter
use boruta.Tunnels.{create_tunnel, tunnel_addr}
use boruta.Requests.{
  init_iteration, terminate_iteration, next_request, verify_if_ready, get_request, run_request,
}
use boruta.Workers.{matching_workers, best_of, max_int32, get_worker_ssh_addr, get_worker_key}
use boruta.Server.{Server, set_state, prepare_worker, ignore}

pub record Round : Type 0 where
  -- time.Now() of iterateRequests, of Run and of OnWorkerIdle
  pub now : Time
  pub run_now : Time
  pub idle_now : Time
  -- net.ListenTCP, in the attempt to serve a request
  pub listened : ReqId → Option TcpAddr

abbrev pub dryad_username : Text
dryad_username = codes "boruta-user"

-- JobsManagerImpl.Create
unfoldable pub create_job : ReqId → WorkerUuid → Option TcpAddr → Server → Result Server
unfolding get_worker_ssh_addr get_worker_key create_tunnel tunnel_addr
create_job rid worker listened s = do
  fail_if (not (is_none (lookup worker s.jobs))) job_already_exists
  addr ← get_worker_ssh_addr worker s.workers
  key ← get_worker_key worker s.workers
  t ← create_tunnel listened addr
  ok (record s {
    jobs =
        insert worker
          (record {
            access = record { addr = tunnel_addr t; key = key; username = dryad_username };
            tunnel = t;
            req = rid;
          })
          s.jobs;
  })

abbrev pub panic_on_error {ℓ} : {A : Type ℓ} → Result A → Result A
panic_on_error (err e) = panic
panic_on_error r = r

module _ ⦃std : Std⦄ where
  -- TakeBestMatchingWorker
  unfoldable pub take_best : List Text → Capabilities → Time → Server → Result (WorkerUuid × Server)
  unfolding matching_workers best_of set_state
  take_best groups caps now s = do
    let f = Filter.match_worker (Filter.new_workers groups caps)
    matching ← panic_on_error (matching_workers (some f) none [] true s.workers)
    let best = best_of max_int32 [] matching
    fail_if (nat_beq best.0 max_int32) no_matching_worker
    t ← set_state best.1 run now s
    ok (best.1, t)

  -- What follows a match: the job and the run, or the way back to IDLE.
  unfoldable pub start_job : ReqId → WorkerUuid → Round → Server → Result (Bool × Server)
  unfolding create_job run_request prepare_worker
  start_job rid worker r s =
      let give_up = λ (t : Server).
        ignore t (prepare_worker worker false r.idle_now t) >>= λ u. ok (false, u) in
      elim (create_job rid worker (r.listened rid) s) [
        | err e ↦ give_up s
        | panic ↦ panic
        | blocked ↦ blocked
        | ok t ↦ elim (run_request rid worker r.run_now t.reqs) [
          | err e ↦ give_up t
          | panic ↦ panic
          | blocked ↦ blocked
          | ok c ↦ ok (true, record t { reqs = c })
        ]
      ]

  -- matchWorkers
  unfoldable pub match_workers : ReqInfo → Round → Server → Result (Bool × Server)
  unfolding take_best start_job
  match_workers req r s = elim (take_best req.owner.groups req.caps r.idle_now s) [
    | err e ↦ ok (false, s)
    | panic ↦ panic
    | blocked ↦ blocked
    | ok (worker, t) ↦ start_job req.id worker r t
  ]

  -- The body of the loop of iterateRequests, for one request.
  unfoldable pub try_request : ReqId → Round → Server → Result (Bool × Server)
  unfolding verify_if_ready get_request match_workers
  try_request rid r s =
      let attempt = elim (get_request rid s.reqs) as (λ _. Result (Bool × Server)) [
        | err e ↦ ok (false, s)
        | panic ↦ panic
        | blocked ↦ blocked
        | ok req ↦ match_workers req r s
      ] in
      if not (verify_if_ready rid r.now s.reqs) then ok (false, s) else attempt

  -- The loop of iterateRequests. It makes at most one round for each request in the queue, and one
  -- that finds its end; to run out of rounds is `blocked`.
  unfoldable pub iterate_loop : ℕ → Round → Server → Result (Bool × Server)
  unfolding try_request
  iterate_loop zero r s = blocked
  iterate_loop (suc k) r s = next_request s.reqs >>= λ (id, c). elim id [
    | none ↦ ok (false, record s { reqs = c })
    | some rid ↦ try_request rid r (record s { reqs = c }) >>= λ (matched, t). elim matched [
      | true ↦ ok (true, t)
      | false ↦ iterate_loop k r t
    ]
  ]

  -- iterateRequests; TerminateIteration is deferred.
  unfoldable pub iterate_requests : Round → Server → Result (Bool × Server)
  unfolding iterate_loop
  iterate_requests r s = do
    c ← panic_on_error (init_iteration s.reqs)
    (again, t) ← iterate_loop (suc c.queue.size) r (record s { reqs = c })
    ok (again, record t { reqs = terminate_iteration t.reqs })

  -- ValidMatcher.Notify: a round for each element of the list, as long as there are matches; to run
  -- out of rounds is `blocked`.
  unfoldable pub notify_valid : List Round → Server → Result Server
  unfolding iterate_requests
  notify_valid [] s = blocked
  notify_valid (r ∷ rs) s =
      iterate_requests r s >>= λ (again, t). elim again [ true ↦ notify_valid rs t | false ↦ ok t ]
