-- ===== src/Server/Start.antt =====
-- What follows a match: the job of matcher/jobs.go and Run, or the way back to IDLE.
use boruta.Common.{
  suc, ◌+◌, ◌≡◌, refl, subst, ◌∙◌, ◌⊎◌, Bool, true, false, not, Option, none, some, arith,
  if◌then◌else◌, nat_eq, text_eq, ◌==◌, lookup, insert, inl, inr, Option-cases,
}
use boruta.Types.{
  ReqId, wait, inprogress, req_state_eq, WorkerUuid, idle, run, worker_state_eq, Time, TcpAddr,
  ReqInfo, ok, err, blocked, ◌>>=◌, external,
}
use boruta.Std.{Std, RequestTime}
use boruta.Times.{RequestTimes, insert_time, insert_time-cases}
use boruta.Outcome.{
  Sound, returns, waits, Sound-bind, Sound-both, Sound-map, Sound-fail_if, Sound-or_fail,
}
use boruta.Queue.{PrioQueue, release_iterator}
use boruta.Queue.Counts.{removed, total-removed, next_fn-removed}
use boruta.Requests.{ReqsCollection, run_request, hour}
use boruta.Requests.Consistent.{IsEntry, waiting-count, leave-IsConsistent}
use boruta.Requests.Keeps.{IsHeld, remove_request-ok, released-free, released-IsConsistent}
use boruta.Workers.{MapWorker, find_worker, get_worker_ssh_addr, get_worker_key}
use boruta.Server.{Server, Job, prepare_worker, ignore}
use boruta.Server.Matching.{create_job, start_job, Round, dryad_username}
use boruta.Server.Invariant.{
  Inv, IsSane, IsSane?, IsKeyed, start-JobsMatch, insert_job-WorkersMatch,
}
use boruta.Server.States.{set_state-Quiet, ignore-Sound, prepare_worker-Inv}

-- The way back to IDLE keeps the invariant and the queue.
abbrev pub Returned : Bool → Server → Server → Type 0
Returned b s t = Inv b t × (t.reqs.queue ≡ s.reqs.queue)

prepare_worker-queue :
    ⦃std : Std⦄
    → (uuid : WorkerUuid) (now : Time) (s : Server)
    → Sound (λ t. t.reqs.queue ≡ s.reqs.queue) (prepare_worker uuid false now s)
unfolding prepare_worker find_worker
prepare_worker-queue uuid now s = Sound-or_fail (lookup uuid s.workers.workers) _ λ w e.
    Sound-fail_if (not (w.info.state == run)) _
      λ _. Sound-map (set_state-Quiet uuid w idle now s e (ground arith)) λ t quiet. quiet.queue

prepare_worker-Returned :
    ⦃std : Std⦄
    → {b : Bool} {s : Server} (v : Inv b s) (uuid : WorkerUuid) (now : Time)
    → lookup uuid s.jobs ≡ none
    → Sound (Returned b s) (prepare_worker uuid false now s)
prepare_worker-Returned {s = s} v uuid now free =
    Sound-both (prepare_worker-Inv v uuid false now free) (prepare_worker-queue uuid now s)

-- JobsManagerImpl.Create, for a worker that has no job: an error of the tunnel, or a job.
pub create_job-cases :
    (rid : ReqId) (uuid : WorkerUuid) (listened : Option TcpAddr) (s : Server) (w : MapWorker)
    → lookup uuid s.workers.workers ≡ some w
    → lookup uuid s.jobs ≡ none
    → IsKeyed run w.key
    → ((create_job rid uuid listened s ≡ err external) × (listened ≡ none))
      ⊎ ((j : Job) × (create_job rid uuid listened s
            ≡ ok (record s { jobs = insert uuid j s.jobs }))
          × (j.req ≡ rid)
          × (j.tunnel.is_closed ≡ false))
unfolding create_job get_worker_ssh_addr get_worker_key find_worker boruta.Tunnels.create_tunnel
    boruta.Tunnels.tunnel_addr
create_job-cases rid uuid listened s w e free k = elim (Option-cases w.key) [
  | inl no_key ↦ absurd ((subst (IsKeyed run) no_key k).1 refl)
  | inr (key, ek) ↦ elim (Option-cases listened) [
    | inl el ↦ inl (ground (arith, e, free, ek, el), el)
    | inr (addr, el) ↦ inr (
      record {
        access = record { addr = addr; key = key; username = dryad_username };
        tunnel = record { listener = addr; dest = w.sshd; is_closed = false };
        req = rid;
      },
      ground (arith, e, free, ek, el),
      refl,
      refl,
    )
  ]
]

-- An insertion waits only while the times are at work.
blocked-locked :
    ⦃std : Std⦄
    → (x : RequestTime) (d : RequestTimes) → insert_time x d ≡ blocked
    → d.is_locked ≡ true
unfolding insert_time
blocked-locked x d h = ground arith

-- Run, of a request that waits.
pub run_request-cases :
    ⦃std : Std⦄
    → {c : ReqsCollection} (v : IsHeld c) (rid : ReqId) (uuid : WorkerUuid) (now : Time)
      (r : ReqInfo)
    → lookup rid c.requests ≡ some r
    → r.state ≡ wait
    → ((run_request rid uuid now c ≡ blocked) × (c.timeout_times.is_locked ≡ true))
      ⊎ ((d : RequestTimes) × (d.is_locked ≡ c.timeout_times.is_locked)
          × (run_request rid uuid now c
              ≡ ok (record c {
                requests =
                    insert rid
                      (record r {
                        state = inprogress;
                        job = some (record { worker_uuid = uuid; timeout_at = now + hour });
                      })
                      c.requests;
                iterating = false;
                queue =
                    removed r.id r.priority
                      (if c.iterating then release_iterator c.queue else c.queue);
                timeout_times = d;
              })))
unfolding run_request
run_request-cases {c} v rid uuid now r e ew =
    elim (insert_time-cases (record { at = now + hour; req = rid }) c.timeout_times) [
      | inl full ↦ inl (
        ground (arith, remove_request-ok (released-IsConsistent v) (released-free v) rid r e ew),
        blocked-locked (record { at = now + hour; req = rid }) c.timeout_times full,
      )
      | inr (d, added, same) ↦ inr (
        d,
        same,
        ground (arith, remove_request-ok (released-IsConsistent v) (released-free v) rid r e ew),
      )
    ]

-- What an attempt leaves: after a match nothing iterates, and the queue has one request less; otherwise
-- the queue is as it was.
abbrev pub Attempt : Server → Bool × Server → Type 0
Attempt s (true, t) = Inv false t × (suc t.reqs.queue.size ≡ s.reqs.queue.size)
Attempt s (false, t) = Returned true s t

released-size : (b : Bool) (q : PrioQueue) → (if b then release_iterator q else q).size ≡ q.size
unfolding release_iterator
released-size b q = ground arith

module _ ⦃std : Std⦄ {s : Server} (v : Inv true s) (rid : ReqId) (req : ReqInfo)
    (er : lookup rid s.reqs.requests ≡ some req) (ew : req.state ≡ wait) (uuid : WorkerUuid)
    (w : MapWorker) (e : lookup uuid s.workers.workers ≡ some w) (runs : w.info.state ≡ run)
    (free : lookup uuid s.jobs ≡ none) where
  give_up-Attempt :
      (now : Time)
      → Sound (Attempt s) (ignore s (prepare_worker uuid false now s) >>= λ u. ok (false, u))
  give_up-Attempt now =
      Sound-bind (ignore-Sound s (v, refl) (prepare_worker-Returned v uuid now free))
        λ u _ back. returns back

  -- The server after Create and Run.
  started-Attempt :
      (j : Job) (d : RequestTimes) (now : Time)
      → j.req ≡ rid
      → j.tunnel.is_closed ≡ false
      → let new = record req {
        state = inprogress;
        job = some (record { worker_uuid = uuid; timeout_at = now + hour });
      } in
        let queue = if s.reqs.iterating then release_iterator s.reqs.queue else s.reqs.queue in
        Attempt s (
          true,
          record s {
            reqs = record (s.reqs) {
              requests = insert rid new s.reqs.requests;
              iterating = false;
              queue = removed req.id req.priority queue;
              timeout_times = d;
            };
            jobs = insert uuid j s.jobs;
          },
        )
  started-Attempt j d now ej eo =
      let held = released-IsConsistent v.reqs_held in
      let queue = if s.reqs.iterating then release_iterator s.reqs.queue else s.reqs.queue in
      let left =
        leave-IsConsistent held rid req
          (record req {
            state = inprogress;
            job = some (record { worker_uuid = uuid; timeout_at = now + hour });
          })
          er ew refl refl refl in
      let entry : IsEntry rid (some req) = subst (IsEntry rid) er (held.entries rid) in
      (
        record {
          reqs_held = record {
            consistent = left;
            held = λ _. next_fn-removed req.id req.priority queue ∙ released-free v.reqs_held;
          };
          phase = refl;
          jobs_match =
              start-JobsMatch v.jobs_match rid uuid req _ _ j (rw er (ground arith)) free refl refl
                refl ej eo;
          workers_match = insert_job-WorkersMatch v.workers_match uuid w j e runs;
          listens = v.listens;
        },
        omega (
          arith,
          left.sized,
          held.sized,
          total-removed req.id req.priority queue entry.1 entry.2
              (ground (arith, waiting-count held rid req er ew)),
          released-size s.reqs.iterating s.reqs.queue,
        ),
      )

  pub start_job-Attempt : (r : Round) → Sound (Attempt s) (start_job rid uuid r s)
  unfolding start_job
  start_job-Attempt r =
      let sane : IsSane uuid w = subst (IsSane? uuid) e (v.workers_match.sane uuid) in
      let keyed : IsKeyed run w.key = subst (λ x. IsKeyed x w.key) runs sane.keyed in
      elim (create_job-cases rid uuid (r.listened rid) s w e free keyed) [
        | inl (no_job, _) ↦ rw (no_job, start_job) (give_up-Attempt r.idle_now)
        | inr (j, made, ej, eo) ↦
            elim (run_request-cases v.reqs_held rid uuid r.run_now req er ew) [
              | inl (full, _) ↦ rw (made, start_job, full) waits
              | inr (d, _, ran) ↦
                  rw (made, start_job, ran) (returns (started-Attempt j d r.run_now ej eo))
            ]
      ]
