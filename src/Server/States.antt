-- ===== src/Server/States.antt =====
-- Changes of a worker's state: setState, PrepareWorker and what ends a job.
use mathlib.Core.Bool.{false≢true}
use boruta.Common.{
  ℕ, ◌≡◌, refl, sym, ap, subst, ◌∙◌, ◌≢◌, ◌⊎◌, Bool, true, false, not, ◌&&◌, Option, none, some,
  List, [], ◌∷◌, ◌++◌, arith, if◌then◌else◌, nat_eq, text_eq, beq_refl, ◌==◌, lookup, insert,
  delete, lookup-delete, inl, inr, Option-cases, Bool-cases, ltb, length,
}
use boruta.Types.{
  ReqId, inprogress, done, idle, run, prepare, req_state_eq, worker_state_eq, WorkerUuid,
  WorkerState, ReqInfo, Time, Result, ok, blocked,
}
use boruta.Std.{Std}
use boruta.Outcome.{
  Sound, returns, fails, waits, Sound-bind, Sound-or_fail, Sound-fail_if, Sound-if, Sound-map,
}
use boruta.Requests.Running.{worker_of, IsAssigned}
use boruta.Requests.Keeps.{on_worker_idle-Sound}
use boruta.Requests.{store_request}
use boruta.Workers.{MapWorker, check_pending_operation, find_worker, store_worker}
use boruta.Server.{
  Server, Job, tell_idle, tell_fail, notify_listener, send, set_state, prepare_worker, finish_job,
  close_running, ignore, buffer_size,
}
use boruta.Server.Invariant.{Inv, job_req, IsSane, IsSane?, IsKeyed, store-WorkersMatch}
use boruta.Server.Stop.{on_worker_fail-Stopped, stopped-Inv, break_job-ok}

check_pending_operation-append :
    (l : List WorkerState) (x : WorkerState) → check_pending_operation (l ++ x ∷ []) ≡ some x
unfolding check_pending_operation
check_pending_operation-append [] x = refl
check_pending_operation-append (y ∷ []) x = refl
check_pending_operation-append (y ∷ z ∷ l) x = check_pending_operation-append (z ∷ l) x

-- The record that setState stores, once the state has been sent.
abbrev pub sent_worker : MapWorker → WorkerState → MapWorker
sent_worker w state = record w {
  info = record (w.info) { state = state };
  background_operation = w.background_operation ++ state ∷ [];
}

sent_worker-IsSane :
    (uuid : WorkerUuid) (w : MapWorker) (state : WorkerState)
    → IsSane uuid w
    → IsKeyed state w.key
    → IsSane uuid (sent_worker w state)
sent_worker-IsSane uuid w state v k = record {
  named = v.named;
  pending = rw (check_pending_operation-append w.background_operation state) refl;
  keyed = k;
  long = v.long;
}

send-cases :
    (state : WorkerState) (w : MapWorker)
    → (send state w ≡ blocked)
      ⊎ (send state w
          ≡ ok (record w { background_operation = w.background_operation ++ state ∷ [] }))
unfolding send
send-cases state w = elim (Bool-cases (ltb (length w.background_operation) buffer_size)) [
  | inl e ↦ inr (rw e)
  | inr e ↦ inl (rw e)
]

-- What the listener leaves: everything in order, the workers as they were, and no job on a worker
-- that leaves RUN otherwise than for IDLE or PREPARE.
record Told (b : Bool) (uuid : WorkerUuid) (old state : WorkerState) (s t : Server) : Type 0 where
  inv : Inv b t
  workers : t.workers ≡ s.workers
  jobs : (lookup uuid t.jobs ≡ none) ⊎ (t.jobs ≡ s.jobs)
  stopped : old ≡ run → state ≢ idle → state ≢ prepare → lookup uuid t.jobs ≡ none

module _ ⦃std : Std⦄ {b : Bool} {s : Server} (v : Inv b s) (uuid : WorkerUuid) where
  tell_idle-Told :
      (state : WorkerState) (now : Time)
      → Sound
          (λ t. Inv b t × (t.workers ≡ s.workers) × (t.jobs ≡ s.jobs))
          (tell_idle uuid state now s)
  unfolding tell_idle
  tell_idle-Told state now =
      Sound-if (state == idle)
        (λ _. on_worker_idle-Sound uuid now s.reqs _ λ d. returns (
          record {
            reqs_held = record { consistent = v.reqs_held.consistent; held = v.reqs_held.held };
            phase = v.phase;
            jobs_match = v.jobs_match;
            workers_match = v.workers_match;
            listens = v.listens;
          },
          refl,
          refl,
        ))
        (λ _. returns (v, refl, refl))

  tell_fail-Told :
      (old state : WorkerState) → Sound (Told b uuid old state s) (tell_fail uuid old state s)
  unfolding tell_fail
  tell_fail-Told old state =
      Sound-if (old == run && not (state == idle) && not (state == prepare))
        (λ _. Sound-map (on_worker_fail-Stopped v uuid) λ t p. record {
          inv = p.inv;
          workers = p.workers;
          jobs = inl p.no_job;
          stopped = λ _ _ _. p.no_job;
        })
        (λ e. returns (record {
          inv = v;
          workers = refl;
          jobs = inr refl;
          stopped = λ h k l. absurd (k (ground arith));
        }))

module _ ⦃std : Std⦄ {b : Bool} {s : Server} (v : Inv b s) (uuid : WorkerUuid) where
  notify_listener-Told :
      (old state : WorkerState) (now : Time)
      → Sound (Told b uuid old state s) (notify_listener uuid old state now s)
  unfolding notify_listener
  notify_listener-Told old state now =
      Sound-if s.workers.has_listener
        (λ _. Sound-bind (tell_idle-Told v uuid state now) λ t _ (w, same_workers, same_jobs).
          Sound-map (tell_fail-Told w uuid old state) λ u told. record {
            inv = told.inv;
            workers = told.workers ∙ same_workers;
            jobs = elim told.jobs [ inl e ↦ inl e | inr e ↦ inr (e ∙ same_jobs) ];
            stopped = told.stopped;
          })
        (λ e. absurd (false≢true (sym e ∙ v.listens)))

  -- setState of a worker that the server knows keeps the invariant, if the worker has a key or the
  -- new state needs none, and if the worker has no job or leaves RUN for a state other than IDLE
  -- and PREPARE, by which its request fails. It returns so, or returns an error, or waits at a
  -- mutex or a channel, and never panics.
  pub set_state-Inv :
      (w : MapWorker) (state : WorkerState) (now : Time)
      → lookup uuid s.workers.workers ≡ some w
      → IsKeyed state w.key
      → ((lookup uuid s.jobs ≡ none) ⊎ ((w.info.state ≡ run) × (state ≢ idle) × (state ≢ prepare)))
      → Sound (Inv b) (set_state uuid state now s)
  unfolding set_state find_worker store_worker
  set_state-Inv w state now e k h =
      rw (e, set_state, find_worker)
        (elim (send-cases state w) [
          | inl full ↦ rw full waits
          | inr sent ↦ rw sent (
              Sound-bind (notify_listener-Told w.info.state state now) λ t _ told. returns (record {
                reqs_held = told.inv.reqs_held;
                phase = told.inv.phase;
                jobs_match = told.inv.jobs_match;
                workers_match =
                    store-WorkersMatch told.inv.workers_match uuid (sent_worker w state)
                      (sent_worker-IsSane uuid w state
                        (subst (IsSane? uuid) e (v.workers_match.sane uuid)) k)
                      (inl (freed t told));
                listens = told.inv.listens;
              }))
        ])
    where
      freed : (t : Server) → Told b uuid w.info.state state s t → lookup uuid t.jobs ≡ none
      freed t told = elim h [
        | inl no_job ↦ elim told.jobs [ inl q ↦ q | inr q ↦ ap (lookup uuid) q ∙ no_job ]
        | inr (r, i, p) ↦ told.stopped r i p
      ]

-- What a change of state leaves as it was that breaks no job.
pub record Quiet (uuid : WorkerUuid) (w : MapWorker) (s t : Server) : Type 0 where
  pub requests : t.reqs.requests ≡ s.reqs.requests
  pub queue : t.reqs.queue ≡ s.reqs.queue
  pub jobs : t.jobs ≡ s.jobs
  pub workers : t.workers.workers ≡ insert uuid w s.workers.workers

-- What the news that a worker is idle leaves as it was.
abbrev Untouched : Server → Server → Type 0
Untouched s t =
    (t.reqs.requests ≡ s.reqs.requests)
    × (t.reqs.queue ≡ s.reqs.queue)
    × (t.jobs ≡ s.jobs)
    × (t.workers ≡ s.workers)

tell_idle-Untouched :
    ⦃std : Std⦄
    → (uuid : WorkerUuid) (state : WorkerState) (now : Time) (s : Server)
    → Sound (Untouched s) (tell_idle uuid state now s)
unfolding tell_idle
tell_idle-Untouched uuid state now s =
    Sound-if (state == idle)
      (λ _. on_worker_idle-Sound uuid now s.reqs _ λ d. returns (refl, refl, refl, refl))
      (λ _. returns (refl, refl, refl, refl))

notify_listener-Untouched :
    ⦃std : Std⦄
    → (uuid : WorkerUuid) (old state : WorkerState) (now : Time) (s : Server)
    → (old == run && not (state == idle) && not (state == prepare)) ≡ false
    → Sound (Untouched s) (notify_listener uuid old state now s)
unfolding notify_listener tell_fail
notify_listener-Untouched uuid old state now s h =
    Sound-if s.workers.has_listener
      (λ _. Sound-bind (tell_idle-Untouched uuid state now s) λ t _ q. rw h (returns q))
      (λ _. returns (refl, refl, refl, refl))

pub set_state-Quiet :
    ⦃std : Std⦄
    → (uuid : WorkerUuid) (w : MapWorker) (state : WorkerState) (now : Time) (s : Server)
    → lookup uuid s.workers.workers ≡ some w
    → (w.info.state == run && not (state == idle) && not (state == prepare)) ≡ false
    → Sound (Quiet uuid (sent_worker w state) s) (set_state uuid state now s)
unfolding set_state find_worker store_worker
set_state-Quiet uuid w state now s e h =
    rw (e, set_state, find_worker)
      (elim (send-cases state w) [
        | inl full ↦ rw full waits
        | inr sent ↦ rw sent (
            Sound-bind (notify_listener-Untouched uuid w.info.state state now s h)
              λ t _ (er, eq, ej, ew). returns (record {
                requests = er;
                queue = eq;
                jobs = ej;
                workers = ap (λ l. insert uuid (sent_worker w state) l.workers) ew;
              }))
      ])

-- What the drop of an error leaves.
pub ignore-Sound :
    {P : Server → Type 0} (s : Server) {m : Result Server} → P s → Sound P m → Sound P (ignore s m)
ignore-Sound s p (returns q) = returns q
ignore-Sound s p fails = returns p
ignore-Sound s p waits = waits

IsKeyed-run :
    (old state : WorkerState) (key : Option ℕ) → IsKeyed old key → old ≡ run → IsKeyed state key
IsKeyed-run old state none k r = absurd (k.1 r)
IsKeyed-run old state (some x) k r = tt

job_req-some :
    (o : Option Job) (rid : ReqId) → job_req o ≡ some rid → (j : Job) × (o ≡ some j) × (j.req ≡ rid)
job_req-some none rid e = cc
job_req-some (some j) rid e = (j, refl, ground arith)

-- PrepareWorker, of a worker whose job is done with.
pub prepare_worker-Inv :
    ⦃std : Std⦄
    → {b : Bool} {s : Server} (v : Inv b s) (uuid : WorkerUuid) (with_key : Bool) (now : Time)
    → lookup uuid s.jobs ≡ none
    → Sound (Inv b) (prepare_worker uuid with_key now s)
unfolding prepare_worker find_worker
prepare_worker-Inv {s = s} v uuid with_key now free =
    Sound-or_fail (lookup uuid s.workers.workers) _ λ w e.
      Sound-fail_if (not (w.info.state == run)) _ λ r.
        set_state-Inv v uuid w (if with_key then prepare else idle) now e
          (IsKeyed-run w.info.state _ w.key
            (subst (IsSane? uuid) e (v.workers_match.sane uuid)).keyed (ground arith))
          (inl free)

-- The request that runs on a worker is closed: its job is gone, and the worker is prepared anew.
pub close_running-Inv :
    ⦃std : Std⦄
    → {b : Bool} {s : Server} (v : Inv b s) (rid : ReqId) (r : ReqInfo) (now : Time)
    → lookup rid s.reqs.requests ≡ some r
    → r.state ≡ inprogress
    → Sound (Inv b) (close_running rid r now s)
unfolding close_running finish_job store_request
close_running-Inv {b} {s} v rid r now e ei = elim (Option-cases r.job) [
  | inl no_job ↦ absurd (subst IsAssigned e (v.jobs_match.assigned rid) ei no_job)
  | inr (i, ej) ↦
      let w = i.worker_uuid in
      let on : worker_of (lookup rid s.reqs.requests) ≡ some w = rw e (ground arith) in
      let (j, ew, er) = job_req-some _ rid ((v.jobs_match.matched rid w).0 on) in
      let t = record s {
        reqs = record (s.reqs) {
          requests = insert rid (record r { state = done }) s.reqs.requests;
        };
      } in
      let after = λ (i : ReqId). record s {
        reqs = record (s.reqs) { requests = insert i (record r { state = done }) s.reqs.requests };
        jobs = delete w s.jobs;
      } in
      let at_job : lookup j.req s.reqs.requests ≡ some r =
        ap (λ i. lookup i s.reqs.requests) er ∙ e in
      let stopped : Inv b (after j.req) = stopped-Inv v w j r _ ew at_job ei refl refl refl refl in
      let inv : Inv b (after rid) = subst (λ i. Inv b (after i)) er stopped in
      let free : lookup w (delete w s.jobs) ≡ none =
        rw (lookup-delete w w s.jobs, beq_refl w) refl in
      rw (ej, close_running, break_job-ok t w j ew (v.jobs_match.opened w))
        (ignore-Sound (after rid) inv (prepare_worker-Inv inv w true now free))
]
