-- ===== src/Requests/Keeps.antt =====
-- The methods of the collection, requests/requests.go, one by one: what they leave consistent.
use boruta.Common.{
  suc, ◌+◌, ◌≤◌, ◌≡◌, refl, subst, ◌∙◌, false, not, ◌&&◌, ◌||◌, Option, none, some, arith,
  if◌then◌else◌, ltb, nat_beq, nat_eq, ◌==◌, length, Map, lookup, insert, inl, inr, Bool-cases,
}
use native.Mathlib.Numerals.{add-one}
use boruta.Types.{
  ReqId, wait, inprogress, req_state_eq, Priority, hi_prio, lo_prio, ReqInfo, Time, WorkerUuid,
  UserInfo, Capabilities, Result, ok, ◌>>=◌,
}
use boruta.Std.{Std, RequestTime}
use boruta.Times.{RequestTimes, insert_time, insert_time-cases}
use boruta.Queue.{PrioQueue, remove_request, push_request, set_request_priority, release_iterator}
use boruta.Queue.Counts.{removed, pushed, remove_id-ok, push_id-ok, next_fn-removed, next_fn-pushed}
use boruta.Outcome.{Sound, returns, waits, Sound-bind, Sound-or_fail, Sound-fail_if, Sound-if}
use boruta.Requests.Running.{SameWorkers, SameWorkers-refl, insert-SameWorkers}
use boruta.Requests.Consistent.{
  IsConsistent, IsEntry, change-IsConsistent, waiting-count, leave-IsConsistent, enter-IsConsistent,
  move-IsConsistent,
}
use boruta.Requests.{
  ReqsCollection, on_worker_idle, add_request, new_request, apply_update, change_request,
  update_locked, insert_opt, update_with, update_request, prolong_access, run_request,
  timeout_request, cancel_request, out_of_range,
}

module _ {m : Map ReqId ReqInfo} {q : PrioQueue} (v : IsConsistent m q)
    (free : q.next_fn ≡ none) where
  -- A request that waits can be taken out of the queue, which is free.
  pub remove_request-ok :
      (rid : ReqId) (r : ReqInfo)
      → lookup rid m ≡ some r
      → r.state ≡ wait
      → remove_request r q ≡ ok (removed r.id r.priority q)
  unfolding remove_request
  remove_request-ok rid r e ew =
      let entry : IsEntry rid (some r) = subst (IsEntry rid) e (v.entries rid) in
      ground (
        arith,
        free,
        remove_id-ok r.id r.priority q entry.1 entry.2 (ground (arith, waiting-count v rid r e ew)),
      )

-- A request with a priority in range can be pushed to a free queue.
pub push_request-ok :
    (q : PrioQueue) (free : q.next_fn ≡ none) (r : ReqInfo)
    → hi_prio ≤ r.priority
    → r.priority ≤ lo_prio
    → push_request r q ≡ ok (pushed r.id r.priority q)
unfolding push_request
push_request-ok q free r lo hi = ground (arith, push_id-ok r.id r.priority q lo hi)

-- Consistent, and outside an iteration: the queue is free.
pub record IsSettled (c : ReqsCollection) : Type 0 where
  pub consistent : IsConsistent c.requests c.queue
  pub free : c.queue.next_fn ≡ none
  pub still : c.iterating ≡ false

-- Consistent, and the queue is free unless the collection iterates.
pub record IsHeld (c : ReqsCollection) : Type 0 where
  pub consistent : IsConsistent c.requests c.queue
  pub held : c.iterating ≡ false → c.queue.next_fn ≡ none

-- A rule for an insertion of a time, which may wait.
insert_time-Sound {ℓ} :
    ⦃std : Std⦄
    → {A : Type ℓ} {P : A → Type 0} (t : RequestTime) (rt : RequestTimes)
      {f : RequestTimes → Result A}
    → ((d : RequestTimes) → Sound P (f d))
    → Sound P (insert_time t rt >>= f)
insert_time-Sound t rt k = elim (insert_time-cases t rt) [
  | inl e ↦ rw e waits
  | inr (d, e, _) ↦ rw e (k d)
]

insert_opt-Sound {ℓ} :
    ⦃std : Std⦄
    → {A : Type ℓ} {P : A → Type 0} (t : Option RequestTime) (rt : RequestTimes)
      {f : RequestTimes → Result A}
    → ((d : RequestTimes) → Sound P (f d))
    → Sound P (insert_opt t rt >>= f)
unfolding insert_opt
insert_opt-Sound none rt k = k rt
insert_opt-Sound (some t) rt k = insert_time-Sound t rt k

-- Settled after a change that keeps the workers of requests.
pub record Kept (c d : ReqsCollection) : Type 0 where
  pub settled : IsSettled d
  pub workers : SameWorkers c.requests d.requests

module _ {c : ReqsCollection} (v : IsSettled c) where
  Kept-refl : Kept c c
  Kept-refl = record { settled = v; workers = SameWorkers-refl }

  -- What a request leaves behind that stops waiting.
  left-Kept :
      (rid : ReqId) (r s : ReqInfo)
      → lookup rid c.requests ≡ some r
      → r.state ≡ wait
      → s.id ≡ r.id
      → s.priority ≡ r.priority
      → (s.state == wait) ≡ false
      → (s.state == inprogress) ≡ false
      → Kept c
          (record c { requests = insert rid s c.requests; queue = removed r.id r.priority c.queue })
  left-Kept rid r s e ew ei ep es er = record {
    settled = record {
      consistent = leave-IsConsistent v.consistent rid r s e ew ei ep es;
      free = next_fn-removed r.id r.priority c.queue ∙ v.free;
      still = v.still;
    };
    workers =
        insert-SameWorkers c.requests rid s (rw e (ground arith)) (λ h. absurd (ground arith));
  }

  -- Timeout keeps a settled collection settled (the queue is free and holds exactly the waiting
  -- requests, each once and in the lane of its priority) and every request's worker as it was. It
  -- returns so, or returns an error, or waits at a mutex or a channel, and never panics.
  pub timeout_request-Kept : (rid : ReqId) (now : Time) → Sound (Kept c) (timeout_request rid now c)
  unfolding timeout_request
  timeout_request-Kept rid now = Sound-or_fail (lookup rid c.requests) _ λ r e.
      Sound-fail_if (not (r.state == wait) || ltb now r.deadline) _ λ b.
        let ew : r.state ≡ wait = ground arith in
        rw (remove_request-ok v.consistent v.free rid r e ew)
          (returns (left-Kept rid r _ e ew refl refl refl refl))

  pub cancel_request-Kept :
      (rid : ReqId) (r : ReqInfo)
      → lookup rid c.requests ≡ some r
      → r.state ≡ wait
      → Sound (Kept c) (cancel_request rid r c)
  unfolding cancel_request
  cancel_request-Kept rid r e ew =
      rw (remove_request-ok v.consistent v.free rid r e ew)
        (returns (left-Kept rid r _ e ew refl refl refl refl))

  -- ProlongAccess keeps a settled collection settled and every request's worker as it was. It
  -- returns so, or returns an error, or waits at a mutex or a channel, and never panics.
  pub prolong_access-Kept :
      ⦃std : Std⦄ → (rid : ReqId) (now : Time) → Sound (Kept c) (prolong_access rid now c)
  unfolding prolong_access
  prolong_access-Kept rid now = Sound-or_fail (lookup rid c.requests) _ λ r e.
      Sound-fail_if (not (r.state == inprogress)) _ λ b. Sound-or_fail r.job _ λ j ej.
        insert_time-Sound _ _ λ d. returns (record {
          settled = record {
            consistent = change-IsConsistent v.consistent rid r _ e refl refl refl;
            free = v.free;
            still = v.still;
          };
          workers = insert-SameWorkers c.requests rid _ (rw e (ground arith)) (λ _ h. cc);
        })

  add_request-Kept :
      ⦃std : Std⦄
      → (draft : ReqInfo) → draft.state ≡ wait
      → hi_prio ≤ draft.priority
      → draft.priority ≤ lo_prio
      → Sound (λ r. Kept c r.1) (add_request draft c)
  unfolding add_request
  add_request-Kept draft ew lo hi =
      rw (push_request-ok c.queue v.free (record draft { id = length c.requests + 1 }) lo hi) (
        insert_time-Sound _ _ λ d. insert_time-Sound _ _ λ d'. returns (record {
          settled = record {
            consistent = rw (add-one (length c.requests)) (
                enter-IsConsistent v.consistent (record draft { id = suc (length c.requests) }) refl
                  ew lo hi);
            free = next_fn-pushed _ _ _ ∙ v.free;
            still = v.still;
          };
          workers =
              insert-SameWorkers c.requests (length c.requests + 1) _
                (rw (v.consistent.given (length c.requests + 1) (omega arith)) (ground arith))
                (λ h. absurd (ground arith));
        }))

  -- NewRequest, with any arguments, keeps a settled collection settled and every request's worker
  -- as it was. It returns so, or returns an error, or waits at a mutex or a channel, and never
  -- panics.
  pub new_request-Kept :
      ⦃std : Std⦄
      → (caps : Capabilities) (p : Priority) (owner : UserInfo) (va dl now nv ma : Time)
      → Sound (λ r. Kept c r.1) (new_request caps p owner va dl now nv ma c)
  unfolding new_request out_of_range
  new_request-Kept caps p owner va dl now nv ma =
      Sound-fail_if (not (nat_beq dl 0) && ltb dl now) _ λ _.
        Sound-fail_if (ltb dl va && not (nat_beq dl 0)) _ λ _.
          Sound-fail_if (ltb p hi_prio || ltb lo_prio p) _ λ b.
            add_request-Kept
              (record {
                id = 0;
                priority = p;
                owner = owner;
                deadline = if nat_beq dl 0 then ma else dl;
                valid_after = if nat_beq va 0 then nv else va;
                state = wait;
                job = none;
                caps = caps;
              })
              refl (ground arith) (ground arith)

  set_request_priority-ok :
      (rid : ReqId) (r : ReqInfo) (p : Priority)
      → lookup rid c.requests ≡ some r
      → r.state ≡ wait
      → hi_prio ≤ p
      → p ≤ lo_prio
      → set_request_priority r p c.queue ≡ ok (pushed r.id p (removed r.id r.priority c.queue))
  unfolding set_request_priority
  set_request_priority-ok rid r p e ew lo hi =
      let w = v.consistent in
      let entry : IsEntry rid (some r) = subst (IsEntry rid) e (w.entries rid) in
      ground (
        arith,
        v.free,
        remove_id-ok r.id r.priority c.queue entry.1 entry.2
            (ground (arith, waiting-count w rid r e ew)),
        push_id-ok r.id p (removed r.id r.priority c.queue) lo hi,
      )

  apply_update-Kept :
      ⦃std : Std⦄
      → (src dst : ReqInfo) (deadline : Time) → lookup src.id c.requests ≡ some dst
      → dst.state ≡ wait
      → (not (nat_beq src.priority 0) && out_of_range src.priority) ≡ false
      → Sound (λ r. Kept c r.0) (apply_update src dst deadline c)
  unfolding apply_update out_of_range
  apply_update-Kept src dst deadline e ew b = elim (Bool-cases (nat_beq src.priority 0)) [
    | inl same ↦ rw same (
        returns (record {
          settled = record {
            consistent = change-IsConsistent v.consistent src.id dst _ e refl refl refl;
            free = v.free;
            still = v.still;
          };
          workers =
              insert-SameWorkers c.requests src.id _ (rw e (ground arith))
                (λ h. absurd (ground arith));
        }))
    | inr new ↦
        rw (new, set_request_priority-ok src.id dst src.priority e ew (ground arith) (ground arith))
          (returns (record {
            settled = record {
              consistent =
                  move-IsConsistent v.consistent src.id dst _ e ew refl ew (ground arith)
                    (ground arith);
              free = next_fn-pushed _ _ _ ∙ next_fn-removed _ _ _ ∙ v.free;
              still = v.still;
            };
            workers =
                insert-SameWorkers c.requests src.id _ (rw e (ground arith))
                  (λ h. absurd (ground arith));
          }))
  ]

  change_request-Kept :
      ⦃std : Std⦄
      → (src dst : ReqInfo) (now : Time) → lookup src.id c.requests ≡ some dst
      → dst.state ≡ wait
      → Sound (λ r. Kept c r.0) (change_request src dst now c)
  unfolding change_request
  change_request-Kept src dst now e ew =
      let deadline = if nat_beq src.deadline 0 then dst.deadline else src.deadline in
      Sound-fail_if (not (nat_beq src.priority 0) && out_of_range src.priority) _ λ b.
        Sound-fail_if (not (nat_beq src.deadline 0) && ltb src.deadline now) _ λ _.
          Sound-fail_if
            (not (nat_beq src.valid_after 0)
              && not (nat_beq deadline 0)
              && ltb deadline src.valid_after)
            _ λ _. apply_update-Kept src dst deadline e ew b

  update_locked-Kept :
      ⦃std : Std⦄ → (src : ReqInfo) (now : Time) → Sound (λ r. Kept c r.0) (update_locked src now c)
  unfolding update_locked
  update_locked-Kept src now = Sound-or_fail (lookup src.id c.requests) _ λ dst e.
      Sound-fail_if (not (dst.state == wait)) _ λ b.
        Sound-if
          (nat_beq src.priority dst.priority
            && nat_beq src.valid_after dst.valid_after
            && nat_beq src.deadline dst.deadline)
          (λ _. returns Kept-refl) (λ _. change_request-Kept src dst now e (ground arith))

  update_with-Kept :
      ⦃std : Std⦄ → (src : ReqInfo) (now : Time) → Sound (Kept c) (update_with src now c)
  unfolding update_with
  update_with-Kept src now = Sound-bind (update_locked-Kept src now) λ (d, va, dl) _ w.
      insert_opt-Sound va _ λ _. insert_opt-Sound dl _ λ _. returns (record {
        settled = record {
          consistent = w.settled.consistent;
          free = w.settled.free;
          still = w.settled.still;
        };
        workers = w.workers;
      })

  -- UpdateRequest, with any source, keeps a settled collection settled and every request's worker
  -- as it was. It returns so, or returns an error, or waits at a mutex or a channel, and never
  -- panics.
  pub update_request-Kept :
      ⦃std : Std⦄ → (src : Option ReqInfo) (now : Time) → Sound (Kept c) (update_request src now c)
  unfolding update_request
  update_request-Kept none now = returns Kept-refl
  update_request-Kept (some src) now =
      Sound-if (nat_beq src.priority 0 && nat_beq src.valid_after 0 && nat_beq src.deadline 0)
        (λ _. returns Kept-refl) (λ _. update_with-Kept src now)

-- The queue that Run works on: one that is iterated over is released first.
pub released-free :
    {c : ReqsCollection}
    → IsHeld c
    → (if c.iterating then release_iterator c.queue else c.queue).next_fn ≡ none
unfolding release_iterator
released-free {c} v = elim (Bool-cases c.iterating) [ inl e ↦ rw e refl | inr e ↦ rw e (v.held e) ]

pub released-IsConsistent :
    {c : ReqsCollection}
    → IsHeld c
    → IsConsistent c.requests (if c.iterating then release_iterator c.queue else c.queue)
unfolding release_iterator
released-IsConsistent {c} v = elim (Bool-cases c.iterating) [
  | inl e ↦
      let w = v.consistent in
      rw e (record { counts = w.counts; entries = w.entries; given = w.given; sized = w.sized })
  | inr e ↦ rw e v.consistent
]

module _ {c : ReqsCollection} (v : IsHeld c) where
  -- Run leaves a consistent collection settled, whether it is iterated over or not: the iteration
  -- is ended and the request that runs is no longer in the queue. It returns so, or returns an
  -- error, or waits at a mutex or a channel, and never panics.
  pub run_request-IsSettled :
      ⦃std : Std⦄
      → (rid : ReqId) (worker : WorkerUuid) (now : Time)
      → Sound IsSettled (run_request rid worker now c)
  unfolding run_request
  run_request-IsSettled rid worker now = Sound-or_fail (lookup rid c.requests) _ λ r e.
      Sound-fail_if (not (r.state == wait)) _ λ b.
        let ew : r.state ≡ wait = ground arith in
        let w = released-IsConsistent v in
        rw (remove_request-ok w (released-free v) rid r e ew) (
          insert_time-Sound _ _ λ d. returns (record {
            consistent = leave-IsConsistent w rid r _ e ew refl refl refl;
            free = next_fn-removed r.id r.priority _ ∙ released-free v;
            still = refl;
          }))

pub IsHeld-IsSettled : {c : ReqsCollection} → IsHeld c → c.iterating ≡ false → IsSettled c
IsHeld-IsSettled v e = record { consistent = v.consistent; free = v.held e; still = e }

pub IsSettled-IsHeld : {c : ReqsCollection} → IsSettled c → IsHeld c
IsSettled-IsHeld v = record { consistent = v.consistent; held = λ _. v.free }

-- OnWorkerIdle changes nothing but the times.
pub on_worker_idle-Sound {ℓ} :
    ⦃std : Std⦄
    → {A : Type ℓ} {P : A → Type 0} (uuid : WorkerUuid) (now : Time) (c : ReqsCollection)
      (f : ReqsCollection → Result A)
    → ((d : RequestTimes) → Sound P (f (record c { valid_after_times = d })))
    → Sound P (on_worker_idle uuid now c >>= f)
unfolding on_worker_idle
on_worker_idle-Sound uuid now c f k =
    elim (insert_time-cases (record { at = now; req = 0 }) c.valid_after_times) [
      | inl e ↦ rw e waits
      | inr (d, e, _) ↦ rw e (k d)
    ]
