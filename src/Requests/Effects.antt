-- ===== src/Requests/Effects.antt =====
-- What the calls on requests do when they are allowed, and that they return then.
use boruta.Common.{
  ◌+◌, ◌≤◌, ◌<◌, ◌≡◌, refl, subst, false, none, some, arith, nat_eq, length, count, lookup, insert,
  lookup-insert, beq_refl,
}
use boruta.Types.{
  ReqId, wait, inprogress, timeout, req_state_eq, hi_prio, lo_prio, Priority, ReqInfo, WorkerUuid,
  Time, Capabilities, UserInfo, ok, err, priority_out_of_bounds, invalid_time_range,
  deadline_in_the_past,
}
use boruta.Std.{Std}
use boruta.Queue.Counts.{pushed, removed, count-pushed, count-removed}
use boruta.Requests.Consistent.{IsEntry, waiting-count}
use boruta.Requests.Keeps.{IsSettled, push_request-ok, remove_request-ok}
use boruta.Requests.Ready.{insert_time-free}
use boruta.Requests.{
  ReqsCollection, new_request, add_request, out_of_range, timeout_request, run_request, hour,
}

module _ {c : ReqsCollection} (v : IsSettled c) (rid : ReqId) (r : ReqInfo)
    (e : lookup rid c.requests ≡ some r) (ew : r.state ≡ wait) where
  -- In a settled collection, Timeout of a waiting request whose Deadline is not after the time of
  -- the call returns, and then the request is in state TIMEOUT and the lane of its priority does
  -- not hold it.
  pub timeout_request-expired :
      (now : Time)
      → r.deadline ≤ now
      → (d : ReqsCollection) × (timeout_request rid now c ≡ ok d)
        × (lookup rid d.requests ≡ some (record r { state = timeout }))
        × (count r.id (d.queue.lane r.priority) ≡ 0)
  unfolding timeout_request
  timeout_request-expired now late =
      let d = record c {
        requests = insert rid (record r { state = timeout }) c.requests;
        queue = removed r.id r.priority c.queue;
      } in
      (
        d,
        ground (arith, remove_request-ok v.consistent v.free rid r e ew),
        rw (lookup-insert rid rid (record r { state = timeout }) c.requests, beq_refl rid) refl,
        (let entry : IsEntry rid (some r) = subst (IsEntry rid) e (v.consistent.entries rid) in
            ground (
              arith,
              entry.0,
              count-removed r.id r.id r.priority r.priority c.queue,
              waiting-count v.consistent rid r e ew,
            )),
      )

  -- In a settled collection whose times of timeouts are free, Run of a waiting request returns,
  -- and then the request is in progress on the worker, with a timeout an hour after the time of
  -- the call, and the lane of its priority does not hold it.
  pub run_request-starts :
      ⦃std : Std⦄
      → (uuid : WorkerUuid) (now : Time) → c.timeout_times.is_locked ≡ false
      → (d : ReqsCollection) × (run_request rid uuid now c ≡ ok d)
        × (lookup rid d.requests
            ≡ some (record r {
              state = inprogress;
              job = some (record { worker_uuid = uuid; timeout_at = now + hour });
            }))
        × (count r.id (d.queue.lane r.priority) ≡ 0)
  unfolding run_request
  run_request-starts uuid now free =
      let req = record r {
        state = inprogress;
        job = some (record { worker_uuid = uuid; timeout_at = now + hour });
      } in
      let (times, et) =
        insert_time-free (record { at = now + hour; req = rid }) c.timeout_times free in
      let d = record c {
        requests = insert rid req c.requests;
        iterating = false;
        queue = removed r.id r.priority c.queue;
        timeout_times = times;
      } in
      (
        d,
        ground (arith, v.still, et, remove_request-ok v.consistent v.free rid r e ew),
        rw (lookup-insert rid rid req c.requests, beq_refl rid) refl,
        (let entry : IsEntry rid (some r) = subst (IsEntry rid) e (v.consistent.entries rid) in
            ground (
              arith,
              entry.0,
              count-removed r.id r.id r.priority r.priority c.queue,
              waiting-count v.consistent rid r e ew,
            )),
      )

module _ ⦃std : Std⦄ {c : ReqsCollection} (v : IsSettled c) where
  -- In a settled collection whose times are free, NewRequest with a priority in range, a Deadline
  -- that is not in the past and a ValidAfter that is set and not after the Deadline returns an ID
  -- that is one more than the number of requests, and then that ID has the request, waiting, with
  -- the values given, and stands once in the lane of its priority.
  pub new_request-accepted :
      (caps : Capabilities) (p : Priority) (owner : UserInfo) (va dl now nv ma : Time)
      → c.valid_after_times.is_locked ≡ false
      → c.deadline_times.is_locked ≡ false
      → hi_prio ≤ p
      → p ≤ lo_prio
      → now ≤ dl
      → va ≤ dl
      → 0 < va
      → (d : ReqsCollection) × (new_request caps p owner va dl now nv ma c
          ≡ ok (length c.requests + 1, d))
        × (lookup (length c.requests + 1) d.requests
            ≡ some (record {
              id = length c.requests + 1;
              priority = p;
              owner = owner;
              deadline = dl;
              valid_after = va;
              state = wait;
              job = none;
              caps = caps;
            }))
        × (count (length c.requests + 1) (d.queue.lane p) ≡ 1)
  unfolding new_request add_request out_of_range
  new_request-accepted caps p owner va dl now nv ma lv ld lo hi nd vd pos =
      let id = length c.requests + 1 in
      let req : ReqInfo = record {
        id = id;
        priority = p;
        owner = owner;
        deadline = dl;
        valid_after = va;
        state = wait;
        job = none;
        caps = caps;
      } in
      let (vt, ev) = insert_time-free (record { at = va; req = id }) c.valid_after_times lv in
      let (dt, ed) = insert_time-free (record { at = dl; req = id }) c.deadline_times ld in
      (
        record c {
          queue = pushed id p c.queue;
          requests = insert id req c.requests;
          valid_after_times = vt;
          deadline_times = dt;
        },
        ground (arith, push_request-ok c.queue v.free req lo hi, ev, ed),
        rw (lookup-insert id id req c.requests, beq_refl id) refl,
        ground (
          arith,
          count-pushed id id p p c.queue,
          v.consistent.counts id p,
          v.consistent.given id (omega arith),
        ),
      )

-- NewRequest with a Deadline that is set returns the error of a Deadline in the past if the
-- Deadline is before the time of the call, and otherwise that of an invalid range if it is before
-- ValidAfter, and otherwise that of the bounds of priorities if the priority is above the lowest.
pub new_request-refused :
    ⦃std : Std⦄
    → (caps : Capabilities) (p : Priority) (owner : UserInfo) (va dl now nv ma : Time)
      (c : ReqsCollection)
    → 0 < dl
    → (dl < now → new_request caps p owner va dl now nv ma c ≡ err deadline_in_the_past)
      × (now ≤ dl → dl < va → new_request caps p owner va dl now nv ma c ≡ err invalid_time_range)
      × (now ≤ dl
          → va ≤ dl
          → lo_prio < p
          → new_request caps p owner va dl now nv ma c ≡ err priority_out_of_bounds)
unfolding new_request out_of_range
new_request-refused caps p owner va dl now nv ma c pos =
    (λ h. ground arith, λ h k. ground arith, λ h k l. ground arith)
