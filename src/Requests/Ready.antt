-- ===== src/Requests/Ready.antt =====
-- When a request can be run: VerifyIfReady, against the times that NewRequest and UpdateRequest let
-- through.
use boruta.Common.{
  ◌∷◌, ◌+◌, ◌≤◌, ◌<◌, ◌≡◌, refl, true, false, none, some, arith, if◌then◌else◌, nat_beq, nat_eq,
  length, lookup, insert, lookup-insert,
}
use boruta.Types.{
  ReqId, wait, req_state_eq, Priority, hi_prio, lo_prio, Capabilities, UserInfo, ReqInfo, Time, ok,
}
use boruta.Std.{Std, RequestTime}
use boruta.Times.{RequestTimes, insert_time}
use boruta.Queue.Counts.{pushed}
use boruta.Requests.Keeps.{IsSettled, push_request-ok}
use boruta.Requests.{
  ReqsCollection, verify_if_ready, new_request, add_request, out_of_range, update_request,
  update_with, update_locked, change_request, apply_update, insert_opt,
}

-- For a request that exists, VerifyIfReady is true exactly when the request waits, its ValidAfter
-- is not after the time asked about, and its Deadline is after it.
pub verify_if_ready_iff :
    (rid : ReqId) (now : Time) (c : ReqsCollection) (r : ReqInfo)
    → lookup rid c.requests ≡ some r
    → (verify_if_ready rid now c ≡ true
        → (r.state ≡ wait) × (r.valid_after ≤ now) × (now < r.deadline))
      × ((r.state ≡ wait) × (r.valid_after ≤ now) × (now < r.deadline)
          → verify_if_ready rid now c ≡ true)
unfolding verify_if_ready
verify_if_ready_iff rid now c r e = (λ h. ground arith, λ h. ground arith)

never_ready :
    (rid : ReqId) (c : ReqsCollection) (r : ReqInfo)
    → lookup rid c.requests ≡ some r
    → r.deadline ≤ r.valid_after
    → (now : Time) → verify_if_ready rid now c ≡ false
unfolding verify_if_ready
never_ready rid c r e h now = ground arith

-- An insertion into times whose timer does not run returns.
pub insert_time-free :
    ⦃std : Std⦄
    → (t : RequestTime) (rt : RequestTimes) → rt.is_locked ≡ false
    → (d : RequestTimes) × (insert_time t rt ≡ ok d)
unfolding insert_time
insert_time-free ⦃std⦄ t rt h = (
  record rt {
    times = (std.heap_push t rt.times).0 ∷ (std.heap_push t rt.times).1;
    timer =
        if nat_beq (std.heap_push t rt.times).0.at t.at
        then (std.heap_push t rt.times).0.at
        else rt.timer;
  },
  rw h refl,
)

-- NewRequest does not hold ValidAfter against the default Deadline: in a settled collection whose
-- times are free, a request with a priority in range, no Deadline, and a ValidAfter that is set
-- and at or after the default Deadline is accepted, and no time makes it ready.
pub new_request-never_ready :
    ⦃std : Std⦄
    → (caps : Capabilities) (p : Priority) (owner : UserInfo) (va now nv ma : Time)
      (c : ReqsCollection)
    → IsSettled c
    → c.valid_after_times.is_locked ≡ false
    → c.deadline_times.is_locked ≡ false
    → hi_prio ≤ p
    → p ≤ lo_prio
    → 0 < va
    → ma ≤ va
    → (r : ReqId × ReqsCollection) × (new_request caps p owner va 0 now nv ma c ≡ ok r)
      × ((later : Time) → verify_if_ready r.0 later r.1 ≡ false)
unfolding new_request add_request out_of_range
new_request-never_ready caps p owner va now nv ma c v lv ld lo hi pos late =
    let id = length c.requests + 1 in
    let req : ReqInfo = record {
      id = id;
      priority = p;
      owner = owner;
      deadline = ma;
      valid_after = va;
      state = wait;
      job = none;
      caps = caps;
    } in
    let (vt, ev) = insert_time-free (record { at = va; req = id }) c.valid_after_times lv in
    let (dt, ed) = insert_time-free (record { at = ma; req = id }) c.deadline_times ld in
    let d = record c {
      queue = pushed id p c.queue;
      requests = insert id req c.requests;
      valid_after_times = vt;
      deadline_times = dt;
    } in
    (
      (id, d),
      ground (arith, push_request-ok c.queue v.free req lo hi, ev, ed),
      never_ready id d req (rw (lookup-insert id id req c.requests) (ground arith)) late,
    )

-- UpdateRequest holds a new Deadline against a new ValidAfter only: if the times of deadlines are
-- free, a change of the Deadline alone of a waiting request, to a time that is not in the past and
-- at or before the ValidAfter that the request has, is accepted, and no time makes the request
-- ready afterwards.
pub update_request-never_ready :
    ⦃std : Std⦄
    → (src dst : ReqInfo) (now : Time) (c : ReqsCollection) → lookup src.id c.requests ≡ some dst
    → dst.state ≡ wait
    → c.deadline_times.is_locked ≡ false
    → src.priority ≡ 0
    → src.valid_after ≡ 0
    → 0 < dst.priority
    → 0 < src.deadline
    → now ≤ src.deadline
    → src.deadline ≤ dst.valid_after
    → (d : ReqsCollection) × (update_request (some src) now c ≡ ok d)
      × ((later : Time) → verify_if_ready src.id later d ≡ false)
unfolding update_request update_with update_locked change_request apply_update insert_opt
update_request-never_ready src dst now c e ew ld ep ev pp pd pn pl =
    let req = record dst { deadline = src.deadline } in
    let m = insert src.id req c.requests in
    let (dt, ed) =
      insert_time-free (record { at = src.deadline; req = src.id }) c.deadline_times ld in
    let rt : RequestTimes = if nat_beq dst.deadline src.deadline then c.deadline_times else dt in
    let d = record c { requests = m; deadline_times = rt } in
    (
      d,
      ground (arith, ed),
      never_ready src.id d req (rw (lookup-insert src.id src.id req c.requests) (ground arith)) pl,
    )
