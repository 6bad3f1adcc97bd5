-- ===== src/Requests.antt =====
-- requests/requests.go: the collection of requests, with the methods that stay inside it. Those that
-- reach jobs or workers are in Server. A mutex makes each method one step. Each reading of the clock
-- is an argument.
pub mod Running
pub mod Consistent
pub mod Keeps
pub mod Ready
pub mod Effects
pub mod Leads
use boruta.Common.{
  ℕ, suc, ◌+◌, ◌*◌, ◌≤◌, ◌≡◌, Bool, true, false, not, ◌&&◌, ◌||◌, Option, none, some, List, [], ◌∷◌,
  if◌then◌else◌, ltb, leb, nat_beq, nat_eq, ◌==◌, length, Map, lookup, insert, codes,
}
use boruta.Types.{
  ReqState, wait, inprogress, cancel, timeout, req_state_eq, req_state_beq, ReqId, Priority,
  hi_prio, lo_prio, WorkerUuid, Time, Capabilities, UserInfo, JobInfo, ReqInfo, Error, not_found,
  internal_logic, priority_out_of_bounds, invalid_time_range, deadline_in_the_past,
  worker_not_assigned, modification_forbidden, Result, ok, err, panic, ◌>>=◌, ◌>>◌, or_fail,
  fail_if,
}
use boruta.Std.{Std, RequestTime}
use boruta.Times.{RequestTimes, new_request_times, insert_time}
use boruta.Queue
use boruta.Queue.{PrioQueue}

pub record ReqsCollection : Type 0 where
  pub requests : Map ReqId ReqInfo
  pub queue : PrioQueue
  pub iterating : Bool
  pub valid_after_times : RequestTimes
  pub deadline_times : RequestTimes
  pub timeout_times : RequestTimes

unfoldable pub new_request_queue : Time → ReqsCollection
new_request_queue far_future = record {
  requests = [];
  queue = Queue.new_prio_queue;
  iterating = false;
  valid_after_times = new_request_times far_future;
  deadline_times = new_request_times far_future;
  timeout_times = new_request_times far_future;
}

abbrev pub no_request : Error
no_request = not_found (codes "Request")

unfoldable pub find_request : ReqId → ReqsCollection → Result ReqInfo
find_request rid c = or_fail (lookup rid c.requests) no_request

-- A write through the pointer that the map holds.
unfoldable pub store_request : ReqId → ReqInfo → ReqsCollection → ReqsCollection
store_request rid r c = record c { requests = insert rid r c.requests }

unfoldable pub out_of_range : Priority → Bool
out_of_range p = ltb p hi_prio || ltb lo_prio p

-- time.Hour, in nanoseconds
abbrev pub hour : Time
hour = 3600 * 1000000000

unfoldable pub modification_possible : ReqState → Bool
modification_possible s = s == wait

module _ ⦃std : Std⦄ where
  -- The critical section of NewRequest and what follows it.
  unfoldable pub add_request : ReqInfo → ReqsCollection → Result (ReqId × ReqsCollection)
  add_request draft c = do
    let id = length c.requests + 1
    let req = record draft { id = id }
    queue ← Queue.push_request req c.queue
    valid ← insert_time (record { at = req.valid_after; req = id }) c.valid_after_times
    dead ← insert_time (record { at = req.deadline; req = id }) c.deadline_times
    ok (
      id,
      record c {
        queue = queue;
        requests = insert id req c.requests;
        valid_after_times = valid;
        deadline_times = dead;
      },
    )

  -- `now` is read for the check, `now_valid` for the default of ValidAfter, and `month_ahead` is
  -- time.Now().AddDate(0, 1, 0).
  unfoldable pub new_request :
      Capabilities
      → Priority
      → UserInfo
      → (valid_after deadline now now_valid month_ahead : Time) → ReqsCollection
      → Result (ReqId × ReqsCollection)
  unfolding add_request out_of_range
  new_request caps priority owner valid_after deadline now now_valid month_ahead c = do
    fail_if (not (nat_beq deadline 0) && ltb deadline now) deadline_in_the_past
    fail_if (ltb deadline valid_after && not (nat_beq deadline 0)) invalid_time_range
    fail_if (out_of_range priority) priority_out_of_bounds
    add_request
        (record {
          id = 0;
          priority = priority;
          owner = owner;
          deadline = if nat_beq deadline 0 then month_ahead else deadline;
          valid_after = if nat_beq valid_after 0 then now_valid else valid_after;
          state = wait;
          job = none;
          caps = caps;
        })
        c

  -- What updateRequest changes once its checks have passed; the last two fields are the times to be
  -- inserted.
  unfoldable pub apply_update :
      ReqInfo
      → ReqInfo
      → Time
      → ReqsCollection
      → Result (ReqsCollection × Option RequestTime × Option RequestTime)
  apply_update src dst deadline c = do
    let new_prio = not (nat_beq src.priority 0)
    let new_valid = not (nat_beq src.valid_after 0)
    let new_dead = not (nat_beq dst.deadline deadline)
    queue ← (if new_prio then Queue.set_request_priority dst src.priority c.queue else ok c.queue)
    ok (
      record c {
        queue = queue;
        requests =
            insert src.id
              (record dst {
                priority = if new_prio then src.priority else dst.priority;
                valid_after = if new_valid then src.valid_after else dst.valid_after;
                deadline = deadline;
              })
              c.requests;
      },
      (if new_valid then some (record { at = src.valid_after; req = src.id }) else none),
      (if new_dead then some (record { at = deadline; req = src.id }) else none),
    )

  -- updateRequest, from the check of the priority on.
  unfoldable pub change_request :
      ReqInfo
      → ReqInfo
      → Time
      → ReqsCollection
      → Result (ReqsCollection × Option RequestTime × Option RequestTime)
  unfolding apply_update out_of_range
  change_request src dst now c = do
    let deadline = if nat_beq src.deadline 0 then dst.deadline else src.deadline
    fail_if (not (nat_beq src.priority 0) && out_of_range src.priority) priority_out_of_bounds
    fail_if (not (nat_beq src.deadline 0) && ltb src.deadline now) deadline_in_the_past
    fail_if
        (not (nat_beq src.valid_after 0)
          && not (nat_beq deadline 0)
          && ltb deadline src.valid_after)
        invalid_time_range
    apply_update src dst deadline c

  -- updateRequest: the part in the critical section.
  unfoldable pub update_locked :
      ReqInfo
      → Time
      → ReqsCollection
      → Result (ReqsCollection × Option RequestTime × Option RequestTime)
  unfolding change_request find_request modification_possible
  update_locked src now c = do
    dst ← find_request src.id c
    fail_if (not (modification_possible dst.state)) modification_forbidden
    let same =
        nat_beq src.priority dst.priority
        && nat_beq src.valid_after dst.valid_after
        && nat_beq src.deadline dst.deadline
    if same then ok (c, none, none) else change_request src dst now c

  unfoldable pub insert_opt : Option RequestTime → RequestTimes → Result RequestTimes
  insert_opt none rt = ok rt
  insert_opt (some t) rt = insert_time t rt

  -- UpdateRequest, for a source with some field set.
  unfoldable pub update_with : ReqInfo → Time → ReqsCollection → Result ReqsCollection
  unfolding update_locked insert_opt
  update_with src now c = do
    (d, new_valid, new_dead) ← update_locked src now c
    valid ← insert_opt new_valid d.valid_after_times
    dead ← insert_opt new_dead d.deadline_times
    ok (record d { valid_after_times = valid; deadline_times = dead })

  unfoldable pub update_request : Option ReqInfo → Time → ReqsCollection → Result ReqsCollection
  unfolding update_with
  update_request none now c = ok c
  update_request (some src) now c =
      if nat_beq src.priority 0 && nat_beq src.valid_after 0 && nat_beq src.deadline 0
      then ok c
      else update_with src now c

  unfoldable pub prolong_access : ReqId → Time → ReqsCollection → Result ReqsCollection
  unfolding find_request
  prolong_access rid now c = do
    req ← find_request rid c
    fail_if (not (req.state == inprogress)) worker_not_assigned
    j ← or_fail req.job worker_not_assigned
    times ← insert_time (record { at = now + hour; req = rid }) c.timeout_times
    ok (record c {
      requests =
          insert rid (record req { job = some (record j { timeout_at = now + hour }) }) c.requests;
      timeout_times = times;
    })

  -- Run. The queue is free again before the request is removed from it.
  unfoldable pub run_request : ReqId → WorkerUuid → Time → ReqsCollection → Result ReqsCollection
  unfolding find_request
  run_request rid worker now c = do
    req ← find_request rid c
    fail_if (not (req.state == wait)) modification_forbidden
    let released = if c.iterating then Queue.release_iterator c.queue else c.queue
    queue ← Queue.remove_request req released
    times ← insert_time (record { at = now + hour; req = rid }) c.timeout_times
    ok (record c {
      requests =
          insert rid
            (record req {
              state = inprogress;
              job = some (record { worker_uuid = worker; timeout_at = now + hour });
            })
            c.requests;
      iterating = false;
      queue = queue;
      timeout_times = times;
    })

  unfoldable pub on_worker_idle : WorkerUuid → Time → ReqsCollection → Result ReqsCollection
  on_worker_idle worker now c = do
    times ← insert_time (record { at = now; req = 0 }) c.valid_after_times
    ok (record c { valid_after_times = times })

unfoldable pub get_request : ReqId → ReqsCollection → Result ReqInfo
unfolding find_request
get_request rid c = find_request rid c

unfoldable pub verify_if_ready : ReqId → Time → ReqsCollection → Bool
verify_if_ready rid now c = elim (lookup rid c.requests) [
  | none ↦ false
  | some r ↦ (r.state == wait) && ltb now r.deadline && not (ltb now r.valid_after)
]

-- Timeout
unfoldable pub timeout_request : ReqId → Time → ReqsCollection → Result ReqsCollection
unfolding find_request
timeout_request rid now c = do
  req ← find_request rid c
  fail_if (not (req.state == wait) || ltb now req.deadline) modification_forbidden
  queue ← Queue.remove_request req c.queue
  ok (record c { requests = insert rid (record req { state = timeout }) c.requests; queue = queue })

unfoldable pub init_iteration : ReqsCollection → Result ReqsCollection
init_iteration c = do
  fail_if c.iterating internal_logic
  queue ← Queue.init_iterator c.queue
  ok (record c { queue = queue; iterating = true })

unfoldable pub terminate_iteration : ReqsCollection → ReqsCollection
terminate_iteration c =
    if c.iterating
    then record c { queue = Queue.release_iterator c.queue; iterating = false }
    else c

unfoldable pub next_request : ReqsCollection → Result (Option ReqId × ReqsCollection)
next_request c =
    if c.iterating
    then (Queue.next c.queue >>= λ (id, queue). ok (id, record c { queue = queue }))
    else panic

-- CloseRequest, in state WAIT.
unfoldable pub cancel_request : ReqId → ReqInfo → ReqsCollection → Result ReqsCollection
cancel_request rid req c = Queue.remove_request req c.queue >>= λ queue.
    ok
      (record c { requests = insert rid (record req { state = cancel }) c.requests; queue = queue })
