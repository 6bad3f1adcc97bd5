-- ===== src/Server/Safety.antt =====
-- The invariant through every call, and at the start.
use boruta.Common.{refl, Bool, false, List, [], ◌∷◌, nat_eq, text_eq, lookup, count}
use boruta.Types.{ReqId, req_state_eq, Time}
use boruta.Std.{Std, SortLaws}
use boruta.Server.Matching.{Round}
use boruta.Server.Iterate.{notify_valid-Inv}
use boruta.Times.{RequestTimes, take_past, rearm}
use boruta.Outcome.{Sound, returns, fails, Sound-bind}
use boruta.Requests.{new_request_queue}
use boruta.Requests.Keeps.{
  timeout_request-Kept, prolong_access-Kept, new_request-Kept, update_request-Kept,
}
use boruta.Workers.{new_worker_list, set_change_listener}
use boruta.Server.{Server}
use boruta.Server.Calls.{
  Call, creates, closes, updates, prolongs, registers, fails, sets_state, sets_groups, deregisters,
  fires_valid_after, fires_deadline, fires_timeout, receives, stores_key, ends_operation, step,
  new_server, notify_deadline, notify_timeout, fire_valid_after, fire_deadline, fire_timeout,
}
use boruta.Server.Invariant.{Inv}
use boruta.Server.States.{ignore-Sound}
use boruta.Server.Keeps.{
  times-Inv, Kept-Inv, settled, close_timed_out-Inv, close_request-Inv, set_fail-Inv,
  deregister-Inv, admin_set_state-Inv, set_groups-Inv, register-Inv,
}
use boruta.Server.Works.{receive-Inv, store_key-Inv, end_operation-Inv}

-- The times of the deadlines and of the timeouts are not in the invariant.
deadline_times-Inv :
    {b : Bool} {s : Server} (v : Inv b s) (d : RequestTimes)
    → Inv b (record s { reqs = record (s.reqs) { deadline_times = d } })
deadline_times-Inv v d = record {
  reqs_held = record { consistent = v.reqs_held.consistent; held = v.reqs_held.held };
  phase = v.phase;
  jobs_match = v.jobs_match;
  workers_match = v.workers_match;
  listens = v.listens;
}

timeout_times-Inv :
    {b : Bool} {s : Server} (v : Inv b s) (d : RequestTimes)
    → Inv b (record s { reqs = record (s.reqs) { timeout_times = d } })
timeout_times-Inv v d = record {
  reqs_held = record { consistent = v.reqs_held.consistent; held = v.reqs_held.held };
  phase = v.phase;
  jobs_match = v.jobs_match;
  workers_match = v.workers_match;
  listens = v.listens;
}

module _ ⦃std : Std⦄ where
  notify_deadline-Inv :
      (rs : List ReqId) (now : Time) (s : Server)
      → Inv false s
      → Sound (Inv false) (notify_deadline rs now s)
  unfolding notify_deadline
  notify_deadline-Inv [] now s v = returns v
  notify_deadline-Inv (r ∷ rs) now s v =
      Sound-bind
        (ignore-Sound s v
          (Sound-bind (timeout_request-Kept (settled v) r now) λ c _ k. returns (Kept-Inv v k)))
        λ t _ tv. notify_deadline-Inv rs now t tv

  notify_timeout-Inv :
      (rs : List ReqId) (now : Time) (s : Server)
      → Inv false s
      → Sound (Inv false) (notify_timeout rs now s)
  unfolding notify_timeout
  notify_timeout-Inv [] now s v = returns v
  notify_timeout-Inv (r ∷ rs) now s v =
      Sound-bind (ignore-Sound s v (close_timed_out-Inv v r now))
        λ t _ tv. notify_timeout-Inv rs now t tv

  fire_deadline-Inv :
      (t now : Time) (s : Server) → Inv false s → Sound (Inv false) (fire_deadline t now s)
  unfolding fire_deadline
  fire_deadline-Inv t now s v =
      let taken = take_past t s.reqs.deadline_times in
      Sound-bind (notify_deadline-Inv taken.0 now _ (deadline_times-Inv v taken.1))
        λ u _ w. returns (deadline_times-Inv w (rearm u.reqs.deadline_times))

  fire_timeout-Inv :
      (t now : Time) (s : Server) → Inv false s → Sound (Inv false) (fire_timeout t now s)
  unfolding fire_timeout
  fire_timeout-Inv t now s v =
      let taken = take_past t s.reqs.timeout_times in
      Sound-bind (notify_timeout-Inv taken.0 now _ (timeout_times-Inv v taken.1))
        λ u _ w. returns (timeout_times-Inv w (rearm u.reqs.timeout_times))

  fire_valid_after-Inv :
      SortLaws std
      → (t : Time) (rounds : List Round) (s : Server) → Inv false s
      → Sound (Inv false) (fire_valid_after t rounds s)
  unfolding fire_valid_after
  fire_valid_after-Inv laws t rounds s v =
      let taken = take_past t s.reqs.valid_after_times in
      Sound-bind (notify_valid-Inv laws rounds _ (times-Inv v taken.1))
        λ u _ w. returns (times-Inv w (rearm u.reqs.valid_after_times))

-- If sort.Sort permutes the workers it is given, every call of a user, an administrator or a
-- worker, every firing of the three timers, and every step of a background goroutine, made when
-- the server has the invariant, does not panic, and if it returns a server, that server has the
-- invariant: the queue holds exactly the waiting requests, jobs and requests in progress
-- correspond, a worker with a job is in state RUN, a worker in state IDLE or RUN has a key, and
-- what is pending for a worker's goroutine is the worker's state. The call may also return an
-- error or wait.
pub step-Inv :
    ⦃std : Std⦄ (laws : SortLaws std)
    → (c : Call) (s : Server) → Inv false s
    → Sound (Inv false) (step c s)
unfolding step
step-Inv laws (creates caps p owner va dl now nv ma) s v =
    Sound-bind (new_request-Kept (settled v) caps p owner va dl now nv ma)
      λ r _ k. returns (Kept-Inv v k)
step-Inv laws (closes rid now) s v = close_request-Inv v rid now
step-Inv laws (updates src now) s v =
    Sound-bind (update_request-Kept (settled v) src now) λ c _ k. returns (Kept-Inv v k)
step-Inv laws (prolongs rid now) s v =
    Sound-bind (prolong_access-Kept (settled v) rid now) λ c _ k. returns (Kept-Inv v k)
step-Inv laws (registers caps dryad ssh now) s v = register-Inv v caps dryad ssh now
step-Inv laws (fails uuid now) s v = set_fail-Inv v uuid now
step-Inv laws (sets_state uuid state now) s v = admin_set_state-Inv v uuid state now
step-Inv laws (sets_groups uuid groups now) s v = set_groups-Inv v uuid groups now
step-Inv laws (deregisters uuid) s v = deregister-Inv v uuid
step-Inv laws (fires_valid_after t rounds) s v = fire_valid_after-Inv laws t rounds s v
step-Inv laws (fires_deadline t now) s v = fire_deadline-Inv t now s v
step-Inv laws (fires_timeout t now) s v = fire_timeout-Inv t now s v
step-Inv laws (receives uuid) s v = receive-Inv v uuid
step-Inv laws (stores_key uuid key) s v = store_key-Inv v uuid key
step-Inv laws (ends_operation uuid failing now) s v = end_operation-Inv v uuid failing now

-- The server that the program starts with has the invariant.
pub new_server-Inv : (far : Time) → Inv false (new_server far)
unfolding new_server new_request_queue new_worker_list set_change_listener
    boruta.Queue.new_prio_queue lookup boruta.Queue.Counts.total
new_server-Inv far = record {
  reqs_held = record {
    consistent = record {
      counts = λ id p. unfold count in refl;
      entries = λ id. tt;
      given = λ id h. refl;
      sized = refl;
    };
    held = λ _. refl;
  };
  phase = refl;
  jobs_match = record {
    matched = λ id w. (λ h. cc, λ h. cc);
    assigned = λ id. tt;
    opened = λ w. tt;
  };
  workers_match = record { sane = λ uuid. tt; booked = λ uuid. tt; unique = tt };
  listens = refl;
}
