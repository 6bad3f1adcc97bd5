-- ===== src/Server/Calls.antt =====
-- Everything that can happen to the server: the calls of users, administrators and workers, the
-- timers of requests/times.go with the matchers that they notify, and the steps of the background
-- goroutines of workers.
use boruta.Common.{ℕ, Bool, Option, List, [], ◌∷◌, Text}
use boruta.Types.{
  ReqId, Priority, WorkerUuid, WorkerState, Time, Capabilities, UserInfo, ReqInfo, Result, ok,
  ◌>>=◌,
}
use boruta.Std.{Std}
use boruta.Times.{take_past, rearm}
use boruta.Requests.{
  new_request_queue, new_request, update_request, prolong_access, timeout_request,
}
use boruta.Workers.{new_worker_list, set_change_listener}
use boruta.Server.{Server, ignore}
use boruta.Server.Background.{receive, store_key, end_operation}
use boruta.Server.Api.{
  close_request, close_timed_out, register, set_fail, admin_set_state, set_groups, deregister,
}
use boruta.Server.Matching.{Round, notify_valid}

-- cmd/boruta/boruta.go: an empty server, whose requests listen to its workers.
unfoldable pub new_server : Time → Server
new_server far_future = record {
  reqs = new_request_queue far_future;
  workers = set_change_listener new_worker_list;
  jobs = [];
}

module _ ⦃std : Std⦄ where
  -- DeadlineMatcher.Notify
  unfoldable pub notify_deadline : List ReqId → Time → Server → Result Server
  unfolding timeout_request
  notify_deadline [] now s = ok s
  notify_deadline (r ∷ rs) now s =
      ignore s (timeout_request r now s.reqs >>= λ c. ok (record s { reqs = c })) >>= λ t.
      notify_deadline rs now t

  -- TimeoutMatcher.Notify
  unfoldable pub notify_timeout : List ReqId → Time → Server → Result Server
  unfolding close_timed_out
  notify_timeout [] now s = ok s
  notify_timeout (r ∷ rs) now s =
      ignore s (close_timed_out r now s) >>= λ t. notify_timeout rs now t

  -- requestTimes.process, of each of the three timers; `t` is the time that the timer sends, and
  -- `now` the clock of the matcher.
  unfoldable pub fire_valid_after : Time → List Round → Server → Result Server
  unfolding take_past rearm notify_valid
  fire_valid_after t rounds s = do
    let taken = take_past t s.reqs.valid_after_times
    u ← notify_valid rounds (record s { reqs = record (s.reqs) { valid_after_times = taken.1 } })
    ok (record u { reqs = record (u.reqs) { valid_after_times = rearm u.reqs.valid_after_times } })

  unfoldable pub fire_deadline : Time → Time → Server → Result Server
  unfolding take_past rearm notify_deadline
  fire_deadline t now s = do
    let taken = take_past t s.reqs.deadline_times
    u ←
        notify_deadline taken.0 now
          (record s { reqs = record (s.reqs) { deadline_times = taken.1 } })
    ok (record u { reqs = record (u.reqs) { deadline_times = rearm u.reqs.deadline_times } })

  unfoldable pub fire_timeout : Time → Time → Server → Result Server
  unfolding take_past rearm notify_timeout
  fire_timeout t now s = do
    let taken = take_past t s.reqs.timeout_times
    u ← notify_timeout taken.0 now (record s { reqs = record (s.reqs) { timeout_times = taken.1 } })
    ok (record u { reqs = record (u.reqs) { timeout_times = rearm u.reqs.timeout_times } })

pub data Call : Type 0 where
  creates :
      Capabilities
      → Priority
      → UserInfo
      → (valid_after deadline now now_valid month_ahead : Time) → Call
  closes : ReqId → Time → Call
  updates : Option ReqInfo → Time → Call
  prolongs : ReqId → Time → Call
  registers : Capabilities → (dryad ssh : Text) → Time → Call
  fails : WorkerUuid → Time → Call
  sets_state : WorkerUuid → WorkerState → Time → Call
  sets_groups : WorkerUuid → List Text → Time → Call
  deregisters : WorkerUuid → Call
  fires_valid_after : Time → List Round → Call
  fires_deadline : Time → Time → Call
  fires_timeout : Time → Time → Call
  receives : WorkerUuid → Call
  stores_key : WorkerUuid → ℕ → Call
  ends_operation : WorkerUuid → Bool → Time → Call

module _ ⦃std : Std⦄ where
  -- One call, up to its return.
  unfoldable pub step : Call → Server → Result Server
  unfolding new_request update_request prolong_access close_request register set_fail
      admin_set_state set_groups deregister fire_valid_after fire_deadline fire_timeout receive
      store_key end_operation
  step (creates caps priority owner va dl now nv ma) s =
      new_request caps priority owner va dl now nv ma s.reqs >>= λ (id, c).
      ok (record s { reqs = c })
  step (closes rid now) s = close_request rid now s
  step (updates src now) s = update_request src now s.reqs >>= λ c. ok (record s { reqs = c })
  step (prolongs rid now) s = prolong_access rid now s.reqs >>= λ c. ok (record s { reqs = c })
  step (registers caps dryad ssh now) s = register caps dryad ssh now s
  step (fails uuid now) s = set_fail uuid now s
  step (sets_state uuid state now) s = admin_set_state uuid state now s
  step (sets_groups uuid groups now) s = set_groups uuid groups now s
  step (deregisters uuid) s = deregister uuid s
  step (fires_valid_after t rounds) s = fire_valid_after t rounds s
  step (fires_deadline t now) s = fire_deadline t now s
  step (fires_timeout t now) s = fire_timeout t now s
  step (receives uuid) s = receive uuid s
  step (stores_key uuid key) s = store_key uuid key s
  step (ends_operation uuid failing now) s = end_operation uuid failing now s
