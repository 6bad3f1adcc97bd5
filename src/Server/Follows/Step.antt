-- ===== src/Server/Follows/Step.antt =====
-- The states of requests, through every call that can happen to the server.
use boruta.Common.{
  ◌≡◌, Bool, inr, false, Option, none, some, List, [], ◌∷◌, lookup, nat_eq, text_eq,
}
use boruta.Types.{ReqId, WorkerState, WorkerUuid, Time, ok}
use boruta.Std.{Std, SortLaws}
use boruta.Outcome.{Every, Every-ok, gives, Every-if, Every-bind, Every-or_fail, Sound-ok}
use boruta.Requests.Leads.{Leads-trans}
use boruta.Requests.Leads.Calls.{
  timeout_request-Every, new_request-Every, update_request-Every, prolong_access-Every,
}
use boruta.Times.{take_past}
use boruta.Workers.{MapWorker, find_worker, check_pending_operation}
use boruta.Server.{Server}
use boruta.Server.Invariant.{Inv, JobsMatch}
use boruta.Server.Safety.{step-Inv}
use boruta.Server.Keeps.{settled, times-Inv}
use boruta.Server.Follows.{
  Follows, Follows-refl, ignore-Every, Every-then, reqs-Every, set_state-Every,
}
use boruta.Server.Follows.Calls.{
  close_request-Every, close_timed_out-Every, deregister-Every, set_groups-Every, set_fail-Every,
  admin_set_state-Every, register-Every,
}
use boruta.Server.Background.{
  receive_next, receive, store_key, store_in, end_with, end_operation, is_ready, operation_result,
}
use boruta.Server.Calls.{
  Call, creates, closes, updates, prolongs, registers, fails, sets_state, sets_groups, deregisters,
  fires_valid_after, fires_deadline, fires_timeout, receives, stores_key, ends_operation, step,
  notify_deadline, notify_timeout, fire_valid_after, fire_deadline, fire_timeout,
}
use boruta.Server.Follows.Iterate.{notify_valid-Every}

module _ ⦃std : Std⦄ where
  notify_deadline-Every :
      (rs : List ReqId) (now : Time) (s : Server) → Every (Follows s) (notify_deadline rs now s)
  unfolding notify_deadline
  notify_deadline-Every [] now s = gives (Follows-refl s)
  notify_deadline-Every (r ∷ rs) now s =
      Every-then s
        (ignore-Every s (Follows-refl s) (reqs-Every s (timeout_request-Every s.reqs r now)))
        λ t _. notify_deadline-Every rs now t

  notify_timeout-Every :
      (rs : List ReqId) (now : Time) (s : Server) → Every (Follows s) (notify_timeout rs now s)
  unfolding notify_timeout
  notify_timeout-Every [] now s = gives (Follows-refl s)
  notify_timeout-Every (r ∷ rs) now s =
      Every-then s (ignore-Every s (Follows-refl s) (close_timed_out-Every r now s))
        λ t _. notify_timeout-Every rs now t

  receive_next-Follows :
      (op : Option WorkerState) (l : List WorkerState) (uuid : WorkerUuid) (w : MapWorker)
      (s : Server)
      → Follows s (receive_next op l uuid w s)
  unfolding receive_next store_in
  receive_next-Follows none (x ∷ l) uuid w s = Follows-refl s
  receive_next-Follows none [] uuid w s = Follows-refl s
  receive_next-Follows (some op) l uuid w s = Follows-refl s

  end_with-Every :
      (op pending : Option WorkerState) (uuid : WorkerUuid) (w : MapWorker) (failing : Bool)
      (now : Time) (s : Server)
      → JobsMatch s.reqs.requests s.jobs
      → Every (Follows s) (end_with op pending uuid w failing now s)
  unfolding end_with store_in
  end_with-Every none pending uuid w failing now s v = gives (Follows-refl s)
  end_with-Every (some op) (some x) uuid w failing now s v = gives (Follows-refl s)
  end_with-Every (some op) none uuid w failing now s v =
      Every-if (is_ready op w.key failing)
        (λ _. set_state-Every uuid (operation_result op failing) now _ (inr v))
        (λ _. gives (Follows-refl s))

-- What one call makes of the requests.
pub step-Follows :
    ⦃std : Std⦄ (laws : SortLaws std)
    → (c : Call) (s : Server) → Inv false s
    → Every (Follows s) (step c s)
unfolding step fire_valid_after fire_deadline fire_timeout receive store_key end_operation
    find_worker store_in
step-Follows laws (creates caps p owner va dl now nv ma) s v =
    Every-bind (new_request-Every s.reqs (settled v) caps p owner va dl now nv ma) λ r _ k. gives k
step-Follows laws (closes rid now) s v = close_request-Every rid now s
step-Follows laws (updates src now) s v = reqs-Every s (update_request-Every s.reqs src now)
step-Follows laws (prolongs rid now) s v = reqs-Every s (prolong_access-Every s.reqs rid now)
step-Follows laws (registers caps dryad ssh now) s v =
    register-Every s v.jobs_match caps dryad ssh now
step-Follows laws (fails uuid now) s v = set_fail-Every s v.jobs_match uuid now
step-Follows laws (sets_state uuid state now) s v =
    admin_set_state-Every s v.jobs_match uuid state now
step-Follows laws (sets_groups uuid groups now) s v = set_groups-Every uuid groups now s
step-Follows laws (deregisters uuid) s v = deregister-Every uuid s
step-Follows laws (fires_valid_after t rounds) s v =
    let taken = take_past t s.reqs.valid_after_times in
    Every-bind (notify_valid-Every laws rounds _ (times-Inv v taken.1)) λ u _ k. gives k
step-Follows laws (fires_deadline t now) s v =
    let taken = take_past t s.reqs.deadline_times in
    Every-bind
      (notify_deadline-Every taken.0 now
        (record s { reqs = record (s.reqs) { deadline_times = taken.1 } }))
      λ u _ k. gives k
step-Follows laws (fires_timeout t now) s v =
    let taken = take_past t s.reqs.timeout_times in
    Every-bind
      (notify_timeout-Every taken.0 now
        (record s { reqs = record (s.reqs) { timeout_times = taken.1 } }))
      λ u _ k. gives k
step-Follows laws (receives uuid) s v =
    Every-or_fail (lookup uuid s.workers.workers) _
      λ w _. gives (receive_next-Follows w.background w.background_operation uuid w s)
step-Follows laws (stores_key uuid key) s v =
    Every-or_fail (lookup uuid s.workers.workers) _ λ w _. gives (Follows-refl s)
step-Follows laws (ends_operation uuid failing now) s v =
    Every-or_fail (lookup uuid s.workers.workers) _ λ w _.
      end_with-Every w.background (check_pending_operation w.background_operation) uuid w failing
        now s v.jobs_match

-- The servers that calls lead to from a server.
pub data Later ⦃std : Std⦄ (s : Server) : Server → Type 0 where
  at_once : Later s s
  after : {t u : Server} (c : Call) → Later s t → step c t ≡ ok u → Later s u

-- If sort.Sort permutes the workers it is given and the server has the invariant, then after any
-- calls that return, one after another, of users, administrators, workers, timers and background
-- goroutines, the server has the invariant, and each request that was there is there, in a state
-- that its state leads to: WAIT leads to any state, INPROGRESS to itself, DONE and FAILED, and
-- each other state to itself only.
pub Later-Follows :
    ⦃std : Std⦄ (laws : SortLaws std) (s t : Server)
    → Inv false s
    → Later s t
    → Inv false t × Follows s t
Later-Follows laws s t v at_once = (v, Follows-refl s)
Later-Follows laws s u v (after {t = t} c l e) =
    let (w, k) = Later-Follows laws s t v l in
    (Sound-ok u (step-Inv laws c t w) e, Leads-trans k (Every-ok u (step-Follows laws c t w) e))
