-- ===== src/Server/Deadlock.antt =====
-- What happens to a match whose job cannot be created: the timer of ValidAfter runs, and its mutex is
-- held, when the worker goes back to IDLE.
use boruta.Common.{◌≡◌, true, false, some, arith, text_eq, lookup}
use boruta.Types.{ReqId, WorkerUuid, run, idle, Error, Time, err, blocked}
use boruta.Std.{Std}
use boruta.Times.{insert_time}
use boruta.Requests.{on_worker_idle}
use boruta.Workers.{MapWorker, find_worker}
use boruta.Server.{Server, prepare_worker, set_state, send, notify_listener, tell_idle}
use boruta.Server.Matching.{Round, start_job, create_job}

tell_idle-blocked :
    ⦃std : Std⦄
    → (uuid : WorkerUuid) (now : Time) (s : Server) → s.reqs.valid_after_times.is_locked ≡ true
    → tell_idle uuid idle now s ≡ blocked
unfolding tell_idle on_worker_idle insert_time
tell_idle-blocked uuid now s h = rw h

prepare_worker-blocked :
    ⦃std : Std⦄
    → (uuid : WorkerUuid) (now : Time) (s : Server) (w : MapWorker)
    → lookup uuid s.workers.workers ≡ some w
    → w.info.state ≡ run
    → s.workers.has_listener ≡ true
    → s.reqs.valid_after_times.is_locked ≡ true
    → prepare_worker uuid false now s ≡ blocked
unfolding prepare_worker set_state find_worker send notify_listener
prepare_worker-blocked uuid now s w e r l h = ground (arith, tell_idle-blocked uuid now s h)

-- While the timer of ValidAfter holds its mutex, a match of a request with a worker in state RUN
-- whose job cannot be created waits for ever: the worker that is brought back to IDLE is announced
-- to the listener, which inserts into the times whose mutex the same goroutine holds.
pub start_job-blocked :
    ⦃std : Std⦄
    → (rid : ReqId) (uuid : WorkerUuid) (r : Round) (s : Server) (w : MapWorker) (e : Error)
    → lookup uuid s.workers.workers ≡ some w
    → w.info.state ≡ run
    → s.workers.has_listener ≡ true
    → s.reqs.valid_after_times.is_locked ≡ true
    → create_job rid uuid (r.listened rid) s ≡ err e
    → start_job rid uuid r s ≡ blocked
unfolding start_job
start_job-blocked rid uuid r s w e ew er l h c =
    rw (c, start_job, prepare_worker-blocked uuid r.idle_now s w ew er l h)
