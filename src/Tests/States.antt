-- ===== src/Tests/States.antt =====
-- The theorem on the states of requests at a concrete server.
use boruta.Common.{
  ◌+◌, some, refl, true, false, [], ◌∷◌, lookup, insert, delete, text_beq, text_eq, nat_eq,
}
use boruta.Types.{failed, fail}
use boruta.Std.{Std}
use boruta.Requests.{hour, prolong_access, find_request, store_request}
use boruta.Workers.{find_worker, store_worker}
use boruta.Server.{
  Server, set_state, send, notify_listener, tell_idle, tell_fail, on_worker_fail, break_job,
  get_job, fail_request,
}
use boruta.Server.Api.{set_fail, acquire_worker}
use boruta.Server.Access.{Grants, acquire_worker-Grants}
use boruta.Server.Calls.{step, fails, prolongs}
use boruta.Server.Invariant.{Inv}
use boruta.Server.Follows.{Follows}
use boruta.Server.Follows.Step.{Later, at_once, after, Later-Follows}
use boruta.Samples.{
  sample_std, sample-SortLaws, uuid, run_req, run_worker, running_reqs, running, running-Inv,
}

instance abbrev go_std : Std
go_std = sample_std

-- The worker that runs the request has failed.
abbrev broken : Server
broken = record {
  reqs = record running_reqs {
    requests = insert 1 (record run_req { state = failed }) running_reqs.requests;
  };
  workers = record {
    workers =
        insert uuid
          (record run_worker {
            info = record (run_worker.info) { state = fail };
            background_operation = fail ∷ [];
          })
          running.workers.workers;
    has_listener = true;
  };
  jobs = delete uuid running.jobs;
}

running-broken : Later running broken
unfolding step set_fail find_worker set_state send notify_listener tell_idle tell_fail
    on_worker_fail break_job get_job fail_request store_request store_worker lookup insert delete
    text_beq boruta.Tunnels.close_tunnel
running-broken = after (fails uuid 20) at_once refl

Later-Follows_example : Inv false broken × Follows running broken
Later-Follows_example = Later-Follows sample-SortLaws running broken running-Inv running-broken

-- The request's time is prolonged by an hour.
abbrev prolonged : Server
prolonged = record running {
  reqs = record running_reqs {
    requests =
        insert 1
          (record run_req { job = some (record { worker_uuid = uuid; timeout_at = 20 + hour }) })
          running_reqs.requests;
    timeout_times = record {
      times = record { at = 20 + hour; req = 1 } ∷ [];
      timer = 20 + hour;
      is_locked = false;
    };
  };
}

running-prolonged : Later running prolonged
unfolding step prolong_access find_request store_request lookup insert text_beq
    boruta.Times.insert_time boruta.Times.new_request_times boruta.Requests.new_request_queue
running-prolonged = after (prolongs 1 20) at_once refl

acquire_worker-Grants_example : Grants prolonged 1 (acquire_worker 1 prolonged)
acquire_worker-Grants_example =
    acquire_worker-Grants sample-SortLaws running prolonged running-Inv running-prolonged 1
