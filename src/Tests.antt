-- ===== src/Tests.antt =====
-- The theorems at concrete inputs.
mod Http
mod Matching
mod Dryad
mod Reception
mod States
mod Operations
use boruta.Common.{
  ◌≢◌, count, ◌+◌, text_lt, nat_beq, length, ◌≡◌, refl, ◌≤◌, ◌<◌, true, false, ◌||◌, none, some, [],
  ◌∷◌, arith, Text, codes, lookup, inr, nat_eq, text_eq, text_beq, insert, contains,
}
use boruta.Types.{
  panic, err, lo_prio, inprogress, timeout, deadline_in_the_past, invalid_time_range,
  priority_out_of_bounds, ReqId, ReqInfo, Time, WorkerInfo, ok, blocked, external, fail, idle,
  Capabilities, wait,
}
use boruta.Std.{Std}
use boruta.Outcome.{Sound}
use boruta.Filter.{match_worker, new_workers, is_empty}
use boruta.Filter.Sound.{in_any, match_worker_sound, match_worker_complete}
use boruta.Requests.Effects.{run_request-starts, new_request-accepted}
use boruta.Sorter.{less_request, by_state}
use boruta.Sorter.Order.{IsStrict, less_request-IsStrict}
use boruta.Lists.{descending, forward}
use boruta.Paging.{page}
use boruta.Paging.Pages.{length-page}
use boruta.Paging.Walk.{pages, pages_complete}
use boruta.Requests.{
  hour, ReqsCollection, timeout_request, run_request, new_request, update_request, prolong_access,
  verify_if_ready,
}
use boruta.Requests.Keeps.{
  IsSettled, Kept, timeout_request-Kept, run_request-IsSettled, new_request-Kept,
  update_request-Kept, prolong_access-Kept, IsSettled-IsHeld,
}
use boruta.Requests.Ready.{new_request-never_ready, update_request-never_ready}
use boruta.Server.{Server, set_state, on_worker_fail}
use boruta.Server.Calls.{step, closes, new_server, Call, registers, fails}
use boruta.Server.Api.{new_worker}
use boruta.Server.Reach.{Reachable, starts, follows, step_no_panic, Reachable-Inv}
use boruta.Server.Invariant.{Inv}
use boruta.Server.Matching.{start_job, Round, create_job}
use boruta.Server.Deadlock.{start_job-blocked}
use boruta.Server.States.{set_state-Inv}
use boruta.Server.Stop.{Stopped, on_worker_fail-Stopped}
use boruta.Server.Safety.{step-Inv, new_server-Inv}
use boruta.Samples.{
  sample-SortLaws, sample_addr, sample_std, wait_req, waiting, waiting-IsSettled, uuid, run_worker,
  run_req, running_reqs, running-IsSettled, running, running-Inv,
}

instance abbrev go_std : Std
go_std = sample_std

step-Inv_example : Sound (Inv false) (step (closes 1 20) running)
step-Inv_example = step-Inv sample-SortLaws (closes 1 20) running running-Inv

set_state-Inv_example : Sound (Inv false) (set_state uuid fail 20 running)
unfolding lookup insert text_beq
set_state-Inv_example =
    set_state-Inv running-Inv uuid run_worker fail 20 refl tt (inr (refl, (λ e. cc), (λ e. cc)))

on_worker_fail-Stopped_example : Sound (Stopped false uuid running) (on_worker_fail uuid running)
on_worker_fail-Stopped_example = on_worker_fail-Stopped running-Inv uuid

timeout_request-Kept_example : Sound (Kept waiting) (timeout_request 1 200 waiting)
timeout_request-Kept_example = timeout_request-Kept waiting-IsSettled 1 200

run_request-IsSettled_example : Sound IsSettled (run_request 1 uuid 20 waiting)
run_request-IsSettled_example = run_request-IsSettled (IsSettled-IsHeld waiting-IsSettled) 1 uuid 20

abbrev raised : ReqInfo
raised = record wait_req { priority = 2; deadline = 0; valid_after = 0 }

new_request-never_ready_example :
    (r : ReqId × ReqsCollection) × (new_request [] 3 (record { groups = [] }) 500 0 1 2 300 waiting
      ≡ ok r)
    × ((later : Time) → verify_if_ready r.0 later r.1 ≡ false)
unfolding boruta.Requests.new_request_queue boruta.Times.new_request_times
new_request-never_ready_example =
    new_request-never_ready [] 3 (record { groups = [] }) 500 1 2 300 waiting waiting-IsSettled refl
      refl (omega arith) (omega arith) (omega arith) (omega arith)

abbrev earlier : ReqInfo
earlier = record wait_req { priority = 0; deadline = 8; valid_after = 0 }

update_request-never_ready_example :
    (d : ReqsCollection) × (update_request (some earlier) 5 waiting ≡ ok d)
    × ((later : Time) → verify_if_ready 1 later d ≡ false)
unfolding boruta.Requests.new_request_queue boruta.Times.new_request_times lookup insert
update_request-never_ready_example =
    update_request-never_ready earlier wait_req 5 waiting refl refl refl refl refl (omega arith)
      (omega arith) (omega arith) (omega arith)

abbrev locked : Server
locked = record running {
  reqs = record waiting {
    valid_after_times = record { times = []; timer = 1000; is_locked = true };
  };
  jobs = [];
}

abbrev refused : Round
refused = record { now = 20; run_now = 20; idle_now = 20; listened = λ id. none }

start_job-blocked_example : start_job 1 uuid refused locked ≡ blocked
unfolding lookup insert text_beq create_job
start_job-blocked_example =
    start_job-blocked 1 uuid refused locked run_worker external refl refl refl refl refl

abbrev arm : WorkerInfo
arm = record {
  worker_uuid = uuid;
  state = idle;
  groups = codes "lab" ∷ codes "ci" ∷ [];
  caps = (codes "arch", codes "arm") ∷ (codes "UUID", uuid) ∷ [];
}

abbrev wanted : Capabilities
wanted = (codes "arch", codes "arm") ∷ []

match_worker_sound_example :
    ((is_empty (codes "ci" ∷ []) || in_any arm.groups (codes "ci" ∷ [])) ≡ true)
    × ((key value : Text) → lookup key wanted ≡ some value → lookup key arm.caps ≡ some value)
unfolding match_worker new_workers lookup insert text_beq
match_worker_sound_example = match_worker_sound (codes "ci" ∷ []) wanted arm refl

match_worker_complete_example : match_worker (new_workers (codes "ci" ∷ []) wanted) arm ≡ true
unfolding lookup in_any contains text_beq
match_worker_complete_example =
    match_worker_complete (codes "ci" ∷ []) wanted arm (refl, tt) refl λ key value e. ground arith

run_request-starts_example :
    (d : ReqsCollection) × (run_request 1 uuid 20 waiting ≡ ok d)
    × (lookup 1 d.requests
        ≡ some (record wait_req {
          state = inprogress;
          job = some (record { worker_uuid = uuid; timeout_at = 20 + hour });
        }))
    × (count 1 (d.queue.lane 5) ≡ 0)
unfolding boruta.Requests.new_request_queue boruta.Times.new_request_times lookup insert
run_request-starts_example = run_request-starts waiting-IsSettled 1 wait_req refl refl uuid 20 refl

new_request-accepted_example :
    (d : ReqsCollection) × (new_request [] 3 (record { groups = [] }) 50 90 1 2 300 waiting
      ≡ ok (2, d))
    × (lookup 2 d.requests
        ≡ some (record {
          id = 2;
          priority = 3;
          owner = record { groups = [] };
          deadline = 90;
          valid_after = 50;
          state = wait;
          job = none;
          caps = [];
        }))
    × (count 2 (d.queue.lane 3) ≡ 1)
unfolding boruta.Requests.new_request_queue boruta.Times.new_request_times insert
new_request-accepted_example =
    new_request-accepted waiting-IsSettled [] 3 (record { groups = [] }) 50 90 1 2 300 refl refl
      (omega arith) (omega arith) (omega arith) (omega arith) (omega arith)

less_request-IsStrict_example : IsStrict (less_request by_state descending)
less_request-IsStrict_example = less_request-IsStrict by_state descending

length-page_example :
    let (shown, info) = page (λ n. nat_beq n 2) true false forward 1 (1 ∷ 2 ∷ 3 ∷ 4 ∷ []) in
    (length shown ≤ 1)
    × (length shown + info.remaining_items ≤ 4)
    × (0 < info.remaining_items → length shown ≡ 1)
length-page_example = length-page (λ n. nat_beq n 2) true false forward 1 (1 ∷ 2 ∷ 3 ∷ 4 ∷ [])

-- A worker has registered.
abbrev registered : Call
registered = registers ((codes "UUID", uuid) ∷ []) (codes "d") (codes "s") 20

abbrev one_worker : Server
one_worker = record (new_server 1000) {
  workers = record {
    workers = insert uuid (new_worker uuid ((codes "UUID", uuid) ∷ []) sample_addr sample_addr) [];
    has_listener = true;
  };
}

one_worker-Reachable : Reachable one_worker
unfolding new_server boruta.Workers.set_change_listener boruta.Workers.new_worker_list step lookup
    insert boruta.Workers.store_worker text_beq
one_worker-Reachable = follows registered (starts 1000) refl

step_no_panic_example : step (fails uuid 30) one_worker ≢ panic
step_no_panic_example =
    step_no_panic sample-SortLaws (fails uuid 30) one_worker one_worker-Reachable

pages_complete_example : pages (λ n. n) 4 2 none (3 ∷ 1 ∷ 2 ∷ []) ≡ 3 ∷ 1 ∷ 2 ∷ []
pages_complete_example =
    pages_complete (λ n. n) 2 (omega arith) 3 (3 ∷ 1 ∷ 2 ∷ [])
      ((refl, (refl, tt)), ((refl, tt), (tt, tt))) (omega arith)
