-- ===== src/Tests/Matching.antt =====
-- The theorems on the valid matcher, the queue's iterator and the heap of times at concrete inputs.
use boruta.Common.{
  Perm, map, select, ℕ, ◌≡◌, ◌≤◌, ◌||◌, refl, true, false, arith, [], ◌∷◌, some, none, Text, codes,
  nat_eq, text_eq, lookup, insert, text_beq, inl, ◌==◌, lookup-insert, Mem,
}
use boruta.Types.{WorkerUuid, ReqId, ok, run, idle, hi_prio, lo_prio, worker_state_eq}
use boruta.Std.{Std}
use boruta.Filter.{match_worker, new_workers}
use boruta.Queue.{PrioQueue, init_iterator}
use boruta.Queue.Iterate.{drain, lanes_from, drain-init_iterator}
use boruta.Workers.{MapWorker, score, check_pending_operation}
use boruta.Server.{Server}
use boruta.Server.Matching.{Round, take_best, notify_valid}
use boruta.Server.Invariant.{Inv, WorkersMatch, store-WorkersMatch}
use boruta.Server.Best.{take_best-least}
use boruta.Server.Room.{HasRoom}
use boruta.Server.Progress.{HasTunnels, CanServe}
use boruta.Server.Served.{notify_valid-serves}
use boruta.Server.Ends.{AnyStuck, notify_valid-Stuck}
use boruta.Samples.Heap.{sample_heap_laws}
use boruta.Std.{RequestTime}
use boruta.Times.{RequestTimes, take_past, insert_time, new_request_times}
use boruta.Times.Armed.{Reached, starts, inserts, IsArmed, Reached-IsArmed}
use boruta.Times.Past.{is_past, is_left, take_past-Exact}
use boruta.Samples.{
  sample-SortLaws, sample_std, waiting, waiting-IsSettled, uuid, run_worker, no_jobs-JobsMatch,
}

instance abbrev go_std : Std
go_std = sample_std

abbrev in_state : MapWorker
in_state = record run_worker { info = record (run_worker.info) { state = idle } }

-- A request waits, and the only worker is idle; the times of ValidAfter are at work.
abbrev ready : Server
ready = record {
  reqs = record waiting {
    valid_after_times = record { times = []; timer = 1000; is_locked = true };
  };
  workers = record { workers = insert uuid in_state []; has_listener = true };
  jobs = [];
}

ready-Inv : Inv false ready
unfolding lookup insert check_pending_operation text_beq boruta.Requests.new_request_queue
ready-Inv =
    let empty : WorkersMatch [] [] = record {
      sane = λ uuid. tt;
      booked = λ uuid. tt;
      unique = tt;
    } in
    record {
      reqs_held = record {
        consistent = waiting-IsSettled.consistent;
        held = λ _. waiting-IsSettled.free;
      };
      phase = refl;
      jobs_match = no_jobs-JobsMatch;
      workers_match =
          store-WorkersMatch empty uuid in_state
            (record { named = refl; pending = tt; keyed = tt; long = tt }) (inl refl);
      listens = refl;
    }

drain-init_iterator_example :
    (t : PrioQueue) × (init_iterator waiting.queue ≡ ok t)
    × (drain 2 t ≡ ok (lanes_from lo_prio waiting.queue.lane hi_prio))
unfolding boruta.Queue.Counts.pushed boruta.Queue.new_prio_queue
drain-init_iterator_example =
    drain-init_iterator waiting.queue waiting-IsSettled.free waiting-IsSettled.consistent.sized

abbrev taken : Server
taken = record ready {
  workers = record {
    workers = insert uuid (record run_worker { background_operation = run ∷ [] }) [];
    has_listener = true;
  };
}

take_best-least_example :
    let f = match_worker (new_workers [] []) in
    (w : MapWorker) × (lookup uuid ready.workers.workers ≡ some w)
    × (w.info.state ≡ idle)
    × ((f w.info || w.info.worker_uuid == []) ≡ true)
    × ((other : WorkerUuid) (o : MapWorker)
        → lookup other ready.workers.workers ≡ some o
        → o.info.state ≡ idle
        → f o.info ≡ true
        → score w.info ≤ score o.info)
unfolding take_best insert lookup text_beq match_worker new_workers
    boruta.Requests.new_request_queue boruta.Queue.Counts.pushed boruta.Queue.new_prio_queue
    boruta.Workers.store_worker boruta.Sorter.new_worker_sorter boruta.Common.select
    boruta.Workers.find_worker
take_best-least_example = take_best-least sample-SortLaws ready-Inv [] [] 20 uuid taken refl

-- The tunnel is refused.
abbrev no_tunnel : Round
no_tunnel = record { now = 20; run_now = 20; idle_now = 20; listened = λ id. none }

notify_valid-Stuck_example : AnyStuck (no_tunnel ∷ no_tunnel ∷ []) ready
unfolding notify_valid insert lookup text_beq boruta.Requests.new_request_queue
    boruta.Queue.Counts.pushed boruta.Queue.new_prio_queue boruta.Workers.store_worker
    boruta.Requests.init_iteration init_iterator boruta.Requests.next_request boruta.Queue.next
    boruta.Queue.set_lane boruta.Requests.on_worker_idle boruta.Times.insert_time
    boruta.Times.new_request_times match_worker new_workers boruta.Sorter.new_worker_sorter
    boruta.Common.select boruta.Workers.find_worker
notify_valid-Stuck_example =
    notify_valid-Stuck sample-SortLaws (no_tunnel ∷ no_tunnel ∷ []) ready ready-Inv (omega arith)
      refl

abbrev two_times : RequestTimes
two_times = record {
  times = record { at = 5; req = 1 } ∷ record { at = 30; req = 2 } ∷ [];
  timer = 5;
  is_locked = false;
}

take_past-Exact_example :
    let (ids, d) = take_past 20 two_times in
    Perm ids (map (λ x. x.req) (select (is_past 20) two_times.times))
    × Perm d.times (select (is_left 20) two_times.times)
    × sample_heap_laws.IsHeap d.times
unfolding boruta.Std.request_time_less
take_past-Exact_example = take_past-Exact sample_heap_laws 20 two_times ((refl, tt), (tt, tt))

abbrev thirty : RequestTime
thirty = record { at = 30; req = 1 }

-- One time has been inserted.
abbrev one_time : RequestTimes
one_time = record { times = thirty ∷ []; timer = 30; is_locked = false }

one_time-Reached : Reached one_time
unfolding insert_time new_request_times
one_time-Reached = inserts thirty (starts 1000) refl

Reached-IsArmed_example : IsArmed sample_heap_laws one_time
Reached-IsArmed_example = Reached-IsArmed sample_heap_laws one_time one_time-Reached

-- The tunnel is opened.
abbrev with_tunnel : Round
with_tunnel = record {
  now = 20;
  run_now = 20;
  idle_now = 20;
  listened = λ id. some (record { ip = some (codes "10.0.0.1"); port = 4000 });
}

opened : HasTunnels with_tunnel
opened id = (record { ip = some (codes "10.0.0.1"); port = 4000 }, refl)

ready-HasRoom : HasRoom ready
unfolding lookup boruta.Requests.new_request_queue boruta.Times.new_request_times
ready-HasRoom = record {
  room = λ u w e ei. ground (arith, lookup-insert uuid u in_state []);
  timeouts = refl;
}

notify_valid-serves_example :
    let rs = with_tunnel ∷ with_tunnel ∷ [] in
    (t : Server) × (notify_valid rs ready ≡ ok t)
    × Inv false t
    × (r : Round) × Mem r rs
    × ((rid : ReqId) → CanServe r t rid → ⊥)
unfolding boruta.Queue.Counts.pushed boruta.Queue.new_prio_queue boruta.Requests.new_request_queue
notify_valid-serves_example =
    notify_valid-serves sample-SortLaws (with_tunnel ∷ with_tunnel ∷ []) ready ready-Inv
      ready-HasRoom (opened, (opened, tt)) (omega arith)
