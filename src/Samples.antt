-- ===== src/Samples.antt =====
-- A library of Go and a server with a request that waits or runs, for the tests.
pub mod Codec
pub mod Specs
pub mod Listed
pub mod Web
pub mod Heap
pub mod Dryad
use boruta.Common.{
  Perm, Bool-cases, inr, ℕ, ◌≡◌, refl, sym, Bool, true, false, Option, none, some, List, [], ◌∷◌,
  arith, if◌then◌else◌, Text, codes, text_lt, lookup, insert, inl, nat_eq, text_eq, ◌∙◌,
}
use boruta.Types.{ReqInfo, JobInfo, wait, inprogress, run, TcpAddr, WorkerUuid}
use mathlib.Core.List.Perm
use boruta.Std.{Std, SortLaws, RequestTime, request_time_less}
use boruta.Queue.{new_prio_queue}
use boruta.Queue.Counts.{pushed, removed, next_fn-pushed, next_fn-removed}
use boruta.Requests.{ReqsCollection, new_request_queue}
use boruta.Requests.Consistent.{enter-IsConsistent, leave-IsConsistent}
use boruta.Requests.Keeps.{IsSettled}
use boruta.Workers.{MapWorker, check_pending_operation}
use boruta.Server.{Server, Job}
use boruta.Server.Invariant.{
  Inv, JobsMatch, WorkersMatch, start-JobsMatch, store-WorkersMatch, insert_job-WorkersMatch,
}
use boruta.Server.Safety.{new_server-Inv}
use boruta.Server.Calls.{new_server}

-- An ordered list is a heap.
abbrev pub sorted_push : RequestTime → List RequestTime → RequestTime × List RequestTime
sorted_push x [] = (x, [])
sorted_push x (y ∷ h) =
    let rest = sorted_push x h in if request_time_less x y then (x, y ∷ h) else (y, rest.0 ∷ rest.1)

abbrev pub insert_sorted {ℓ} : {A : Type ℓ} → (A → A → Bool) → A → List A → List A
insert_sorted less x [] = x ∷ []
insert_sorted less x (y ∷ l) =
    let rest = insert_sorted less x l in if less y x then y ∷ rest else x ∷ y ∷ l

abbrev pub insertion_sort {ℓ} : {A : Type ℓ} → (A → A → Bool) → List A → List A
insertion_sort less [] = []
insertion_sort less (x ∷ l) = insert_sorted less x (insertion_sort less l)

abbrev pub sample_addr : TcpAddr
sample_addr = record { ip = some (codes "10.0.0.1"); port = 22 }

abbrev pub sample_std : Std
sample_std = record {
  heap_push = sorted_push;
  heap_pop = λ x h. (x, h);
  sort_requests = insertion_sort;
  sort_workers = insertion_sort;
  sort_strings = insertion_sort text_lt;
  resolve_tcp_addr = λ s. some sample_addr;
  to_lower = λ s. s;
  to_upper = λ s. s;
  trim_space = λ s. s;
}

insert_sorted-perm {ℓ} :
    {A : Type ℓ} (less : A → A → Bool) (x : A) (l : List A) → Perm (insert_sorted less x l) (x ∷ l)
insert_sorted-perm less x [] = Perm.refl (x ∷ [])
insert_sorted-perm less x (y ∷ l) = elim (Bool-cases (less y x)) [
  | inl e ↦ rw e (Perm.trans (Perm.cons y (insert_sorted-perm less x l)) (Perm.swap x y l))
  | inr e ↦ rw e (Perm.refl (x ∷ y ∷ l))
]

pub insertion_sort-perm {ℓ} :
    {A : Type ℓ} (less : A → A → Bool) (l : List A) → Perm (insertion_sort less l) l
insertion_sort-perm less [] = Perm.refl []
insertion_sort-perm less (x ∷ l) =
    Perm.trans (insert_sorted-perm less x (insertion_sort less l))
      (Perm.cons x (insertion_sort-perm less l))

pub sample-SortLaws : SortLaws sample_std
sample-SortLaws = record { sort_workers_perm = λ less l. insertion_sort-perm less l }

abbrev pub wait_req : ReqInfo
wait_req = record {
  id = 1;
  priority = 5;
  owner = record { groups = [] };
  deadline = 100;
  valid_after = 10;
  state = wait;
  job = none;
  caps = [];
}

abbrev pub waiting : ReqsCollection
waiting = record (new_request_queue 1000) {
  requests = insert 1 wait_req [];
  queue = pushed 1 5 new_prio_queue;
}

pub waiting-IsSettled : IsSettled waiting
unfolding new_server new_request_queue new_prio_queue insert
waiting-IsSettled = record {
  consistent =
      enter-IsConsistent (new_server-Inv 0).reqs_held.consistent wait_req refl refl (omega arith)
        (omega arith);
  free = next_fn-pushed 1 5 new_prio_queue;
  still = refl;
}

abbrev pub uuid : WorkerUuid
uuid = codes "w"

abbrev pub run_job : JobInfo
run_job = record { worker_uuid = uuid; timeout_at = 50 }

abbrev pub run_req : ReqInfo
run_req = record wait_req { state = inprogress; job = some run_job }

abbrev pub run_worker : MapWorker
run_worker = record {
  info = record { worker_uuid = uuid; state = run; groups = []; caps = [] };
  dryad = sample_addr;
  sshd = sample_addr;
  key = some 7;
  background_operation = [];
  background = none;
}

abbrev pub sample_job : Job
sample_job = record {
  access = record { addr = sample_addr; key = 7; username = codes "boruta-user" };
  tunnel = record { listener = sample_addr; dest = sample_addr; is_closed = false };
  req = 1;
}

abbrev pub running_reqs : ReqsCollection
running_reqs = record waiting {
  requests = insert 1 run_req waiting.requests;
  queue = removed 1 5 waiting.queue;
}

-- The request runs on the only worker.
abbrev pub running : Server
running = record {
  reqs = running_reqs;
  workers = record { workers = insert uuid run_worker []; has_listener = true };
  jobs = insert uuid sample_job [];
}

pub running-IsSettled : IsSettled running_reqs
unfolding new_request_queue insert lookup
running-IsSettled = record {
  consistent =
      leave-IsConsistent waiting-IsSettled.consistent 1 wait_req run_req refl refl refl refl refl;
  free = next_fn-removed 1 5 waiting.queue ∙ waiting-IsSettled.free;
  still = refl;
}

pub no_jobs-JobsMatch : JobsMatch waiting.requests []
unfolding lookup insert
no_jobs-JobsMatch = record {
  matched = λ id w. (λ h. ground arith, λ h. cc);
  assigned = λ id. ground arith;
  opened = λ w. tt;
}

pub running-Inv : Inv false running
unfolding new_request_queue lookup insert check_pending_operation boruta.Common.text_beq
running-Inv =
    let empty : WorkersMatch [] [] = record {
      sane = λ uuid. tt;
      booked = λ uuid. tt;
      unique = tt;
    } in
    record {
      reqs_held = record {
        consistent = running-IsSettled.consistent;
        held = λ _. running-IsSettled.free;
      };
      phase = refl;
      jobs_match =
          start-JobsMatch no_jobs-JobsMatch 1 uuid wait_req run_req run_job sample_job refl refl
            refl refl refl refl refl;
      workers_match =
          insert_job-WorkersMatch
            (store-WorkersMatch empty uuid run_worker
              (record { named = refl; pending = tt; keyed = tt; long = tt }) (inl refl))
            uuid run_worker sample_job refl refl;
      listens = refl;
    }
