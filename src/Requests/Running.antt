-- ===== src/Requests/Running.antt =====
-- The workers that requests run on, and changes of the map of requests that keep them.
use boruta.Common.{
  ◌≡◌, refl, ap, ◌∙◌, ◌≢◌, Option, none, some, if◌then◌else◌, nat_beq, nat_beq_iff, nat_eq, ◌==◌,
  Map, lookup, insert, lookup-insert, inl, inr, Bool-cases,
}
use boruta.Types.{ReqId, inprogress, req_state_eq, WorkerUuid, ReqInfo}

-- The worker that a request runs on.
abbrev pub worker_of : Option ReqInfo → Option WorkerUuid
worker_of none = none
worker_of (some r) =
    if r.state == inprogress then elim r.job [ none ↦ none | some j ↦ some j.worker_uuid ] else none

-- A request in progress has a job.
abbrev pub IsAssigned : Option ReqInfo → Type 0
IsAssigned none = Unit
IsAssigned (some r) = r.state ≡ inprogress → r.job ≢ none

pub record SameWorkers (m n : Map ReqId ReqInfo) : Type 0 where
  pub same : (id : ReqId) → worker_of (lookup id n) ≡ worker_of (lookup id m)
  pub assigned : (id : ReqId) → IsAssigned (lookup id m) → IsAssigned (lookup id n)

pub SameWorkers-refl : {m : Map ReqId ReqInfo} → SameWorkers m m
SameWorkers-refl = record { same = λ id. refl; assigned = λ id a. a }

pub insert-SameWorkers :
    (m : Map ReqId ReqInfo) (rid : ReqId) (s : ReqInfo)
    → worker_of (some s) ≡ worker_of (lookup rid m)
    → IsAssigned (some s)
    → SameWorkers m (insert rid s m)
insert-SameWorkers m rid s e a = record {
  same = λ id. elim (Bool-cases (nat_beq rid id)) [
    | inl h ↦
        rw (lookup-insert rid id s m, h)
          (e ∙ ap (λ i. worker_of (lookup i m)) ((nat_beq_iff rid id).0 h))
    | inr h ↦ rw (lookup-insert rid id s m, h)
  ];
  assigned = λ id b. elim (Bool-cases (nat_beq rid id)) [
    | inl h ↦ rw (lookup-insert rid id s m, h) a
    | inr h ↦ rw (lookup-insert rid id s m, h) b
  ];
}
