-- ===== src/Server/Match.antt =====
-- A match: TakeBestMatchingWorker, and the job or the way back.
use boruta.Common.{
  ℕ, ◌≡◌, refl, ap, subst, ◌∙◌, Bool, true, false, Option, none, some, List, [], arith, nat_eq,
  text_eq, ◌==◌, lookup, inl, inr, Text, All, All-implies, All-select, All-map, All-perm,
  lookup-entries, select, Map, lookup-insert, beq_refl, nat_beq,
}
use boruta.Types.{WorkerUuid, idle, run, worker_state_eq, WorkerInfo, Time, Capabilities}
use boruta.Std.{Std, SortLaws}
use boruta.Outcome.{Sound, returns, Sound-bind, Sound-both, Sound-map, Sound-fail_if}
use boruta.Workers.{MapWorker, infos, is_listed, matching_workers, best_of, max_int32}
use boruta.Workers.Best.{best_of-holds}
use boruta.Filter.{match_worker, new_workers}
use boruta.Server.{Server, Job, set_state}
use boruta.Server.Matching.{take_best}
use boruta.Sorter.{less_worker, by_uuid}
use boruta.Lists.{ascending}
use boruta.Server.Invariant.{Inv, WorkersMatch, IsSane, IsSane?, IsKeyed}
use boruta.Server.States.{set_state-Inv, set_state-Quiet, sent_worker}
use boruta.Server.Keeps.{booked_none}

-- What a worker's UUID is looked up to: the information, and whether it is in state IDLE.
abbrev pub info_at : Option MapWorker → Option WorkerInfo
info_at none = none
info_at (some w) = some w.info

abbrev pub is_idle_at : Option MapWorker → Bool
is_idle_at none = false
is_idle_at (some w) = w.info.state == idle

is_idle_at-some :
    (o : Option MapWorker)
    → is_idle_at o ≡ true
    → (w : MapWorker) × (o ≡ some w) × (w.info.state ≡ idle)
is_idle_at-some none h = cc
is_idle_at-some (some w) h = (w, refl, ground arith)

idle_at :
    (o : Option MapWorker) (i : WorkerInfo)
    → info_at o ≡ some i
    → i.state ≡ idle
    → is_idle_at o ≡ true
idle_at none i h e = cc
idle_at (some w) i h e = ground arith

pub entry-info :
    {m : Map WorkerUuid MapWorker} {jobs : Map WorkerUuid Job} (v : WorkersMatch m jobs)
    (p : WorkerUuid × MapWorker)
    → lookup p.0 m ≡ some p.1
    → info_at (lookup p.1.info.worker_uuid m) ≡ some p.1.info
entry-info {m} v p e =
    let sane : IsSane p.0 p.1 = subst (IsSane? p.0) e (v.sane p.0) in
    ap info_at (ap (λ u. lookup u m) sane.named ∙ e)

-- The workers that are listed as IDLE are in state IDLE.
listed-idle :
    {m : Map WorkerUuid MapWorker} {jobs : Map WorkerUuid Job} (v : WorkersMatch m jobs)
    (filter : Option (WorkerInfo → Bool))
    → All
        (λ i. is_idle_at (lookup i.worker_uuid m) ≡ true)
        (select (is_listed filter [] true) (infos m))
unfolding is_listed
listed-idle {m} v filter =
    All-select (is_listed filter [] true) (infos m)
      (λ i listed at. idle_at (lookup i.worker_uuid m) i at (ground arith))
      (All-map (λ i. info_at (lookup i.worker_uuid m) ≡ some i) (λ w. w.info) _
        (All-map (λ w. info_at (lookup w.info.worker_uuid m) ≡ some w.info) (λ p. p.1) m
          (All-implies m (λ p e. entry-info v p e) (lookup-entries m v.unique))))

IsKeyed-idle : (key : Option ℕ) → IsKeyed idle key → IsKeyed run key
IsKeyed-idle none k = absurd (k.0 refl)
IsKeyed-idle (some x) k = tt

-- A worker that was taken: it runs, with no job yet, and the requests are as they were.
pub record Picked (b : Bool) (s : Server) (r : WorkerUuid × Server) : Type 0 where
  pub inv : Inv b r.1
  pub worker : MapWorker
  pub found : lookup r.0 r.1.workers.workers ≡ some worker
  pub runs : worker.info.state ≡ run
  pub free : lookup r.0 r.1.jobs ≡ none
  pub requests : r.1.reqs.requests ≡ s.reqs.requests
  pub queue : r.1.reqs.queue ≡ s.reqs.queue

module _ ⦃std : Std⦄ {b : Bool} {s : Server} (v : Inv b s) where
  pub pick-Picked :
      (uuid : WorkerUuid) (now : Time)
      → is_idle_at (lookup uuid s.workers.workers) ≡ true
      → Sound (λ t. Picked b s (uuid, t)) (set_state uuid run now s)
  pick-Picked uuid now h =
      let (w, e, ei) = is_idle_at-some _ h in
      let sane : IsSane uuid w = subst (IsSane? uuid) e (v.workers_match.sane uuid) in
      let free = booked_none v uuid w e (ground arith) in
      let keyed : IsKeyed idle w.key = subst (λ x. IsKeyed x w.key) ei sane.keyed in
      Sound-map
        (Sound-both (set_state-Inv v uuid w run now e (IsKeyed-idle w.key keyed) (inl free))
          (set_state-Quiet uuid w run now s e (ground arith)))
        λ t (inv, quiet). record {
          inv = inv;
          worker = sent_worker w run;
          found =
              ap (lookup uuid) quiet.workers
              ∙ rw (lookup-insert uuid uuid (sent_worker w run) s.workers.workers, beq_refl uuid)
                  refl;
          runs = refl;
          free = ap (lookup uuid) quiet.jobs ∙ free;
          requests = quiet.requests;
          queue = quiet.queue;
        }

  pub take_best-Picked :
      SortLaws std
      → (groups : List Text) (caps : Capabilities) (now : Time)
      → Sound (Picked b s) (take_best groups caps now s)
  unfolding take_best matching_workers boruta.Sorter.new_worker_sorter
  take_best-Picked laws groups caps now =
      let f = match_worker (new_workers groups caps) in
      let listed = select (is_listed (some f) [] true) (infos s.workers.workers) in
      let sorted = std.sort_workers (less_worker by_uuid ascending) listed in
      let idle_there = λ (i : WorkerInfo). is_idle_at (lookup i.worker_uuid s.workers.workers) in
      let all : All (λ i. idle_there i ≡ true) sorted =
        All-perm idle_there sorted listed
          (laws.sort_workers_perm (less_worker by_uuid ascending) listed)
          (listed-idle v.workers_match (some f)) in
      let best = best_of max_int32 [] sorted in
      Sound-fail_if (nat_beq best.0 max_int32) _ λ some_found.
        Sound-bind
          (pick-Picked best.1 now
            (elim (best_of-holds (λ _ u. is_idle_at (lookup u s.workers.workers) ≡ true) max_int32
              [] sorted (inr refl) all) [ inl h ↦ h | inr h ↦ absurd (ground arith) ]))
          λ t _ picked. returns picked
