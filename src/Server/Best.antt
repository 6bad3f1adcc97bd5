-- ===== src/Server/Best.antt =====
-- Which worker TakeBestMatchingWorker takes.
use boruta.Common.{
  ℕ, ◌≤◌, ◌≡◌, refl, ap, ◌∙◌, ◌⊎◌, Bool, true, false, ◌&&◌, ◌||◌, Option, none, some, List, [],
  arith, leb, nat_beq, nat_eq, text_eq, ◌==◌, lookup, inl, inr, Bool-cases, Text, All, All-implies,
  All-select, All-map, All-perm, All-unselect, All-unmap, All-lookup, lookup-entries, select, Map,
}
use mathlib.Core.List.Perm
use boruta.Types.{
  WorkerUuid, idle, run, worker_state_eq, WorkerInfo, Time, Capabilities, Result, ok, err, panic,
  blocked, ◌>>=◌,
}
use boruta.Std.{Std, SortLaws}
use boruta.Workers.{MapWorker, infos, is_listed, matching_workers, best_of, max_int32, score}
use boruta.Workers.Best.{best_of-holds, best_of-least}
use boruta.Filter.{match_worker, new_workers}
use boruta.Sorter.{less_worker, by_uuid}
use boruta.Lists.{ascending}
use boruta.Server.{Server, Job, set_state}
use boruta.Server.Matching.{take_best}
use boruta.Server.Invariant.{Inv, WorkersMatch}
use boruta.Server.Match.{info_at, entry-info}

-- What a UUID is looked up to is idle, is listed and has this score.
abbrev fits_at : (WorkerInfo → Bool) → ℕ → Option MapWorker → Bool
fits_at f n none = false
fits_at f n (some w) = is_listed (some f) [] true w.info && nat_beq n (score w.info)

fits_at-some :
    (f : WorkerInfo → Bool) (n : ℕ) (o : Option MapWorker)
    → fits_at f n o ≡ true
    → (w : MapWorker) × (o ≡ some w)
      × (is_listed (some f) [] true w.info ≡ true)
      × (score w.info ≡ n)
fits_at-some f n none h = cc
fits_at-some f n (some w) h = (w, refl, ground arith, ground arith)

fits_at-info :
    (f : WorkerInfo → Bool) (o : Option MapWorker) (i : WorkerInfo)
    → info_at o ≡ some i
    → is_listed (some f) [] true i ≡ true
    → fits_at f (score i) o ≡ true
fits_at-info f none i e h = cc
fits_at-info f (some w) i e h = ground arith

module _ {m : Map WorkerUuid MapWorker} {jobs : Map WorkerUuid Job} (v : WorkersMatch m jobs)
    (f : WorkerInfo → Bool) where
  listed-fits :
      All
        (λ i. fits_at f (score i) (lookup i.worker_uuid m) ≡ true)
        (select (is_listed (some f) [] true) (infos m))
  listed-fits =
      All-select (is_listed (some f) [] true) (infos m)
        (λ i listed at. fits_at-info f (lookup i.worker_uuid m) i at listed)
        (All-map (λ i. info_at (lookup i.worker_uuid m) ≡ some i) (λ w. w.info) _
          (All-map (λ w. info_at (lookup w.info.worker_uuid m) ≡ some w.info) (λ p. p.1) m
            (All-implies m (λ p e. entry-info v p e) (lookup-entries m v.unique))))

  -- A bound for the scores of the listed bounds that of each worker that would be listed.
  pub listed-least :
      (n : ℕ)
      → All (λ i. leb n (score i) ≡ true) (select (is_listed (some f) [] true) (infos m))
      → (uuid : WorkerUuid) (w : MapWorker) → lookup uuid m ≡ some w
      → is_listed (some f) [] true w.info ≡ true
      → n ≤ score w.info
  listed-least n h uuid w e listed =
      let all =
        All-unselect (λ i. leb n (score i) ≡ true) (is_listed (some f) [] true) (infos m) h in
      let at_workers =
        All-unmap (λ i. is_listed (some f) [] true i ≡ true → leb n (score i) ≡ true) (λ w. w.info)
          _ all in
      let at_entries =
        All-unmap (λ w. is_listed (some f) [] true w.info ≡ true → leb n (score w.info) ≡ true)
          (λ p. p.1) m at_workers in
      let this : leb n (score w.info) ≡ true =
        All-lookup (λ w. is_listed (some f) [] true w.info ≡ true → leb n (score w.info) ≡ true)
          uuid w m at_entries e listed in
      ground arith

bound_first :
    (u w : WorkerUuid) (m : Result Server) (t : Server)
    → let pair : Server → Result (WorkerUuid × Server) = λ x. ok (w, x) in
      (m >>= pair) ≡ ok (u, t) → u ≡ w
bound_first u w (ok x) t h = cc
bound_first u w (err e) t h = cc
bound_first u w panic t h = cc
bound_first u w blocked t h = cc

-- The worker that the loop ends with, before its state is set.
pub best-least :
    ⦃std : Std⦄ (laws : SortLaws std)
    → {m : Map WorkerUuid MapWorker} {jobs : Map WorkerUuid Job} (v : WorkersMatch m jobs)
      (f : WorkerInfo → Bool)
    → let listed = select (is_listed (some f) [] true) (infos m) in
      let best = best_of max_int32 [] (std.sort_workers (less_worker by_uuid ascending) listed) in
      (best.0 ≡ max_int32)
      ⊎ ((w : MapWorker) × (lookup best.1 m ≡ some w)
          × (is_listed (some f) [] true w.info ≡ true)
          × ((uuid : WorkerUuid) (o : MapWorker)
              → lookup uuid m ≡ some o
              → is_listed (some f) [] true o.info ≡ true
              → score w.info ≤ score o.info))
best-least ⦃std⦄ laws {m} v f =
    let less = less_worker by_uuid ascending in
    let listed = select (is_listed (some f) [] true) (infos m) in
    let sorted = std.sort_workers less listed in
    let perm = laws.sort_workers_perm less listed in
    let found = best_of max_int32 [] sorted in
    let fits =
      All-perm (λ i. fits_at f (score i) (lookup i.worker_uuid m)) sorted listed perm
        (listed-fits v f) in
    let least = (best_of-least max_int32 [] sorted found.0 refl).1 in
    let below =
      All-perm (λ i. leb found.0 (score i)) listed sorted (Perm.symm perm)
        (All-implies sorted (λ i h. ground arith) least) in
    elim (best_of-holds (λ n u. fits_at f n (lookup u m) ≡ true) max_int32 [] sorted (inr refl)
      fits) [
        | inr none_found ↦ inl none_found
        | inl here ↦
            let (w, e, listed_w, same) = fits_at-some f found.0 (lookup found.1 m) here in
            inr (
              w,
              e,
              listed_w,
              λ uuid o eo listed_o.
                  omega (arith, same, listed-least v f found.0 below uuid o eo listed_o),
            )
      ]

-- If sort.Sort permutes the workers it is given and the server has the invariant, a worker that
-- TakeBestMatchingWorker returns is known, was in state IDLE, is matched by the groups and
-- capabilities asked for or has the empty UUID, and no worker that was in state IDLE and is
-- matched has a lower score.
pub take_best-least :
    ⦃std : Std⦄ (laws : SortLaws std)
    → {b : Bool} {s : Server} (v : Inv b s) (groups : List Text) (caps : Capabilities) (now : Time)
      (u : WorkerUuid) (t : Server)
    → take_best groups caps now s ≡ ok (u, t)
    → let f = match_worker (new_workers groups caps) in
      (w : MapWorker) × (lookup u s.workers.workers ≡ some w)
      × (w.info.state ≡ idle)
      × ((f w.info || w.info.worker_uuid == []) ≡ true)
      × ((other : WorkerUuid) (o : MapWorker)
          → lookup other s.workers.workers ≡ some o
          → o.info.state ≡ idle
          → f o.info ≡ true
          → score w.info ≤ score o.info)
unfolding take_best matching_workers is_listed boruta.Sorter.new_worker_sorter
take_best-least ⦃std⦄ laws {s = s} v groups caps now u t h =
    let f = match_worker (new_workers groups caps) in
    let listed = select (is_listed (some f) [] true) (infos s.workers.workers) in
    let found = best_of max_int32 [] (std.sort_workers (less_worker by_uuid ascending) listed) in
    elim (Bool-cases (nat_beq found.0 max_int32)) [
      | inl none_found ↦ (let no = rw (none_found, take_best) at h in cc)
      | inr some_found ↦
          let same : u ≡ found.1 =
            bound_first u found.1 (set_state found.1 run now s) t
              (rw (some_found, take_best) at h) in
          elim (best-least laws v.workers_match f) [
            | inl none_found ↦ absurd (ground arith)
            | inr (w, e, listed_w, least) ↦ (
              w,
              ap (λ x. lookup x s.workers.workers) same ∙ e,
              ground arith,
              ground arith,
              λ other o eo ei fo. least other o eo (ground arith),
            )
          ]
    ]
