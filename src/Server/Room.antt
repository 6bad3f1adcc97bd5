-- ===== src/Server/Room.antt =====
-- A server on which an attempt to serve a request waits for nothing: what TakeBestMatchingWorker and
-- what follows a match return there.
use boruta.Common.{
  ◌<◌, ◌≡◌, refl, ◌⊎◌, Bool, true, false, some, List, [], arith, nat_eq, text_eq, lookup, insert,
  lookup-insert, inl, inr, length, Text, select, All-perm, All-implies, leb, nat_beq, Bool-cases,
}
use mathlib.Core.List.Perm
use boruta.Types.{
  WorkerUuid, idle, run, worker_state_eq, Time, Capabilities, ok, err, no_matching_worker,
}
use boruta.Std.{Std, SortLaws}
use boruta.Outcome.{Sound-ok}
use boruta.Workers.{
  MapWorker, infos, is_listed, best_of, max_int32, score, matching_workers, store_worker,
  find_worker,
}
use boruta.Workers.Best.{best_of-least}
use boruta.Filter.{match_worker, new_workers}
use boruta.Sorter.{less_worker, by_uuid}
use boruta.Lists.{ascending}
use boruta.Server.{Server, set_state, buffer_size, send, notify_listener, tell_idle, tell_fail}
use boruta.Server.Matching.{take_best}
use boruta.Server.Invariant.{Inv}
use boruta.Server.Match.{Picked, pick-Picked}
use boruta.Server.Best.{best-least, listed-least}
use boruta.Server.States.{sent_worker}

-- The channels of the workers that are idle have room, and the times of timeouts are free.
pub record HasRoom (s : Server) : Type 0 where
  pub room :
      (uuid : WorkerUuid) (w : MapWorker)
      → lookup uuid s.workers.workers ≡ some w
      → w.info.state ≡ idle
      → length w.background_operation < buffer_size
  pub timeouts : s.reqs.timeout_times.is_locked ≡ false

-- A worker for a request: it is idle, the filter of the request matches it, and its score is below that
-- which stands for none.
pub record Fits (groups : List Text) (caps : Capabilities) (s : Server) (uuid : WorkerUuid)
    (w : MapWorker) : Type 0 where
  pub known : lookup uuid s.workers.workers ≡ some w
  pub is_idle : w.info.state ≡ idle
  pub matches : match_worker (new_workers groups caps) w.info ≡ true
  pub below : score w.info < max_int32

abbrev pub picked_server : WorkerUuid → MapWorker → Server → Server
picked_server uuid w s = record s {
  workers = record (s.workers) { workers = insert uuid (sent_worker w run) s.workers.workers };
}

module _ ⦃std : Std⦄ {b : Bool} {s : Server} (v : Inv b s) (h : HasRoom s) where
  set_state-run :
      (uuid : WorkerUuid) (now : Time) (w : MapWorker)
      → lookup uuid s.workers.workers ≡ some w
      → w.info.state ≡ idle
      → set_state uuid run now s ≡ ok (picked_server uuid w s)
  unfolding set_state find_worker store_worker send notify_listener tell_idle tell_fail
  set_state-run uuid now w e ei =
      let small = h.room uuid w e ei in rw (e, set_state, find_worker) (ground (arith, small, ei))

  picked-HasRoom : (uuid : WorkerUuid) (w : MapWorker) → HasRoom (picked_server uuid w s)
  picked-HasRoom uuid w = record {
    room = λ u x e ei.
        ground (arith, lookup-insert uuid u (sent_worker w run) s.workers.workers, h.room u x);
    timeouts = h.timeouts;
  }

  -- No worker fits.
  abbrev pub NoneFits : List Text → Capabilities → Type 0
  NoneFits groups caps = (uuid : WorkerUuid) (w : MapWorker) → ¬ Fits groups caps s uuid w

  none-Fits :
      (laws : SortLaws std) (groups : List Text) (caps : Capabilities)
      → let f = match_worker (new_workers groups caps) in
        let listed = select (is_listed (some f) [] true) (infos s.workers.workers) in
        nat_beq
            (best_of max_int32 [] (std.sort_workers (less_worker by_uuid ascending) listed)).0
            max_int32
          ≡ true
        → NoneFits groups caps
  unfolding is_listed
  none-Fits laws groups caps none_found uuid w fits =
      let f = match_worker (new_workers groups caps) in
      let listed = select (is_listed (some f) [] true) (infos s.workers.workers) in
      let less = less_worker by_uuid ascending in
      let sorted = std.sort_workers less listed in
      let found = best_of max_int32 [] sorted in
      let least = (best_of-least max_int32 [] sorted found.0 refl).1 in
      let below =
        All-perm (λ i. leb found.0 (score i)) listed sorted
          (Perm.symm (laws.sort_workers_perm less listed))
          (All-implies sorted (λ i h. ground arith) least) in
      let here : is_listed (some f) [] true w.info ≡ true =
        ground (arith, fits.matches, fits.is_idle) in
      let bound = listed-least v.workers_match f found.0 below uuid w fits.known here in
      absurd (ground (arith, bound, fits.below))

  -- TakeBestMatchingWorker returns an error if no worker fits, and only then.
  pub take_best-cases :
      SortLaws std
      → (groups : List Text) (caps : Capabilities) (now : Time)
      → ((take_best groups caps now s ≡ err no_matching_worker) × NoneFits groups caps)
        ⊎ ((u : WorkerUuid) × (t : Server) × (take_best groups caps now s ≡ ok (u, t))
            × Picked b s (u, t)
            × HasRoom t)
  unfolding take_best matching_workers boruta.Sorter.new_worker_sorter
  take_best-cases laws groups caps now =
      let f = match_worker (new_workers groups caps) in
      let listed = select (is_listed (some f) [] true) (infos s.workers.workers) in
      let less = less_worker by_uuid ascending in
      let sorted = std.sort_workers less listed in
      let perm = laws.sort_workers_perm less listed in
      let found = best_of max_int32 [] sorted in
      elim (Bool-cases (nat_beq found.0 max_int32)) [
        | inl none_found ↦
            inl (rw (none_found, take_best) refl, none-Fits laws groups caps none_found)
        | inr some_found ↦ elim (best-least laws v.workers_match f) [
          | inl none_found ↦ absurd (ground arith)
          | inr (w, e, listed_w, _) ↦
              let ei : w.info.state ≡ idle = unfold is_listed in ground arith in
              let ran = set_state-run found.1 now w e ei in
              inr (
                found.1,
                picked_server found.1 w s,
                rw (some_found, take_best, ran) refl,
                Sound-ok _ (pick-Picked v found.1 now (rw e (ground (arith, ei)))) ran,
                picked-HasRoom found.1 w,
              )
        ]
      ]
