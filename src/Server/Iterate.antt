-- ===== src/Server/Iterate.antt =====
-- The iteration of the valid matcher, matcher/validmatcher.go.
use boruta.Common.{
  ℕ, zero, suc, ◌≡◌, refl, sym, ap, subst, ◌∙◌, Bool, true, false, not, ◌&&◌, Option, none, some,
  List, [], ◌∷◌, arith, nat_eq, ◌==◌, lookup, inl, inr, Option-cases, ltb, count,
}
use boruta.Types.{
  ReqId, wait, req_state_eq, ReqInfo, Result, ok, err, panic, blocked, ◌>>=◌, hi_prio, lo_prio,
}
use boruta.Std.{Std, SortLaws}
use boruta.Outcome.{Sound, returns, fails, waits, Sound-bind, Sound-map, Sound-if}
use boruta.Queue.{PrioQueue, Cursor, release_iterator, init_iterator}
use boruta.Queue.Counts.{total}
use boruta.Queue.Iterate.{next-Taken, IsLive, Taken}
use boruta.Requests.{
  verify_if_ready, get_request, find_request, next_request, init_iteration, terminate_iteration,
}
use boruta.Requests.Consistent.{IsEntry}
use boruta.Server.{Server}
use boruta.Server.Matching.{
  Round, match_workers, try_request, iterate_loop, iterate_requests, notify_valid,
}
use boruta.Server.Invariant.{Inv}
use boruta.Server.Match.{take_best-Picked}
use boruta.Server.Start.{Attempt, start_job-Attempt}

-- A rule for the error of TakeBestMatchingWorker, which is no match.
Sound-pick :
    {A : Type 0} {P : A → Type 0} {Q : Bool × Server → Type 0} (s : Server) {m : Result A}
    {f : A → Result (Bool × Server)}
    → Q (false, s)
    → Sound P m
    → ((a : A) → P a → Sound Q (f a))
    → Sound Q (elim m as (λ _. Result (Bool × Server)) [
      | err e ↦ ok (false, s)
      | panic ↦ panic
      | blocked ↦ blocked
      | ok a ↦ f a
    ])
Sound-pick s q (returns p) k = k _ p
Sound-pick s q fails k = returns q
Sound-pick s q waits k = waits

module _ ⦃std : Std⦄ (laws : SortLaws std) where
  -- An attempt in the state that TakeBestMatchingWorker leaves is one in the state before.
  Attempt-Picked :
      (s t : Server) (r : Bool × Server) → t.reqs.queue ≡ s.reqs.queue → Attempt t r → Attempt s r
  Attempt-Picked s t (true, u) e (inv, less) = (inv, less ∙ ap (λ q. q.size) e)
  Attempt-Picked s t (false, u) e (inv, same) = (inv, same ∙ e)

  match_workers-Attempt :
      {s : Server} (v : Inv true s) (req : ReqInfo)
      → lookup req.id s.reqs.requests ≡ some req
      → req.state ≡ wait
      → (r : Round) → Sound (Attempt s) (match_workers req r s)
  unfolding match_workers
  match_workers-Attempt {s} v req e ew r =
      Sound-pick s (v, refl) (take_best-Picked v laws req.owner.groups req.caps r.idle_now)
        λ (worker, t) picked.
          Sound-map
            (start_job-Attempt picked.inv req.id req (ap (lookup req.id) picked.requests ∙ e) ew
              worker picked.worker picked.found picked.runs picked.free r)
            λ u attempt. Attempt-Picked s t u picked.queue attempt

  pub try_request-Attempt :
      {s : Server} (v : Inv true s) (rid : ReqId) (r : Round)
      → Sound (Attempt s) (try_request rid r s)
  unfolding try_request verify_if_ready get_request find_request
  try_request-Attempt {s} v rid r = elim (Option-cases (lookup rid s.reqs.requests)) [
    | inl e ↦ rw (e, try_request, verify_if_ready) (returns (v, refl))
    | inr (req, e) ↦
        let entry : IsEntry rid (some req) =
          subst (IsEntry rid) e (v.reqs_held.consistent.entries rid) in
        rw (e, try_request, verify_if_ready)
          (Sound-if
            (not ((req.state == wait) && ltb r.now req.deadline && not (ltb r.now req.valid_after)))
            (λ _. returns (v, refl))
            (λ h.
              match_workers-Attempt v req (ap (λ i. lookup i s.reqs.requests) entry.0 ∙ e)
                (ground arith) r))
  ]

-- What a round leaves: after a match, a queue with one request less.
abbrev pub Rounded : Server → Bool × Server → Type 0
Rounded s (true, t) = Inv false t × (suc t.reqs.queue.size ≡ s.reqs.queue.size)
Rounded s (false, t) = Inv false t

-- The server, with a new place for the iterator.
abbrev pub moved : Server → Option Cursor → Server
moved s n = record s { reqs = record (s.reqs) { queue = record (s.reqs.queue) { next_fn = n } } }

pub moved-Inv : {s : Server} (v : Inv true s) (n : Option Cursor) → Inv true (moved s n)
moved-Inv v n =
    let w = v.reqs_held.consistent in
    record {
      reqs_held = record {
        consistent = record {
          counts = w.counts;
          entries = w.entries;
          given = w.given;
          sized = w.sized;
        };
        held = λ e. ground (arith, v.phase);
      };
      phase = v.phase;
      jobs_match = v.jobs_match;
      workers_match = v.workers_match;
      listens = v.listens;
    }

-- What the loop leaves: a match, or the queue with as many requests.
abbrev Iterated : Server → Bool × Server → Type 0
Iterated s (true, t) = Inv false t × (suc t.reqs.queue.size ≡ s.reqs.queue.size)
Iterated s (false, t) = Inv true t

pub next_request-Taken :
    {s : Server} (v : Inv true s)
    → IsLive s.reqs.queue.next_fn s.reqs.queue.lane
    → (id : Option ReqId) × (n : Option Cursor) × (next_request s.reqs ≡ ok (id, (moved s n).reqs))
      × Taken s.reqs.queue id n
unfolding next_request
next_request-Taken {s} v live =
    let (id, n, e, taken) = next-Taken s.reqs.queue live v.reqs_held.consistent.sized in
    (id, n, ground (arith, v.phase, e), taken)

Iterated-same :
    (s t : Server) (r : Bool × Server)
    → t.reqs.queue.size ≡ s.reqs.queue.size
    → Iterated t r
    → Iterated s r
Iterated-same s t (true, u) e (inv, less) = (inv, less ∙ e)
Iterated-same s t (false, u) e inv = inv

module _ ⦃std : Std⦄ (laws : SortLaws std) where
  iterate_after :
      (k : ℕ) (r : Round) (s : Server) (n : Option Cursor) (res : Bool × Server)
      → Attempt (moved s n) res
      → IsLive n s.reqs.queue.lane
      → ((t : Server)
          → Inv true t
          → t.reqs.queue ≡ (moved s n).reqs.queue
          → IsLive n s.reqs.queue.lane
          → Sound (Iterated s) (iterate_loop k r t))
      → Sound (Iterated s) (elim res.0 as (λ _. Result (Bool × Server)) [
        | true ↦ ok (true, res.1)
        | false ↦ iterate_loop k r res.1
      ])
  iterate_after k r s n (true, t) after live again = returns after
  iterate_after k r s n (false, t) after live again = again t after.0 after.1 live

  iterate_rest :
      (k : ℕ) (r : Round) (s : Server) (id : Option ReqId) (n : Option Cursor)
      → Inv true (moved s n)
      → Taken s.reqs.queue id n
      → ((t : Server)
          → Inv true t
          → t.reqs.queue ≡ (moved s n).reqs.queue
          → IsLive n s.reqs.queue.lane
          → Sound (Iterated s) (iterate_loop k r t))
      → Sound (Iterated s) (elim id as (λ _. Result (Bool × Server)) [
        | none ↦ ok (false, moved s n)
        | some rid ↦ try_request rid r (moved s n) >>= λ (matched, t). elim matched [
          | true ↦ ok (true, t)
          | false ↦ iterate_loop k r t
        ]
      ])
  iterate_rest k r s none n v taken again = returns v
  iterate_rest k r s (some rid) n v (taken, live, _) again =
      Sound-bind (try_request-Attempt laws v rid r)
        λ res _ after. iterate_after k r s n res after live again

  iterate_loop-Iterated :
      (k : ℕ) (r : Round) (s : Server)
      → Inv true s
      → IsLive s.reqs.queue.next_fn s.reqs.queue.lane
      → Sound (Iterated s) (iterate_loop k r s)
  unfolding iterate_loop
  iterate_loop-Iterated zero r s v live = waits
  iterate_loop-Iterated (suc k) r s v live =
      let (id, n, e, taken) = next_request-Taken v live in
      rw (e, iterate_loop)
        (iterate_rest k r s id n (moved-Inv v n) taken (λ t w same still.
          Sound-map
            (iterate_loop-Iterated k r t w (subst (λ q. IsLive q.next_fn q.lane) (sym same) still))
            (λ res. Iterated-same s t res (ap (λ q. q.size) same))))

  pub init_iteration-ok :
      {s : Server} (v : Inv false s)
      → let q = record (s.reqs.queue) {
        next_fn = some (record { p = hi_prio; e = s.reqs.queue.lane hi_prio });
      } in
        init_iteration s.reqs ≡ ok (record (s.reqs) { queue = q; iterating = true })
  unfolding init_iteration init_iterator
  init_iteration-ok v = ground (arith, v.phase, v.reqs_held.held v.phase)

  pub begun-Inv :
      {s : Server} (v : Inv false s) (q : PrioQueue)
      → q.lane ≡ s.reqs.queue.lane
      → q.size ≡ s.reqs.queue.size
      → Inv true (record s { reqs = record (s.reqs) { queue = q; iterating = true } })
  begun-Inv v q e z =
      let w = v.reqs_held.consistent in
      record {
        reqs_held = record {
          consistent = record {
            counts = λ id p. ap (λ l. count id (l p)) e ∙ w.counts id p;
            entries = w.entries;
            given = w.given;
            sized = z ∙ w.sized ∙ ap (total lo_prio) (sym e);
          };
          held = λ h. cc;
        };
        phase = refl;
        jobs_match = v.jobs_match;
        workers_match = v.workers_match;
        listens = v.listens;
      }

  ended-Rounded :
      (s : Server) (res : Bool × Server)
      → Iterated s res
      → Rounded s (res.0, record (res.1) { reqs = terminate_iteration res.1.reqs })
  unfolding terminate_iteration release_iterator
  ended-Rounded s (true, t) (inv, less) =
      let same : terminate_iteration t.reqs ≡ t.reqs = rw (inv.phase, terminate_iteration) refl in
      rw same (inv, less)
  ended-Rounded s (false, t) inv =
      let w = inv.reqs_held.consistent in
      let freed : terminate_iteration t.reqs
          ≡ record (t.reqs) { queue = release_iterator t.reqs.queue; iterating = false } =
        rw (inv.phase, terminate_iteration) refl in
      rw freed (record {
        reqs_held = record {
          consistent = record {
            counts = w.counts;
            entries = w.entries;
            given = w.given;
            sized = w.sized;
          };
          held = λ _. refl;
        };
        phase = refl;
        jobs_match = inv.jobs_match;
        workers_match = inv.workers_match;
        listens = inv.listens;
      })

  pub iterate_requests-Rounded :
      (r : Round) (s : Server) → Inv false s → Sound (Rounded s) (iterate_requests r s)
  unfolding iterate_requests
  iterate_requests-Rounded r s v =
      let q = record (s.reqs.queue) {
        next_fn = some (record { p = hi_prio; e = s.reqs.queue.lane hi_prio });
      } in
      let t = record s { reqs = record (s.reqs) { queue = q; iterating = true } } in
      rw (init_iteration-ok v, iterate_requests)
        (Sound-bind
          (iterate_loop-Iterated (suc s.reqs.queue.size) r t (begun-Inv v q refl refl)
            (omega arith, omega arith, omega arith))
          λ res _ after. returns (ended-Rounded s res after))

  notify_after :
      (rs : List Round) (s : Server) (res : Bool × Server)
      → Rounded s res
      → ((t : Server) → Inv false t → Sound (Inv false) (notify_valid rs t))
      → Sound
          (Inv false)
          (elim res.0 as (λ _. Result Server) [ true ↦ notify_valid rs res.1 | false ↦ ok res.1 ])
  notify_after rs s (true, t) after again = again t after.0
  notify_after rs s (false, t) after again = returns after

  pub notify_valid-Inv :
      (rs : List Round) (s : Server) → Inv false s → Sound (Inv false) (notify_valid rs s)
  unfolding notify_valid
  notify_valid-Inv [] s v = waits
  notify_valid-Inv (r ∷ rs) s v =
      Sound-bind (iterate_requests-Rounded r s v)
        λ res _ after. notify_after rs s res after (λ t w. notify_valid-Inv rs t w)
