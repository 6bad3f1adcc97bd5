-- ===== src/Server/Served.antt =====
-- Where nothing is waited for, Notify of the valid matcher returns and leaves no request that it could
-- have served.
use boruta.Common.{
  ℕ, zero, suc, ◌+◌, ◌≤◌, ◌<◌, ◌≡◌, refl, ap, subst, ◌∙◌, ◌⊎◌, inl, inr, true, false, Option, none,
  some, List, [], ◌∷◌, ◌++◌, arith, nat_eq, count, count-append, length, Mem, All, Bool-cases,
  nat_beq,
}
use mathlib.Core.List.{mem-cons, mem-cons_self}
use boruta.Types.{ReqId, wait, Priority, hi_prio, lo_prio, ok}
use boruta.Std.{Std, SortLaws}
use mathlib.Core.Logic.Or
use boruta.Outcome.{Sound-ok}
use boruta.Queue.{PrioQueue, Cursor}
use boruta.Queue.Counts.{total}
use boruta.Queue.Iterate.{IsLive, Taken, left, lanes_from, length-lanes_from}
use boruta.Requests.Consistent.{IsEntry, waiting-count}
use boruta.Requests.{ReqsCollection, next_request, verify_if_ready, terminate_iteration}
use boruta.Server.{Server}
use boruta.Server.Matching.{Round, try_request, iterate_loop, iterate_requests, notify_valid}
use boruta.Server.Invariant.{Inv}
use boruta.Server.Iterate.{
  moved, moved-Inv, next_request-Taken, init_iteration-ok, begun-Inv, iterate_requests-Rounded,
}
use boruta.Server.Room.{HasRoom}
use boruta.Server.Progress.{HasTunnels, CanServe, try_request-cases}

-- Each element of a lane is among those of the lanes.
count-lanes_from :
    (n : ℕ) (lane : Priority → List ReqId) (p q : Priority) (id : ReqId)
    → p ≤ q
    → q < p + n
    → count id (lane q) ≤ count id (lanes_from n lane p)
unfolding lanes_from
count-lanes_from zero lane p q id h k = absurd (omega arith)
count-lanes_from (suc n) lane p q id h k = elim (Bool-cases (nat_beq p q)) [
  | inl e ↦
      let same : p ≡ q = ground arith in
      subst (λ x. count id (lane x) ≤ count id (lane p ++ lanes_from n lane (suc p))) same
        (omega (arith, count-append id (lane p) (lanes_from n lane (suc p))))
  | inr e ↦ omega (
    arith,
    count-append id (lane p) (lanes_from n lane (suc p)),
    count-lanes_from n lane (suc p) q id (ground arith) (omega arith),
  )
]

-- The place of the iterator matters to none of this.
moved-HasRoom : {s : Server} (n : Option Cursor) → HasRoom s → HasRoom (moved s n)
moved-HasRoom n h = record { room = h.room; timeouts = h.timeouts }

moved-CanServe :
    {r : Round} {s : Server} {rid : ReqId} (n : Option Cursor)
    → CanServe r s rid
    → CanServe r (moved s n) rid
unfolding verify_if_ready
moved-CanServe n c = record {
  req = c.req;
  known = c.known;
  is_ready = c.is_ready;
  uuid = c.uuid;
  worker = c.worker;
  fits = record {
    known = c.fits.known;
    is_idle = c.fits.is_idle;
    matches = c.fits.matches;
    below = c.fits.below;
  };
}

module _ ⦃std : Std⦄ (laws : SortLaws std) (r : Round) (tunnels : HasTunnels r) where
  -- How the loop ends: with a match, or with nothing served and nothing in what was left that could be.
  abbrev Looped : ℕ → Server → Type 0
  Looped k s =
      ((t : Server) × (iterate_loop k r s ≡ ok (true, t)) × HasRoom t)
      ⊎ ((n : Option Cursor) × (iterate_loop k r s ≡ ok (false, moved s n))
          × ((rid : ReqId)
              → 0 < count rid (left s.reqs.queue.next_fn s.reqs.queue.lane)
              → CanServe r s rid
              → ⊥))

  loop_after :
      (k : ℕ) (s : Server) (x : ReqId) (n : Option Cursor)
      → next_request s.reqs ≡ ok (some x, (moved s n).reqs)
      → left s.reqs.queue.next_fn s.reqs.queue.lane ≡ x ∷ left n s.reqs.queue.lane
      → try_request x r (moved s n) ≡ ok (false, moved s n)
      → (CanServe r (moved s n) x → ⊥)
      → Looped k (moved s n)
      → Looped (suc k) s
  unfolding iterate_loop count
  loop_after k s x n e taken same cannot (inl (t, et, room)) =
      inl (t, rw (e, iterate_loop, same) et, room)
  loop_after k s x n e taken same cannot (inr (m, em, nothing)) = inr (
    m,
    rw (e, iterate_loop, same) em,
    λ rid pos c. elim (Bool-cases (nat_beq x rid)) [
      | inl this ↦
          (let one : rid ≡ x = ground arith in
            cannot (subst (CanServe r (moved s n)) one (moved-CanServe n c)))
      | inr other ↦
          nothing rid (ground (arith, ap (count rid) taken, pos, other)) (moved-CanServe n c)
    ],
  )

  loop_step :
      (k : ℕ) (s : Server) (id : Option ReqId) (n : Option Cursor)
      → next_request s.reqs ≡ ok (id, (moved s n).reqs)
      → Taken s.reqs.queue id n
      → Inv true (moved s n)
      → HasRoom (moved s n)
      → length (left s.reqs.queue.next_fn s.reqs.queue.lane) < suc k
      → (IsLive n s.reqs.queue.lane → length (left n s.reqs.queue.lane) < k → Looped k (moved s n))
      → Looped (suc k) s
  unfolding iterate_loop count
  loop_step k s none n e gone v h less again =
      inr (
        n,
        rw (e, iterate_loop) refl,
        λ rid pos c. absurd (omega (arith, pos, ap (count rid) gone)),
      )
  loop_step k s (some x) n e (taken, live, _) v h less again =
      elim (try_request-cases laws v h r tunnels x) [
        | inr (t, served, room) ↦ inl (t, rw (e, iterate_loop, served) refl, room)
        | inl (same, cannot) ↦
            loop_after k s x n e taken same cannot
              (again live (omega (arith, less, ap length taken)))
      ]

  iterate_loop-Looped :
      (k : ℕ) (s : Server)
      → Inv true s
      → HasRoom s
      → IsLive s.reqs.queue.next_fn s.reqs.queue.lane
      → length (left s.reqs.queue.next_fn s.reqs.queue.lane) < k
      → Looped k s
  unfolding iterate_loop
  iterate_loop-Looped zero s v h live less = absurd (omega arith)
  iterate_loop-Looped (suc k) s v h live less =
      let (id, n, e, taken) = next_request-Taken v live in
      loop_step k s id n e taken (moved-Inv v n) (moved-HasRoom n h) less (λ still fewer.
        iterate_loop-Looped k (moved s n) (moved-Inv v n) (moved-HasRoom n h) still fewer)

terminate-timeouts :
    (c : ReqsCollection)
    → (terminate_iteration c).timeout_times.is_locked ≡ c.timeout_times.is_locked
unfolding terminate_iteration
terminate-timeouts c = ground arith

-- What the end of an iteration leaves could be served before.
begun-CanServe :
    {r : Round} (s : Server) (q : PrioQueue) {rid : ReqId} (n : Option Cursor)
    → let b = record s { reqs = record (s.reqs) { queue = q; iterating = true } } in
      CanServe r (record (moved b n) { reqs = terminate_iteration (moved b n).reqs }) rid
      → CanServe r b rid
unfolding verify_if_ready terminate_iteration
begun-CanServe s q n c = record {
  req = c.req;
  known = c.known;
  is_ready = c.is_ready;
  uuid = c.uuid;
  worker = c.worker;
  fits = record {
    known = c.fits.known;
    is_idle = c.fits.is_idle;
    matches = c.fits.matches;
    below = c.fits.below;
  };
}

waits-count :
    {r : Round} {s : Server} {rid : ReqId} (v : Inv true s) (c : CanServe r s rid)
    → 0 < count rid (lanes_from lo_prio s.reqs.queue.lane hi_prio)
unfolding verify_if_ready
waits-count {s = s} {rid} v c =
    let held = v.reqs_held.consistent in
    let entry : IsEntry rid (some c.req) = subst (IsEntry rid) c.known (held.entries rid) in
    let ready = rw (c.known, verify_if_ready) at c.is_ready in
    let ew : c.req.state ≡ wait = ground arith in
    omega (
      arith,
      waiting-count held rid c.req c.known ew,
      entry.1,
      entry.2,
      count-lanes_from lo_prio s.reqs.queue.lane hi_prio c.req.priority rid (omega (arith, entry.1))
          (omega (arith, entry.2)),
    )

module _ ⦃std : Std⦄ (laws : SortLaws std) where
  -- How a round ends: with a match, or with nothing that it could serve.
  abbrev RoundEnds : Round → Server → Type 0
  RoundEnds r s =
      ((t : Server) × (iterate_requests r s ≡ ok (true, t)) × HasRoom t)
      ⊎ ((t : Server) × (iterate_requests r s ≡ ok (false, t))
          × ((rid : ReqId) → CanServe r t rid → ⊥))

  iterate_requests-cases :
      (r : Round) (s : Server) → Inv false s → HasRoom s → HasTunnels r → RoundEnds r s
  unfolding iterate_requests terminate_iteration lanes_from total
  iterate_requests-cases r s v h tunnels =
      let q = record (s.reqs.queue) {
        next_fn = some (record { p = hi_prio; e = s.reqs.queue.lane hi_prio });
      } in
      let b = record s { reqs = record (s.reqs) { queue = q; iterating = true } } in
      let w = begun-Inv laws v q refl refl in
      let started = init_iteration-ok laws v in
      elim (iterate_loop-Looped laws r tunnels (suc s.reqs.queue.size) b w
        (record { room = h.room; timeouts = h.timeouts }) (omega arith, omega arith, omega arith)
        (omega
          (arith, v.reqs_held.consistent.sized, length-lanes_from lo_prio 0 s.reqs.queue.lane))) [
            | inl (t, e, room) ↦ inl (
              record t { reqs = terminate_iteration t.reqs },
              rw (started, iterate_requests, e) refl,
              record { room = room.room; timeouts = terminate-timeouts t.reqs ∙ room.timeouts },
            )
            | inr (n, e, nothing) ↦ inr (
              record (moved b n) { reqs = terminate_iteration (moved b n).reqs },
              rw (started, iterate_requests, e) refl,
              λ rid c.
                  nothing rid (waits-count w (begun-CanServe s q n c)) (begun-CanServe s q n c),
            )
          ]

  -- If sort.Sort permutes the workers it is given, the server has the invariant, the channels of
  -- its idle workers have room, the times of timeouts are free, each request of each round gets
  -- its tunnel, and there are more rounds than requests in the queue, then Notify of the valid
  -- matcher returns a server that has the invariant, and at one of the rounds no request is left
  -- there that waits, is due at the time of the round, and has an idle worker that fits it: one
  -- that its groups and capabilities match, with a score below that which stands for none.
  pub notify_valid-serves :
      (rs : List Round) (s : Server)
      → Inv false s
      → HasRoom s
      → All HasTunnels rs
      → s.reqs.queue.size < length rs
      → (t : Server) × (notify_valid rs s ≡ ok t)
        × Inv false t
        × (r : Round) × Mem r rs
        × ((rid : ReqId) → CanServe r t rid → ⊥)
  unfolding notify_valid
  notify_valid-serves [] s v h tunnels less = absurd (omega arith)
  notify_valid-serves (r ∷ rs) s v h tunnels less =
      let rounded = iterate_requests-Rounded laws r s v in
      elim (iterate_requests-cases r s v h tunnels.0) [
        | inl (t, e, room) ↦
            let (inv, one) = Sound-ok (true, t) rounded e in
            let (u, eu, after, last, member, nothing) =
              notify_valid-serves rs t inv room tunnels.1 (omega (arith, less, one)) in
            (u, rw (e, notify_valid) eu, after, last, mem-cons.1 (Or.inr member), nothing)
        | inr (t, e, nothing) ↦
            (t, rw (e, notify_valid) refl, Sound-ok (false, t) rounded e, r, mem-cons_self, nothing)
      ]
