-- ===== src/Server/Ends.antt =====
-- The loops of the valid matcher end: their rounds are as many as the queue has requests.
use boruta.Common.{
  ℕ, zero, suc, ◌<◌, ◌≡◌, refl, sym, ap, subst, ◌∙◌, ◌⊎◌, inl, inr, Bool, true, false, Option, none,
  some, List, [], ◌∷◌, arith, length, nat_eq,
}
use boruta.Types.{ReqId, Result, ok, err, panic, blocked, ◌>>=◌, lo_prio, hi_prio}
use boruta.Std.{Std, SortLaws}
use boruta.Outcome.{Sound, returns, fails, waits}
use boruta.Queue.{Cursor}
use boruta.Queue.Counts.{total}
use boruta.Queue.Iterate.{IsLive, Taken, left, lanes_from, length-lanes_from}
use boruta.Requests.{ReqsCollection, init_iteration, terminate_iteration}
use boruta.Server.{Server}
use boruta.Server.Matching.{Round, try_request, iterate_loop, iterate_requests, notify_valid}
use boruta.Server.Invariant.{Inv}
use boruta.Server.Start.{Attempt, Returned}
use boruta.Server.Iterate.{
  moved, moved-Inv, next_request-Taken, try_request-Attempt, init_iteration-ok, begun-Inv,
  iterate_requests-Rounded, Rounded,
}

module _ ⦃std : Std⦄ where
  -- The servers on which the loop makes its attempts: the iterator has moved on from `s`, or from
  -- where an attempt with no match has ended.
  pub data Tried (r : Round) (s : Server) : Server → Type 0 where
    first : (n : Option Cursor) → Tried r s (moved s n)
    after :
        {t u : Server} (rid : ReqId) (n : Option Cursor)
        → Tried r s t
        → try_request rid r t ≡ ok (false, u)
        → Tried r s (moved u n)

  -- An attempt of the loop that starts at `s` waits, at a mutex or at a channel.
  abbrev pub LoopStuck : Round → Server → Type 0
  LoopStuck r s = (rid : ReqId) × (t : Server) × Tried r s t × (try_request rid r t ≡ blocked)

  -- An attempt of iterateRequests waits.
  abbrev pub Stuck : Round → Server → Type 0
  Stuck r s =
      (c : ReqsCollection) × (init_iteration s.reqs ≡ ok c) × LoopStuck r (record s { reqs = c })

  -- An attempt of one of the rounds waits, after rounds that ended with a match.
  abbrev pub AnyStuck : List Round → Server → Type 0
  AnyStuck [] s = ⊥
  AnyStuck (r ∷ rs) s =
      Stuck r s ⊎ ((t : Server) × (iterate_requests r s ≡ ok (true, t)) × AnyStuck rs t)

  -- The rest of a round, after an attempt.
  Attempt-blocked :
      (r : Round) (s₀ : Server) (rid : ReqId) (s : Server) (m : Result (Bool × Server))
      (f : Server → Result (Bool × Server))
      → Tried r s₀ s
      → try_request rid r s ≡ m
      → Sound (Attempt s) m
      → ((t : Server)
          → Returned true s t
          → try_request rid r s ≡ ok (false, t)
          → f t ≡ blocked
          → LoopStuck r s₀)
      → (m >>= λ (matched, t). elim matched [ true ↦ ok (true, t) | false ↦ f t ]) ≡ blocked
      → LoopStuck r s₀
  Attempt-blocked r s₀ rid s m f w e (returns {a = (true, t)} p) k h = cc
  Attempt-blocked r s₀ rid s m f w e (returns {a = (false, t)} p) k h = k t p e h
  Attempt-blocked r s₀ rid s m f w e fails k h = cc
  Attempt-blocked r s₀ rid s m f w e waits k h = (rid, s, w, e)

module _ ⦃std : Std⦄ (laws : SortLaws std) where
  rest_blocked :
      (k : ℕ) (r : Round) (s₀ s : Server) (id : Option ReqId) (n : Option Cursor)
      → Tried r s₀ (moved s n)
      → Inv true (moved s n)
      → Taken s.reqs.queue id n
      → ((t : Server)
          → Inv true t
          → ((n : Option Cursor) → Tried r s₀ (moved t n))
          → IsLive t.reqs.queue.next_fn t.reqs.queue.lane
          → suc (length (left t.reqs.queue.next_fn t.reqs.queue.lane))
            ≡ length (left s.reqs.queue.next_fn s.reqs.queue.lane)
          → iterate_loop k r t ≡ blocked
          → LoopStuck r s₀)
      → (elim id as (λ _. Result (Bool × Server)) [
        | none ↦ ok (false, moved s n)
        | some rid ↦ try_request rid r (moved s n) >>= λ (matched, t). elim matched [
          | true ↦ ok (true, t)
          | false ↦ iterate_loop k r t
        ]
      ])
        ≡ blocked
      → LoopStuck r s₀
  rest_blocked k r s₀ s none n w v taken again h = cc
  rest_blocked k r s₀ s (some rid) n w v (taken, live, _) again h =
      Attempt-blocked r s₀ rid (moved s n) (try_request rid r (moved s n)) (iterate_loop k r) w refl
        (try_request-Attempt laws v rid r)
        (λ t back e b.
          again t back.0 (λ m. after rid m w e)
            (subst (λ q. IsLive q.next_fn q.lane) (sym back.1) live)
            (ap (λ q. suc (length (left q.next_fn q.lane))) back.1 ∙ ap length (sym taken)) b)
        h

  iterate_loop-Stuck :
      (k : ℕ) (r : Round) (s₀ s : Server)
      → Inv true s
      → ((n : Option Cursor) → Tried r s₀ (moved s n))
      → IsLive s.reqs.queue.next_fn s.reqs.queue.lane
      → length (left s.reqs.queue.next_fn s.reqs.queue.lane) < k
      → iterate_loop k r s ≡ blocked
      → LoopStuck r s₀
  unfolding iterate_loop
  iterate_loop-Stuck zero r s₀ s v w live less h = absurd (omega arith)
  iterate_loop-Stuck (suc k) r s₀ s v w live less h =
      let (id, n, e, taken) = next_request-Taken v live in
      rest_blocked k r s₀ s id n (w n) (moved-Inv v n) taken
        (λ t y x still one. iterate_loop-Stuck k r s₀ t y x still (omega (arith, one)))
        (rw (e, iterate_loop) at h)

  bound_blocked :
      (m : Result (Bool × Server))
      → let end : Bool × Server → Result (Bool × Server) =
          λ res. ok (res.0, record (res.1) { reqs = terminate_iteration res.1.reqs }) in
        (m >>= end) ≡ blocked → m ≡ blocked
  bound_blocked (ok a) h = cc
  bound_blocked (err e) h = cc
  bound_blocked panic h = cc
  bound_blocked blocked h = refl

  -- If iterateRequests waits, an attempt of its loop waits.
  iterate_requests-Stuck :
      (r : Round) (s : Server) → Inv false s → iterate_requests r s ≡ blocked → Stuck r s
  unfolding iterate_requests lanes_from total
  iterate_requests-Stuck r s v h =
      let q = record (s.reqs.queue) {
        next_fn = some (record { p = hi_prio; e = s.reqs.queue.lane hi_prio });
      } in
      let c = record (s.reqs) { queue = q; iterating = true } in
      let t = record s { reqs = c } in
      (
        c,
        init_iteration-ok laws v,
        iterate_loop-Stuck (suc s.reqs.queue.size) r t t (begun-Inv laws v q refl refl)
            (λ n. first n) (omega arith, omega arith, omega arith)
            (omega
              (arith, v.reqs_held.consistent.sized, length-lanes_from lo_prio 0 s.reqs.queue.lane))
            (bound_blocked _ (rw (init_iteration-ok laws v, iterate_requests) at h)),
      )

  round_blocked :
      (r : Round) (rs : List Round) (s : Server) (m : Result (Bool × Server))
      → iterate_requests r s ≡ m
      → Inv false s
      → Sound (Rounded s) m
      → ((t : Server)
          → Inv false t
          → suc t.reqs.queue.size ≡ s.reqs.queue.size
          → notify_valid rs t ≡ blocked
          → AnyStuck rs t)
      → (m >>= λ (again, t). elim again [ true ↦ notify_valid rs t | false ↦ ok t ]) ≡ blocked
      → AnyStuck (r ∷ rs) s
  round_blocked r rs s m e v (returns {a = (true, t)} p) k h = inr (t, e, k t p.0 p.1 h)
  round_blocked r rs s m e v (returns {a = (false, t)} p) k h = cc
  round_blocked r rs s m e v fails k h = cc
  round_blocked r rs s m e v waits k h = inl (iterate_requests-Stuck r s v e)

  -- If sort.Sort permutes the workers it is given, the server has the invariant and there are more
  -- rounds than requests in the queue, then Notify of the valid matcher fails to return only if an
  -- attempt of one of its rounds, on a server that rounds with a match have left, waits itself at
  -- a mutex or a channel.
  pub notify_valid-Stuck :
      (rs : List Round) (s : Server)
      → Inv false s
      → s.reqs.queue.size < length rs
      → notify_valid rs s ≡ blocked
      → AnyStuck rs s
  unfolding notify_valid
  notify_valid-Stuck [] s v less h = absurd (omega arith)
  notify_valid-Stuck (r ∷ rs) s v less h =
      round_blocked r rs s (iterate_requests r s) refl v (iterate_requests-Rounded laws r s v)
        (λ t w one. notify_valid-Stuck rs t w (omega (arith, one))) h
