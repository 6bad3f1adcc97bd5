-- ===== src/Server/Follows/Iterate.antt =====
-- The states of requests, through the iteration of the valid matcher.
use boruta.Common.{
  ℕ, zero, suc, ◌≡◌, refl, sym, subst, Bool, Bool-cases, inl, inr, true, false, Option, none, some,
  List, [], ◌∷◌, arith, nat_eq, text_eq,
}
use boruta.Types.{ReqId, hi_prio, Result, ok, ◌>>=◌}
use boruta.Std.{Std, SortLaws}
use boruta.Outcome.{Every, gives, stays, Every-bind, Every-map, Sound-ok}
use boruta.Queue.{Cursor}
use boruta.Requests.{terminate_iteration}
use boruta.Requests.Leads.{Keeps, Leads-trans}
use boruta.Server.{Server}
use boruta.Server.Invariant.{Inv}
use boruta.Queue.Iterate.{IsLive, Taken}
use boruta.Server.Start.{Attempt}
use boruta.Server.Iterate.{
  moved, moved-Inv, try_request-Attempt, next_request-Taken, init_iteration-ok, begun-Inv,
  iterate_requests-Rounded, Rounded,
}
use boruta.Server.Matching.{Round, try_request, iterate_loop, iterate_requests, notify_valid}
use boruta.Server.Follows.{Follows, Follows-refl}
use boruta.Server.Follows.Match.{Matched, try_request-Every}

module _ ⦃std : Std⦄ (laws : SortLaws std) where
  after-Every :
      (k : ℕ) (r : Round) (s : Server) (n : Option Cursor) (res : Bool × Server)
      → Attempt (moved s n) res
      → IsLive n s.reqs.queue.lane
      → Matched s res
      → ((t : Server)
          → Inv true t
          → t.reqs.queue ≡ (moved s n).reqs.queue
          → IsLive n s.reqs.queue.lane
          → Every (Matched t) (iterate_loop k r t))
      → Every (Matched s) (elim res.0 as (λ _. Result (Bool × Server)) [
        | true ↦ ok (true, res.1)
        | false ↦ iterate_loop k r res.1
      ])
  after-Every k r s n (true, t) after live fin again = gives fin
  after-Every k r s n (false, t) after live fin again =
      Every-map (again t after.0 after.1 live) λ x l. Leads-trans fin l

  rest-Every :
      (k : ℕ) (r : Round) (s : Server) (id : Option ReqId) (n : Option Cursor)
      → Inv true (moved s n)
      → Taken s.reqs.queue id n
      → ((t : Server)
          → Inv true t
          → t.reqs.queue ≡ (moved s n).reqs.queue
          → IsLive n s.reqs.queue.lane
          → Every (Matched t) (iterate_loop k r t))
      → Every (Matched s) (elim id as (λ _. Result (Bool × Server)) [
        | none ↦ ok (false, moved s n)
        | some rid ↦ try_request rid r (moved s n) >>= λ (matched, t). elim matched [
          | true ↦ ok (true, t)
          | false ↦ iterate_loop k r t
        ]
      ])
  rest-Every k r s none n v taken again = gives (Follows-refl s)
  rest-Every k r s (some rid) n v (taken, live, _) again =
      Every-bind (try_request-Every (moved s n) v.jobs_match r rid) λ res e fin.
        after-Every k r s n res (Sound-ok res (try_request-Attempt laws v rid r) e) live fin again

  iterate_loop-Every :
      (k : ℕ) (r : Round) (s : Server)
      → Inv true s
      → IsLive s.reqs.queue.next_fn s.reqs.queue.lane
      → Every (Matched s) (iterate_loop k r s)
  unfolding iterate_loop
  iterate_loop-Every zero r s v live = stays
  iterate_loop-Every (suc k) r s v live =
      let (id, n, e, taken) = next_request-Taken v live in
      rw (e, iterate_loop)
        (rest-Every k r s id n (moved-Inv v n) taken (λ t w same still.
          iterate_loop-Every k r t w (subst (λ q. IsLive q.next_fn q.lane) (sym same) still)))

  terminated-requests : (s : Server) → Keeps s.reqs (terminate_iteration s.reqs)
  unfolding terminate_iteration
  terminated-requests s = elim (Bool-cases s.reqs.iterating) [
    | inl e ↦ rw e (Follows-refl s)
    | inr e ↦ rw e (Follows-refl s)
  ]

  iterate_requests-Every :
      (r : Round) (s : Server) → Inv false s → Every (Matched s) (iterate_requests r s)
  unfolding iterate_requests
  iterate_requests-Every r s v =
      let q = record (s.reqs.queue) {
        next_fn = some (record { p = hi_prio; e = s.reqs.queue.lane hi_prio });
      } in
      let t = record s { reqs = record (s.reqs) { queue = q; iterating = true } } in
      rw (init_iteration-ok laws v, iterate_requests)
        (Every-bind
          (iterate_loop-Every (suc s.reqs.queue.size) r t (begun-Inv laws v q refl refl)
            (omega arith, omega arith, omega arith))
          λ res _ fin. gives (Leads-trans fin (terminated-requests res.1)))

  notified-Every :
      (rs : List Round) (s : Server) (res : Bool × Server)
      → Rounded s res
      → Matched s res
      → ((t : Server) → Inv false t → Every (Follows t) (notify_valid rs t))
      → Every
          (Follows s)
          (elim res.0 as (λ _. Result Server) [ true ↦ notify_valid rs res.1 | false ↦ ok res.1 ])
  notified-Every rs s (true, t) after fin again =
      Every-map (again t after.0) λ u l. Leads-trans fin l
  notified-Every rs s (false, t) after fin again = gives fin

  pub notify_valid-Every :
      (rs : List Round) (s : Server) → Inv false s → Every (Follows s) (notify_valid rs s)
  unfolding notify_valid
  notify_valid-Every [] s v = stays
  notify_valid-Every (r ∷ rs) s v = Every-bind (iterate_requests-Every r s v) λ res e fin.
      notified-Every rs s res (Sound-ok res (iterate_requests-Rounded laws r s v) e) fin
        (λ t w. notify_valid-Every rs t w)
