-- ===== src/Server/Progress.antt =====
-- Where nothing is waited for, an attempt of the valid matcher serves the request if a worker fits it,
-- and otherwise changes nothing.
use boruta.Common.{
  ◌≡◌, refl, ap, subst, ◌∙◌, ◌⊎◌, Bool, true, false, not, ◌&&◌, none, some, arith, nat_eq, text_eq,
  ◌==◌, lookup, inl, inr, Option-cases, Bool-cases, ltb,
}
use boruta.Types.{ReqId, WorkerUuid, wait, req_state_eq, run, ReqInfo, Time, TcpAddr, ok}
use boruta.Std.{Std, SortLaws}
use boruta.Workers.{MapWorker}
use boruta.Requests.{ReqsCollection, verify_if_ready, get_request, find_request, run_request}
use boruta.Requests.Consistent.{IsEntry}
use boruta.Server.{Server}
use boruta.Server.Matching.{Round, create_job, start_job, match_workers, try_request}
use boruta.Server.Invariant.{Inv, IsSane, IsSane?, IsKeyed}
use boruta.Server.Start.{create_job-cases, run_request-cases}
use boruta.Server.Room.{HasRoom, Fits, NoneFits, take_best-cases}

-- Each request of the round gets its tunnel.
abbrev pub HasTunnels : Round → Type 0
HasTunnels r = (id : ReqId) → (a : TcpAddr) × (r.listened id ≡ some a)

-- A request that waits, is due at the time of the round, and has a worker that fits it.
pub record CanServe (r : Round) (s : Server) (rid : ReqId) : Type 0 where
  pub req : ReqInfo
  pub known : lookup rid s.reqs.requests ≡ some req
  pub is_ready : verify_if_ready rid r.now s.reqs ≡ true
  pub uuid : WorkerUuid
  pub worker : MapWorker
  pub fits : Fits req.owner.groups req.caps s uuid worker

start_job-ok :
    ⦃std : Std⦄
    → (rid : ReqId) (uuid : WorkerUuid) (r : Round) (s t : Server) (c : ReqsCollection)
    → create_job rid uuid (r.listened rid) s ≡ ok t
    → run_request rid uuid r.run_now t.reqs ≡ ok c
    → start_job rid uuid r s ≡ ok (true, record t { reqs = c })
unfolding start_job
start_job-ok rid uuid r s t c made ran = rw (made, start_job, ran) refl

module _ ⦃std : Std⦄ {s : Server} (v : Inv true s) (h : HasRoom s) (r : Round)
    (tunnels : HasTunnels r) where
  start_job-Started :
      (rid : ReqId) (req : ReqInfo)
      → lookup rid s.reqs.requests ≡ some req
      → req.state ≡ wait
      → (uuid : WorkerUuid) (w : MapWorker) → lookup uuid s.workers.workers ≡ some w
      → w.info.state ≡ run
      → lookup uuid s.jobs ≡ none
      → (t : Server) × (start_job rid uuid r s ≡ ok (true, t)) × HasRoom t
  start_job-Started rid req er ew uuid w e runs free =
      let sane : IsSane uuid w = subst (IsSane? uuid) e (v.workers_match.sane uuid) in
      let keyed : IsKeyed run w.key = subst (λ x. IsKeyed x w.key) runs sane.keyed in
      let (a, heard) = tunnels rid in
      elim (create_job-cases rid uuid (r.listened rid) s w e free keyed) [
        | inl (_, deaf) ↦ (let no : some a ≡ none = cc in cc)
        | inr (j, made, ej, eo) ↦
            elim (run_request-cases v.reqs_held rid uuid r.run_now req er ew) [
              | inl (_, locked) ↦ absurd (ground (arith, locked, h.timeouts))
              | inr (d, same, ran) ↦ (
                _,
                start_job-ok rid uuid r s _ _ made ran,
                record { room = h.room; timeouts = same ∙ h.timeouts },
              )
            ]
      ]

-- The test of VerifyIfReady.
abbrev is_due : Time → ReqInfo → Bool
is_due now req = (req.state == wait) && ltb now req.deadline && not (ltb now req.valid_after)

module _ ⦃std : Std⦄ (laws : SortLaws std) {s : Server} (v : Inv true s) (h : HasRoom s) (r : Round)
    (tunnels : HasTunnels r) where
  match_workers-cases :
      (req : ReqInfo)
      → lookup req.id s.reqs.requests ≡ some req
      → req.state ≡ wait
      → ((match_workers req r s ≡ ok (false, s)) × NoneFits v h req.owner.groups req.caps)
        ⊎ ((t : Server) × (match_workers req r s ≡ ok (true, t)) × HasRoom t)
  unfolding match_workers
  match_workers-cases req er ew =
      elim (take_best-cases v h laws req.owner.groups req.caps r.idle_now) [
        | inl (gone, nothing) ↦ inl (rw (gone, match_workers) refl, nothing)
        | inr (u, t, taken, p, room) ↦
            let (x, started, after) =
              start_job-Started p.inv room r tunnels req.id req (ap (lookup req.id) p.requests ∙ er)
                ew u p.worker p.found p.runs p.free in
            inr (x, rw (taken, match_workers) started, after)
      ]

  try_request-due :
      (rid : ReqId) (req : ReqInfo)
      → lookup rid s.reqs.requests ≡ some req
      → is_due r.now req ≡ true
      → try_request rid r s ≡ match_workers req r s
  unfolding try_request verify_if_ready get_request find_request
  try_request-due rid req e due = rw (e, try_request, verify_if_ready, due) refl

  try_request-late :
      (rid : ReqId) (req : ReqInfo)
      → lookup rid s.reqs.requests ≡ some req
      → is_due r.now req ≡ false
      → (try_request rid r s ≡ ok (false, s)) × (verify_if_ready rid r.now s.reqs ≡ false)
  unfolding try_request verify_if_ready get_request find_request
  try_request-late rid req e late =
      (rw (e, try_request, verify_if_ready, late) refl, rw (e, verify_if_ready, late) refl)

  -- An attempt returns: the request is served, or it cannot be and nothing has changed.
  pub try_request-cases :
      (rid : ReqId)
      → ((try_request rid r s ≡ ok (false, s)) × (CanServe r s rid → ⊥))
        ⊎ ((t : Server) × (try_request rid r s ≡ ok (true, t)) × HasRoom t)
  unfolding try_request verify_if_ready get_request find_request
  try_request-cases rid = elim (Option-cases (lookup rid s.reqs.requests)) [
    | inl e ↦ inl (rw (e, try_request, verify_if_ready) refl, λ c. (let no = c.known in cc))
    | inr (req, e) ↦ elim (Bool-cases (is_due r.now req)) [
      | inl ready ↦
          let entry : IsEntry rid (some req) =
            subst (IsEntry rid) e (v.reqs_held.consistent.entries rid) in
          elim (match_workers-cases req (ap (λ i. lookup i s.reqs.requests) entry.0 ∙ e)
            (ground arith)) [
              | inl (same, nothing) ↦ inl (
                try_request-due rid req e ready ∙ same,
                λ c.
                    let one : c.req ≡ req = (let both = c.known in cc) in
                    nothing c.uuid c.worker
                      (subst (λ q. Fits q.owner.groups q.caps s c.uuid c.worker) one c.fits),
              )
              | inr (t, served, room) ↦ inr (t, try_request-due rid req e ready ∙ served, room)
            ]
      | inr late ↦
          (let (same, not_due) = try_request-late rid req e late in
            inl (same, λ c. (let yes = c.is_ready in cc)))
    ]
  ]
