-- ===== src/Server/Keeps.antt =====
-- The invariant through the calls of users, administrators and workers.
use boruta.Common.{
  lookup-insert, beq_refl, ℕ, ◌≡◌, refl, subst, ◌≢◌, ◌⊎◌, Bool, false, not, ◌&&◌, ◌||◌, Option,
  none, some, List, arith, if◌then◌else◌, nat_eq, nat_beq, text_eq, ◌==◌, lookup, inl, inr,
  Option-cases, Bool-cases, ltb, Text, codes,
}
use boruta.Types.{
  ReqId, ReqState, wait, inprogress, req_state_eq, worker_state_eq, WorkerUuid, WorkerState,
  maintenance, idle, run, fail, prepare, busy, ReqInfo, Time, Capabilities, TcpAddr,
}
use boruta.Std.{Std}
use boruta.Times.{RequestTimes}
use boruta.Outcome.{Sound, returns, fails, Sound-bind, Sound-or_fail, Sound-fail_if, Sound-if}
use boruta.Requests.Keeps.{
  IsSettled, Kept, IsHeld-IsSettled, IsSettled-IsHeld, on_worker_idle-Sound, cancel_request-Kept,
}
use boruta.Requests.{ReqsCollection}
use boruta.Workers.{MapWorker, store_worker, check_pending_operation}
use boruta.Server.{Server, set_state}
use boruta.Server.Api.{
  close_in_state, close_request, close_timed_out, register, register_locked, register_again,
  check_addr, new_worker, reregistered_state, set_fail, admin_set_state, set_groups, deregister,
}
use boruta.Server.Invariant.{
  Inv, IsSane, IsSane?, IsKeyed, store-WorkersMatch, delete-WorkersMatch, same-JobsMatch,
}
use boruta.Server.States.{set_state-Inv, close_running-Inv, ignore-Sound}

-- A worker that does not run has no job.
pub booked_none :
    {b : Bool} {s : Server} (v : Inv b s) (uuid : WorkerUuid) (w : MapWorker)
    → lookup uuid s.workers.workers ≡ some w
    → (w.info.state == run) ≡ false
    → lookup uuid s.jobs ≡ none
booked_none {s = s} v uuid w e h = ground (arith, v.workers_match.booked uuid)

-- In state RUN or not: what setState asks for, of a target that is not IDLE or PREPARE.
leaving :
    {b : Bool} {s : Server} (v : Inv b s) (uuid : WorkerUuid) (w : MapWorker) (state : WorkerState)
    → lookup uuid s.workers.workers ≡ some w
    → state ≢ idle
    → state ≢ prepare
    → (lookup uuid s.jobs ≡ none) ⊎ ((w.info.state ≡ run) × (state ≢ idle) × (state ≢ prepare))
leaving v uuid w state e i p = elim (Bool-cases (w.info.state == run)) [
  | inl r ↦ inr (ground arith, i, p)
  | inr r ↦ inl (booked_none v uuid w e r)
]

IsKeyed-other :
    (state : WorkerState) (key : Option ℕ) → state ≢ idle → state ≢ run → IsKeyed state key
IsKeyed-other state none i r = (i, r)
IsKeyed-other state (some k) i r = tt

-- A worker is stored anew in the state that it had.
pub store-Inv :
    {b : Bool} {s : Server} (v : Inv b s) (uuid : WorkerUuid) (w u : MapWorker)
    → lookup uuid s.workers.workers ≡ some w
    → u.info.state ≡ w.info.state
    → IsSane uuid u
    → Inv b (record s { workers = store_worker uuid u s.workers })
unfolding store_worker
store-Inv {s = s} v uuid w u e h sane = record {
  reqs_held = v.reqs_held;
  phase = v.phase;
  jobs_match = v.jobs_match;
  workers_match =
      store-WorkersMatch v.workers_match uuid u sane (elim (Bool-cases (w.info.state == run)) [
        | inl r ↦ inr (ground arith)
        | inr r ↦ inl (booked_none v uuid w e r)
      ]);
  listens = v.listens;
}

pub times-Inv :
    {b : Bool} {s : Server} (v : Inv b s) (d : RequestTimes)
    → Inv b (record s { reqs = record (s.reqs) { valid_after_times = d } })
times-Inv v d = record {
  reqs_held = record { consistent = v.reqs_held.consistent; held = v.reqs_held.held };
  phase = v.phase;
  jobs_match = v.jobs_match;
  workers_match = v.workers_match;
  listens = v.listens;
}

pub IsSane-at :
    {b : Bool} {s : Server} (v : Inv b s) (uuid : WorkerUuid) (w : MapWorker)
    → lookup uuid s.workers.workers ≡ some w
    → IsSane uuid w
IsSane-at v uuid w e = subst (IsSane? uuid) e (v.workers_match.sane uuid)

module _ {s : Server} (v : Inv false s) where
  pub settled : IsSettled s.reqs
  settled = IsHeld-IsSettled v.reqs_held v.phase

  -- A change of requests that keeps their workers.
  pub Kept-Inv : {c : ReqsCollection} → Kept s.reqs c → Inv false (record s { reqs = c })
  Kept-Inv k = record {
    reqs_held = IsSettled-IsHeld k.settled;
    phase = k.settled.still;
    jobs_match = same-JobsMatch v.jobs_match k.workers;
    workers_match = v.workers_match;
    listens = v.listens;
  }

-- A worker that registers again goes to BUSY, or from FAIL to PREPARE, or stays.
reregistered-cases :
    (w : MapWorker) (caps : Capabilities) (dryad sshd : TcpAddr)
    → (reregistered_state w caps dryad sshd == w.info.state) ≡ false
    → (reregistered_state w caps dryad sshd ≡ busy)
      ⊎ ((reregistered_state w caps dryad sshd ≡ prepare) × ((w.info.state == run) ≡ false))
unfolding reregistered_state
reregistered-cases w caps dryad sshd h = ground arith

reregistered-IsKeyed :
    (w : MapWorker) (caps : Capabilities) (dryad sshd : TcpAddr)
    → (reregistered_state w caps dryad sshd == w.info.state) ≡ false
    → IsKeyed (reregistered_state w caps dryad sshd) w.key
reregistered-IsKeyed w caps dryad sshd h = elim (reregistered-cases w caps dryad sshd h) [
  | inl e ↦ rw e (IsKeyed-other busy w.key (λ e. cc) (λ e. cc))
  | inr (e, _) ↦ rw e (IsKeyed-other prepare w.key (λ e. cc) (λ e. cc))
]

reregistered_move :
    {b : Bool} {s : Server} (v : Inv b s) (uuid : WorkerUuid) (w : MapWorker) (caps : Capabilities)
    (dryad sshd : TcpAddr)
    → lookup uuid s.workers.workers ≡ some w
    → (reregistered_state w caps dryad sshd == w.info.state) ≡ false
    → let state = reregistered_state w caps dryad sshd in
      (lookup uuid s.jobs ≡ none) ⊎ ((w.info.state ≡ run) × (state ≢ idle) × (state ≢ prepare))
reregistered_move v uuid w caps dryad sshd e h = elim (reregistered-cases w caps dryad sshd h) [
  | inl eb ↦ rw eb (leaving v uuid w busy e (λ e. cc) (λ e. cc))
  | inr (_, r) ↦ inl (booked_none v uuid w e r)
]

check_addr-Sound : (o : Option TcpAddr) → Sound (λ _. Unit {0}) (check_addr o)
unfolding check_addr
check_addr-Sound o =
    Sound-or_fail o _
      λ a _. Sound-or_fail a.ip _ λ _ _. Sound-fail_if (nat_beq a.port 0) _ λ _. returns tt

module _ ⦃std : Std⦄ {s : Server} (v : Inv false s) where
  pub close_timed_out-Inv :
      (rid : ReqId) (now : Time) → Sound (Inv false) (close_timed_out rid now s)
  unfolding close_timed_out
  close_timed_out-Inv rid now = Sound-or_fail (lookup rid s.reqs.requests) _ λ r e.
      Sound-fail_if (not (r.state == inprogress)) _ λ h. Sound-or_fail r.job _ λ j _.
        Sound-fail_if (ltb now j.timeout_at) _ λ _. close_running-Inv v rid r now e (ground arith)

  pub set_fail-Inv : (uuid : WorkerUuid) (now : Time) → Sound (Inv false) (set_fail uuid now s)
  unfolding set_fail
  set_fail-Inv uuid now = Sound-or_fail (lookup uuid s.workers.workers) _ λ w e.
      Sound-fail_if (w.info.state == maintenance || w.info.state == busy) _ λ h.
        set_state-Inv v uuid w fail now e (IsKeyed-other fail w.key (λ e. cc) (λ e. cc))
          (leaving v uuid w fail e (λ e. cc) (λ e. cc))

  pub deregister-Inv : (uuid : WorkerUuid) → Sound (Inv false) (deregister uuid s)
  unfolding deregister
  deregister-Inv uuid = Sound-or_fail (lookup uuid s.workers.workers) _ λ w e.
      Sound-fail_if (not (w.info.state == maintenance) && not (w.info.state == fail)) _ λ h.
        returns (record {
          reqs_held = v.reqs_held;
          phase = v.phase;
          jobs_match = v.jobs_match;
          workers_match =
              delete-WorkersMatch v.workers_match uuid (booked_none v uuid w e (ground arith));
          listens = v.listens;
        })

  close_in_state-Inv :
      (state : ReqState) (rid : ReqId) (r : ReqInfo) (now : Time)
      → lookup rid s.reqs.requests ≡ some r
      → r.state ≡ state
      → Sound (Inv false) (close_in_state state rid r now s)
  unfolding close_in_state
  close_in_state-Inv inprogress rid r now e h = close_running-Inv v rid r now e h
  close_in_state-Inv wait rid r now e h =
      Sound-bind (cancel_request-Kept (settled v) rid r e h) λ c _ k. returns (Kept-Inv v k)
  close_in_state-Inv _ rid r now e h = fails

  pub close_request-Inv : (rid : ReqId) (now : Time) → Sound (Inv false) (close_request rid now s)
  unfolding close_request
  close_request-Inv rid now =
      Sound-or_fail (lookup rid s.reqs.requests) _
        λ r e. close_in_state-Inv r.state rid r now e refl

  admin_target-Inv :
      (uuid : WorkerUuid) (state : WorkerState) (w : MapWorker) (now : Time)
      → lookup uuid s.workers.workers ≡ some w
      → (state == idle && not (w.info.state == maintenance)) ≡ false
      → Sound (Inv false) (set_state uuid (if state == idle then prepare else busy) now s)
  admin_target-Inv uuid state w now e k = elim (Bool-cases (state == idle)) [
    | inl h ↦ rw h (
        set_state-Inv v uuid w prepare now e (IsKeyed-other prepare w.key (λ e. cc) (λ e. cc))
          (inl (booked_none v uuid w e (ground arith))))
    | inr h ↦ rw h (
        set_state-Inv v uuid w busy now e (IsKeyed-other busy w.key (λ e. cc) (λ e. cc))
          (leaving v uuid w busy e (λ e. cc) (λ e. cc)))
  ]

  pub admin_set_state-Inv :
      (uuid : WorkerUuid) (state : WorkerState) (now : Time)
      → Sound (Inv false) (admin_set_state uuid state now s)
  unfolding admin_set_state
  admin_set_state-Inv uuid state now =
      Sound-fail_if (not (state == maintenance) && not (state == idle)) _ λ h.
        Sound-or_fail (lookup uuid s.workers.workers) _ λ w e.
          Sound-if
            ((state == maintenance && w.info.state == busy)
              || (state == idle && w.info.state == prepare))
            (λ _. returns v)
            (λ _.
              Sound-fail_if (state == idle && not (w.info.state == maintenance)) _
                λ k. ignore-Sound s v (admin_target-Inv uuid state w now e k))

  pub set_groups-Inv :
      (uuid : WorkerUuid) (groups : List Text) (now : Time)
      → Sound (Inv false) (set_groups uuid groups now s)
  unfolding set_groups store_worker
  set_groups-Inv uuid groups now = Sound-or_fail (lookup uuid s.workers.workers) _ λ w e.
      let u = record w { info = record (w.info) { groups = std.sort_strings groups } } in
      let t : Inv false (record s { workers = store_worker uuid u s.workers }) =
        store-Inv v uuid w u e refl (record {
          named = (IsSane-at v uuid w e).named;
          pending = (IsSane-at v uuid w e).pending;
          keyed = (IsSane-at v uuid w e).keyed;
          long = (IsSane-at v uuid w e).long;
        }) in
      Sound-if (w.info.state == idle && s.workers.has_listener)
        (λ _. on_worker_idle-Sound uuid now s.reqs _ λ d. returns (times-Inv t d)) (λ _. returns t)

  register_again-Inv :
      (uuid : WorkerUuid) (w : MapWorker) (caps : Capabilities) (dryad sshd : TcpAddr) (now : Time)
      → lookup uuid s.workers.workers ≡ some w
      → Sound (Inv false) (register_again uuid w caps dryad sshd now s)
  unfolding register_again store_worker
  register_again-Inv uuid w caps dryad sshd now e =
      let u = record w { info = record (w.info) { caps = caps }; dryad = dryad; sshd = sshd } in
      let sane = IsSane-at v uuid w e in
      let t = record s { workers = store_worker uuid u s.workers } in
      let tv : Inv false t = store-Inv v uuid w u e refl (record {
        named = sane.named;
        pending = sane.pending;
        keyed = sane.keyed;
        long = sane.long;
      }) in
      Sound-if (reregistered_state w caps dryad sshd == w.info.state) (λ _. returns tv)
        (λ h. ignore-Sound t tv (
          set_state-Inv tv uuid u _ now
            (rw (lookup-insert uuid uuid u s.workers.workers, beq_refl uuid) refl)
            (reregistered-IsKeyed w caps dryad sshd h)
            (reregistered_move v uuid w caps dryad sshd e h)))

  register_locked-Inv :
      (uuid : WorkerUuid) (caps : Capabilities) (dryad sshd : TcpAddr) (now : Time)
      → Sound (Inv false) (register_locked uuid caps dryad sshd now s)
  unfolding register_locked store_worker
  register_locked-Inv uuid caps dryad sshd now =
      elim (Option-cases (lookup uuid s.workers.workers)) [
        | inl e ↦
            rw (e, register_locked)
              (returns (record {
                reqs_held = v.reqs_held;
                phase = v.phase;
                jobs_match = v.jobs_match;
                workers_match =
                    store-WorkersMatch v.workers_match uuid (new_worker uuid caps dryad sshd)
                      (record {
                        named = refl;
                        pending = unfold check_pending_operation in tt;
                        keyed = (λ e. cc, λ e. cc);
                        long = tt;
                      })
                      (inl (ground (arith, v.workers_match.booked uuid)));
                listens = v.listens;
              }))
        | inr (w, e) ↦ rw (e, register_locked) (register_again-Inv uuid w caps dryad sshd now e)
      ]

  pub register-Inv :
      (caps : Capabilities) (dryad ssh : Text) (now : Time)
      → Sound (Inv false) (register caps dryad ssh now s)
  unfolding register check_addr
  register-Inv caps dryad ssh now = Sound-or_fail (lookup (codes "UUID") caps) _ λ uuid _.
      Sound-bind (check_addr-Sound (std.resolve_tcp_addr dryad)) λ d _ _.
        Sound-bind (check_addr-Sound (std.resolve_tcp_addr ssh))
          λ a _ _. register_locked-Inv uuid caps d a now
