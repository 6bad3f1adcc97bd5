-- ===== src/Server/Follows/Calls.antt =====
-- The states of requests, through the calls of users, administrators and workers.
use boruta.Common.{
  ◌≡◌, refl, sym, inr, not, ◌&&◌, ◌||◌, Option, none, some, List, Text, codes, lookup, nat_eq,
  text_eq, ◌==◌, arith, if◌then◌else◌, ltb,
}
use boruta.Types.{
  ReqId, WorkerUuid, WorkerState, ReqState, Time, ReqInfo, TcpAddr, Capabilities, idle, prepare,
  maintenance, fail, busy, wait, inprogress, cancel, timeout, invalid, done, failed, req_state_eq,
  worker_state_eq, Result, ok,
}
use boruta.Std.{Std}
use boruta.Outcome.{Every, gives, refuses, Every-after, Every-or_fail, Every-fail_if, Every-if}
use boruta.Requests.{find_request}
use boruta.Requests.Leads.{is_running}
use boruta.Requests.Leads.Calls.{cancel_request-Every, on_worker_idle-Every}
use boruta.Workers.{MapWorker, find_worker, store_worker}
use boruta.Server.{Server}
use boruta.Server.Invariant.{JobsMatch}
use boruta.Server.Follows.{
  Follows, Follows-refl, ignore-Every, reqs-Every, set_state-Every, close_running-Every,
}
use boruta.Server.Api.{
  check_addr, close_in_state, close_request, close_timed_out, register, register_again,
  register_locked, reregistered_state, set_fail, admin_set_state, set_groups, deregister,
  new_worker,
}

module _ ⦃std : Std⦄ where
  close_in_state-Every :
      (state : ReqState) (rid : ReqId) (r : ReqInfo) (now : Time) (s : Server)
      → lookup rid s.reqs.requests ≡ some r
      → state ≡ r.state
      → Every (Follows s) (close_in_state state rid r now s)
  unfolding close_in_state
  close_in_state-Every wait rid r now s e h =
      reqs-Every s (cancel_request-Every s.reqs rid r e (sym h))
  close_in_state-Every inprogress rid r now s e h = close_running-Every rid r now s e (sym h)
  close_in_state-Every cancel rid r now s e h = refuses
  close_in_state-Every timeout rid r now s e h = refuses
  close_in_state-Every invalid rid r now s e h = refuses
  close_in_state-Every done rid r now s e h = refuses
  close_in_state-Every failed rid r now s e h = refuses

  pub close_request-Every :
      (rid : ReqId) (now : Time) (s : Server) → Every (Follows s) (close_request rid now s)
  unfolding close_request find_request
  close_request-Every rid now s =
      Every-or_fail (lookup rid s.reqs.requests) _
        λ r e. close_in_state-Every r.state rid r now s e refl

  pub close_timed_out-Every :
      (rid : ReqId) (now : Time) (s : Server) → Every (Follows s) (close_timed_out rid now s)
  unfolding close_timed_out find_request
  close_timed_out-Every rid now s = Every-or_fail (lookup rid s.reqs.requests) _ λ r e.
      Every-fail_if (not (r.state == inprogress)) _ λ h. Every-or_fail r.job _ λ j _.
        Every-fail_if (ltb now j.timeout_at) _
          λ _. close_running-Every rid r now s e (is_running r (ground (arith, h)))

  pub deregister-Every : (uuid : WorkerUuid) (s : Server) → Every (Follows s) (deregister uuid s)
  unfolding deregister find_worker
  deregister-Every uuid s = Every-or_fail (lookup uuid s.workers.workers) _ λ w _.
      Every-fail_if (not (w.info.state == maintenance) && not (w.info.state == fail)) _
        λ _. gives (Follows-refl s)

  pub set_groups-Every :
      (uuid : WorkerUuid) (groups : List Text) (now : Time) (s : Server)
      → Every (Follows s) (set_groups uuid groups now s)
  unfolding set_groups find_worker
  set_groups-Every uuid groups now s = Every-or_fail (lookup uuid s.workers.workers) _ λ w _.
      let sorted = record w { info = record (w.info) { groups = std.sort_strings groups } } in
      let t = record s { workers = store_worker uuid sorted s.workers } in
      Every-if (w.info.state == idle && s.workers.has_listener)
        (λ _. reqs-Every t (on_worker_idle-Every s.reqs uuid now)) (λ _. gives (Follows-refl t))

  module _ (s : Server) (v : JobsMatch s.reqs.requests s.jobs) where
    pub set_fail-Every : (uuid : WorkerUuid) (now : Time) → Every (Follows s) (set_fail uuid now s)
    unfolding set_fail find_worker
    set_fail-Every uuid now = Every-or_fail (lookup uuid s.workers.workers) _ λ w _.
        Every-fail_if (w.info.state == maintenance || w.info.state == busy) _
          λ _. set_state-Every uuid fail now s (inr v)

    pub admin_set_state-Every :
        (uuid : WorkerUuid) (state : WorkerState) (now : Time)
        → Every (Follows s) (admin_set_state uuid state now s)
    unfolding admin_set_state find_worker
    admin_set_state-Every uuid state now =
        Every-fail_if (not (state == maintenance) && not (state == idle)) _ λ _.
          Every-or_fail (lookup uuid s.workers.workers) _ λ w _.
            Every-if
              ((state == maintenance && w.info.state == busy)
                || (state == idle && w.info.state == prepare))
              (λ _. gives (Follows-refl s))
              (λ _. Every-fail_if (state == idle && not (w.info.state == maintenance)) _ λ _.
                ignore-Every s (Follows-refl s)
                  (set_state-Every uuid (if state == idle then prepare else busy) now s (inr v)))

    register_again-Every :
        (uuid : WorkerUuid) (w : MapWorker) (caps : Capabilities) (dryad sshd : TcpAddr)
        (now : Time)
        → Every (Follows s) (register_again uuid w caps dryad sshd now s)
    unfolding register_again
    register_again-Every uuid w caps dryad sshd now =
        let updated = record w {
          info = record (w.info) { caps = caps };
          dryad = dryad;
          sshd = sshd;
        } in
        let t = record s { workers = store_worker uuid updated s.workers } in
        Every-if (reregistered_state w caps dryad sshd == w.info.state)
          (λ _. gives (Follows-refl s))
          (λ _.
            ignore-Every t (Follows-refl s)
              (set_state-Every uuid (reregistered_state w caps dryad sshd) now t (inr v)))

    register_at-Every :
        (o : Option MapWorker) (uuid : WorkerUuid) (caps : Capabilities) (dryad sshd : TcpAddr)
        (now : Time)
        → Every (Follows s) (elim o as (λ _. Result Server) [
          | some w ↦ register_again uuid w caps dryad sshd now s
          | none ↦
              ok (record s {
                workers = store_worker uuid (new_worker uuid caps dryad sshd) s.workers;
              })
        ])
    register_at-Every none uuid caps dryad sshd now = gives (Follows-refl s)
    register_at-Every (some w) uuid caps dryad sshd now =
        register_again-Every uuid w caps dryad sshd now

    pub register-Every :
        (caps : Capabilities) (dryad ssh : Text) (now : Time)
        → Every (Follows s) (register caps dryad ssh now s)
    unfolding register register_locked
    register-Every caps dryad ssh now = Every-or_fail (lookup (codes "UUID") caps) _ λ uuid _.
        Every-after (check_addr (std.resolve_tcp_addr dryad)) λ d.
          Every-after (check_addr (std.resolve_tcp_addr ssh))
            λ a. register_at-Every (lookup uuid s.workers.workers) uuid caps d a now
