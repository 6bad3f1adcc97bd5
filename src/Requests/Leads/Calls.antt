-- ===== src/Requests/Leads/Calls.antt =====
-- The states of requests, through the calls of the collection.
use boruta.Common.{
  ◌+◌, ◌≡◌, refl, not, ◌&&◌, ◌||◌, Option, none, some, lookup, nat_beq, nat_eq, ltb, length, arith,
  ◌==◌, if◌then◌else◌,
}
use boruta.Types.{
  ReqId, WorkerUuid, Time, Capabilities, Priority, UserInfo, ReqInfo, wait, inprogress, cancel,
  timeout, req_state_eq, hi_prio, lo_prio,
}
use boruta.Std.{Std}
use boruta.Outcome.{Every, gives, Every-bind, Every-after, Every-or_fail, Every-fail_if, Every-if}
use boruta.Times.{insert_time}
use boruta.Queue
use boruta.Requests.{
  ReqsCollection, find_request, new_request, add_request, out_of_range, update_request, update_with,
  update_locked, change_request, apply_update, insert_opt, prolong_access, run_request,
  timeout_request, cancel_request, on_worker_idle, modification_possible,
}
use boruta.Requests.Keeps.{IsSettled}
use boruta.Requests.Leads.{
  Keeps, Leads-refl, insert-Leads, fresh-Leads, open-IsKept, same-IsKept, is_waiting,
}

module _ (c : ReqsCollection) where
  pub timeout_request-Every :
      (rid : ReqId) (now : Time) → Every (Keeps c) (timeout_request rid now c)
  unfolding timeout_request find_request
  timeout_request-Every rid now = Every-or_fail (lookup rid c.requests) _ λ r e.
      Every-fail_if (not (r.state == wait) || ltb now r.deadline) _ λ h.
        Every-after (Queue.remove_request r c.queue) λ q. gives (
          insert-Leads c.requests rid (record r { state = timeout })
            (open-IsKept _ r _ wait e (is_waiting r (ground arith)) refl))

  pub cancel_request-Every :
      (rid : ReqId) (r : ReqInfo)
      → lookup rid c.requests ≡ some r
      → r.state ≡ wait
      → Every (Keeps c) (cancel_request rid r c)
  unfolding cancel_request
  cancel_request-Every rid r e h = Every-after (Queue.remove_request r c.queue) λ q.
      gives (
        insert-Leads c.requests rid (record r { state = cancel }) (open-IsKept _ r _ wait e h refl))

  module _ ⦃std : Std⦄ where
    pub on_worker_idle-Every :
        (uuid : WorkerUuid) (now : Time) → Every (Keeps c) (on_worker_idle uuid now c)
    unfolding on_worker_idle
    on_worker_idle-Every uuid now =
        Every-after (insert_time (record { at = now; req = 0 }) c.valid_after_times)
          λ times. gives (Leads-refl c.requests)

    pub prolong_access-Every :
        (rid : ReqId) (now : Time) → Every (Keeps c) (prolong_access rid now c)
    unfolding prolong_access find_request
    prolong_access-Every rid now = Every-or_fail (lookup rid c.requests) _ λ r e.
        Every-fail_if (not (r.state == inprogress)) _ λ h. Every-or_fail r.job _ λ j _.
          Every-after (insert_time _ c.timeout_times)
            λ times. gives (insert-Leads c.requests rid _ (same-IsKept _ r _ e refl))

    pub run_request-Every :
        (rid : ReqId) (uuid : WorkerUuid) (now : Time)
        → Every (Keeps c) (run_request rid uuid now c)
    unfolding run_request find_request
    run_request-Every rid uuid now = Every-or_fail (lookup rid c.requests) _ λ r e.
        Every-fail_if (not (r.state == wait)) _ λ h. Every-after (Queue.remove_request r _) λ q.
          Every-after (insert_time _ c.timeout_times) λ times. gives (
            insert-Leads c.requests rid _
              (open-IsKept _ r _ wait e (is_waiting r (ground arith)) refl))

    apply_update-Every :
        (src r : ReqInfo) (deadline : Time)
        → lookup src.id c.requests ≡ some r
        → Every (λ u. Keeps c u.0) (apply_update src r deadline c)
    unfolding apply_update
    apply_update-Every src r deadline e =
        Every-after _ λ q. gives (insert-Leads c.requests src.id _ (same-IsKept _ r _ e refl))

    change_request-Every :
        (src r : ReqInfo) (now : Time)
        → lookup src.id c.requests ≡ some r
        → Every (λ u. Keeps c u.0) (change_request src r now c)
    unfolding change_request
    change_request-Every src r now e =
        let deadline = if nat_beq src.deadline 0 then r.deadline else src.deadline in
        Every-fail_if (not (nat_beq src.priority 0) && out_of_range src.priority) _ λ _.
          Every-fail_if (not (nat_beq src.deadline 0) && ltb src.deadline now) _ λ _.
            Every-fail_if
              (not (nat_beq src.valid_after 0)
                && not (nat_beq deadline 0)
                && ltb deadline src.valid_after)
              _ λ _. apply_update-Every src r deadline e

    update_locked-Every :
        (src : ReqInfo) (now : Time) → Every (λ u. Keeps c u.0) (update_locked src now c)
    unfolding update_locked find_request
    update_locked-Every src now = Every-or_fail (lookup src.id c.requests) _ λ r e.
        Every-fail_if (not (modification_possible r.state)) _ λ _.
          Every-if
            (nat_beq src.priority r.priority
              && nat_beq src.valid_after r.valid_after
              && nat_beq src.deadline r.deadline)
            (λ _. gives {a = (c, none, none)} (Leads-refl c.requests))
            (λ _. change_request-Every src r now e)

    update_with-Every : (src : ReqInfo) (now : Time) → Every (Keeps c) (update_with src now c)
    unfolding update_with
    update_with-Every src now =
        Every-bind (update_locked-Every src now) λ (d, new_valid, new_dead) _ k.
          Every-after (insert_opt new_valid d.valid_after_times)
            λ _. Every-after (insert_opt new_dead d.deadline_times) λ _. gives k

    pub update_request-Every :
        (src : Option ReqInfo) (now : Time) → Every (Keeps c) (update_request src now c)
    unfolding update_request
    update_request-Every none now = gives (Leads-refl c.requests)
    update_request-Every (some src) now =
        Every-if (nat_beq src.priority 0 && nat_beq src.valid_after 0 && nat_beq src.deadline 0)
          (λ _. gives {a = c} (Leads-refl c.requests)) (λ _. update_with-Every src now)

    add_request-Every :
        IsSettled c → (draft : ReqInfo) → Every (λ r. Keeps c r.1) (add_request draft c)
    unfolding add_request
    add_request-Every v draft =
        let id = length c.requests + 1 in
        let req = record draft { id = id } in
        Every-after (Queue.push_request req c.queue) λ q.
          Every-after (insert_time (record { at = req.valid_after; req = id }) c.valid_after_times)
            λ valid.
              Every-after (insert_time (record { at = req.deadline; req = id }) c.deadline_times)
                λ dead. gives (fresh-Leads c.requests id req (v.consistent.given id (omega arith)))

    pub new_request-Every :
        IsSettled c
        → (caps : Capabilities) (p : Priority) (owner : UserInfo) (va dl now nv ma : Time)
        → Every (λ r. Keeps c r.1) (new_request caps p owner va dl now nv ma c)
    unfolding new_request out_of_range
    new_request-Every v caps p owner va dl now nv ma =
        Every-fail_if (not (nat_beq dl 0) && ltb dl now) _ λ _.
          Every-fail_if (ltb dl va && not (nat_beq dl 0)) _ λ _.
            Every-fail_if (ltb p hi_prio || ltb lo_prio p) _ λ _. add_request-Every v (record {
              id = 0;
              priority = p;
              owner = owner;
              deadline = if nat_beq dl 0 then ma else dl;
              valid_after = if nat_beq va 0 then nv else va;
              state = wait;
              job = none;
              caps = caps;
            })
