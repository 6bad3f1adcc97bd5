-- ===== src/Server/Api.antt =====
-- The calls of users, administrators and workers that change the server: requests/requests.go
-- (CloseRequest, Close, AcquireWorker) and workers/workers.go (Register, SetFail, SetState, SetGroups,
-- Deregister).
use boruta.Common.{
  Bool, true, false, not, ◌&&◌, ◌||◌, Option, none, some, List, [], ◌∷◌, Text, codes, text_eq, ◌==◌,
  nat_eq, nat_beq, if◌then◌else◌, ltb, lookup, delete, length,
}
use boruta.Types.{
  ReqId, ReqState, wait, inprogress, req_state_eq, WorkerUuid, WorkerState, maintenance, idle, fail,
  prepare, busy, worker_state_eq, Time, Capabilities, TcpAddr, ReqInfo, AccessInfo, internal_logic,
  modification_forbidden, worker_not_assigned, missing_uuid, missing_ip, missing_port,
  in_maintenance, not_in_fail_or_maintenance, wrong_state_argument, forbidden_state_change,
  external, Result, ok, err, ◌>>=◌, ◌>>◌, fail_if, or_fail,
}
use boruta.Std.{Std}
use boruta.Requests.{find_request, cancel_request, on_worker_idle}
use boruta.Workers.{MapWorker, find_worker, store_worker}
use boruta.Server.{Server, get_job, ignore, set_state, close_running}

-- AcquireWorker
unfoldable pub acquire_worker : ReqId → Server → Result AccessInfo
unfolding find_request get_job
acquire_worker rid s = do
  req ← find_request rid s.reqs
  fail_if (not (req.state == inprogress)) worker_not_assigned
  j ← or_fail req.job worker_not_assigned
  job ← get_job j.worker_uuid s
  ok job.access

-- The address of a worker, which must have an IP and a port.
unfoldable pub check_addr : Option TcpAddr → Result TcpAddr
check_addr resolved = do
  addr ← or_fail resolved external
  ip ← or_fail addr.ip missing_ip
  fail_if (nat_beq addr.port 0) missing_port
  ok addr

-- reflect.DeepEqual of two maps: as many keys, and the same value at each.
unfoldable pub caps_within : Capabilities → Capabilities → Bool
caps_within [] d = true
caps_within ((key, value) ∷ c) d = elim (lookup key d) [
  | none ↦ false
  | some v ↦ value == v && caps_within c d
]

unfoldable pub caps_equal : Capabilities → Capabilities → Bool
unfolding caps_within
caps_equal c d = nat_beq (length c) (length d) && caps_within c d

-- The state of a worker that registers again.
unfoldable pub reregistered_state : MapWorker → Capabilities → TcpAddr → TcpAddr → WorkerState
unfolding caps_equal
reregistered_state w caps dryad sshd =
    let revived = if w.info.state == fail then prepare else w.info.state in
    let changed =
      not (nat_beq w.sshd.port sshd.port)
      || not (nat_beq w.dryad.port dryad.port)
      || not (caps_equal w.info.caps caps) in
    if changed then busy else revived

module _ ⦃std : Std⦄ where
  -- The `switch` of CloseRequest.
  unfoldable pub close_in_state : ReqState → ReqId → ReqInfo → Time → Server → Result Server
  unfolding cancel_request close_running
  close_in_state wait rid req now s =
      cancel_request rid req s.reqs >>= λ c. ok (record s { reqs = c })
  close_in_state inprogress rid req now s = close_running rid req now s
  close_in_state _ rid req now s = err modification_forbidden

  -- CloseRequest
  unfoldable pub close_request : ReqId → Time → Server → Result Server
  unfolding find_request close_in_state
  close_request rid now s = do req ← find_request rid s.reqs; close_in_state req.state rid req now s

  -- Close, which the timeout matcher calls.
  unfoldable pub close_timed_out : ReqId → Time → Server → Result Server
  unfolding find_request close_running
  close_timed_out rid now s = do
    req ← find_request rid s.reqs
    fail_if (not (req.state == inprogress)) modification_forbidden
    j ← or_fail req.job internal_logic
    fail_if (ltb now j.timeout_at) modification_forbidden
    close_running rid req now s

  -- Register, of a worker that is known.
  unfoldable pub register_again :
      WorkerUuid → MapWorker → Capabilities → TcpAddr → TcpAddr → Time → Server → Result Server
  unfolding reregistered_state store_worker set_state
  register_again uuid w caps dryad sshd now s =
      let new_state = reregistered_state w caps dryad sshd in
      let updated = record w {
        info = record (w.info) { caps = caps };
        dryad = dryad;
        sshd = sshd;
      } in
      let t = record s { workers = store_worker uuid updated s.workers } in
      if new_state == w.info.state then ok t else ignore t (set_state uuid new_state now t)

  abbrev pub new_worker : WorkerUuid → Capabilities → TcpAddr → TcpAddr → MapWorker
  new_worker uuid caps dryad sshd = record {
    info = record { worker_uuid = uuid; state = maintenance; groups = []; caps = caps };
    dryad = dryad;
    sshd = sshd;
    key = none;
    background_operation = [];
    background = none;
  }

  -- The critical section of Register.
  unfoldable pub register_locked :
      WorkerUuid → Capabilities → TcpAddr → TcpAddr → Time → Server → Result Server
  unfolding register_again
  register_locked uuid caps dryad sshd now s = elim (lookup uuid s.workers.workers) [
    | some w ↦ register_again uuid w caps dryad sshd now s
    | none ↦
        ok (record s { workers = store_worker uuid (new_worker uuid caps dryad sshd) s.workers })
  ]

  unfoldable pub register : Capabilities → Text → Text → Time → Server → Result Server
  unfolding check_addr register_locked
  register caps dryad_address ssh_address now s = do
    uuid ← or_fail (lookup (codes "UUID") caps) missing_uuid
    dryad ← check_addr (std.resolve_tcp_addr dryad_address)
    sshd ← check_addr (std.resolve_tcp_addr ssh_address)
    register_locked uuid caps dryad sshd now s

  unfoldable pub set_fail : WorkerUuid → Time → Server → Result Server
  unfolding find_worker set_state
  set_fail uuid now s = do
    w ← find_worker uuid s.workers
    fail_if (w.info.state == maintenance || w.info.state == busy) in_maintenance
    set_state uuid fail now s

  -- SetState, the call of an administrator.
  unfoldable pub admin_set_state : WorkerUuid → WorkerState → Time → Server → Result Server
  unfolding find_worker set_state
  admin_set_state uuid state now s = do
    fail_if (not (state == maintenance) && not (state == idle)) wrong_state_argument
    w ← find_worker uuid s.workers
    let ongoing =
        (state == maintenance && w.info.state == busy) || (state == idle && w.info.state == prepare)
    let forbidden = state == idle && not (w.info.state == maintenance)
    let target = if state == idle then prepare else busy
    let change : Result Server = do
      fail_if forbidden forbidden_state_change
      ignore s (set_state uuid target now s)
    if ongoing then ok s else change

  unfoldable pub set_groups : WorkerUuid → List Text → Time → Server → Result Server
  unfolding find_worker store_worker
  set_groups uuid groups now s = do
    w ← find_worker uuid s.workers
    let sorted = record w { info = record (w.info) { groups = std.sort_strings groups } }
    let t = record s { workers = store_worker uuid sorted s.workers }
    let told : Result Server = do c ← on_worker_idle uuid now t.reqs; ok (record t { reqs = c })
    if w.info.state == idle && s.workers.has_listener then told else ok t

-- Deregister. Closing the channel ends the worker's background goroutine.
unfoldable pub deregister : WorkerUuid → Server → Result Server
unfolding find_worker
deregister uuid s = do
  w ← find_worker uuid s.workers
  fail_if (not (w.info.state == maintenance) && not (w.info.state == fail))
      not_in_fail_or_maintenance
  ok (record s { workers = record (s.workers) { workers = delete uuid s.workers.workers } })
