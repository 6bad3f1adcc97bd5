-- ===== src/Workers.antt =====
-- workers/workers.go: the list of workers and what is read from it. The calls that change a worker's
-- state reach requests and jobs and are in Server. `background_operation` is the buffer of the
-- channel to the worker's background goroutine, oldest first; `background` is that goroutine's own
-- variable, the state whose long operation it runs, if it runs one.
pub mod Best
pub mod Goroutine
pub mod Endings
use boruta.Common.{
  ℕ, ◌+◌, Bool, true, false, not, ◌&&◌, ◌||◌, Option, none, some, List, [], ◌∷◌, map, codes,
  text_eq, ◌==◌, nat_eq, if◌then◌else◌, ltb, is_none, Map, lookup, insert, values, select, length,
}
use boruta.Types.{
  WorkerState, idle, prepare, busy, worker_state_eq, WorkerUuid, WorkerInfo, TcpAddr,
  error_worker_not_found, Result, ok, panic, ◌>>=◌, ◌>>◌, fail_if, or_fail, not_found,
}
use boruta.Lists.{SortInfo, ListInfo, WorkersPaginator, forward, max_page_limit}
use boruta.Std.{Std}
use boruta.Sorter.{new_worker_sorter, less_worker}
use boruta.Paging.{or_default, passes, page, page_limit}

pub record MapWorker : Type 0 where
  pub info : WorkerInfo
  pub dryad : TcpAddr
  pub sshd : TcpAddr
  pub key : Option ℕ
  pub background_operation : List WorkerState
  pub background : Option WorkerState

-- `has_listener` tells whether changeListener is set; it is the collection of requests.
pub record WorkerList : Type 0 where
  pub workers : Map WorkerUuid MapWorker
  pub has_listener : Bool

unfoldable pub new_worker_list : WorkerList
new_worker_list = record { workers = []; has_listener = false }

unfoldable pub set_change_listener : WorkerList → WorkerList
set_change_listener wl = record wl { has_listener = true }

unfoldable pub find_worker : WorkerUuid → WorkerList → Result MapWorker
find_worker uuid wl = or_fail (lookup uuid wl.workers) error_worker_not_found

unfoldable pub store_worker : WorkerUuid → MapWorker → WorkerList → WorkerList
store_worker uuid w wl = record wl { workers = insert uuid w wl.workers }

unfoldable pub get_worker_info : WorkerUuid → WorkerList → Result WorkerInfo
unfolding find_worker
get_worker_info uuid wl = do w ← find_worker uuid wl; ok w.info

unfoldable pub get_worker_addr : WorkerUuid → WorkerList → Result TcpAddr
unfolding find_worker
get_worker_addr uuid wl = do w ← find_worker uuid wl; ok w.dryad

unfoldable pub get_worker_ssh_addr : WorkerUuid → WorkerList → Result TcpAddr
unfolding find_worker
get_worker_ssh_addr uuid wl = do w ← find_worker uuid wl; ok w.sshd

unfoldable pub set_worker_key : WorkerUuid → ℕ → WorkerList → Result WorkerList
unfolding find_worker store_worker
set_worker_key uuid key wl = do
  w ← find_worker uuid wl
  ok (store_worker uuid (record w { key = some key }) wl)

abbrev pub deref {ℓ} : {A : Type ℓ} → Option A → Result A
deref none = panic
deref (some a) = ok a

-- A key that was never set is a nil pointer.
unfoldable pub get_worker_key : WorkerUuid → WorkerList → Result ℕ
unfolding find_worker
get_worker_key uuid wl = do w ← find_worker uuid wl; deref w.key

-- The workers that listWorkers keeps; the one of the paginator is kept whether it matches or not.
unfoldable pub is_listed : Option (WorkerInfo → Bool) → WorkerUuid → Bool → WorkerInfo → Bool
is_listed filter pid only_idle w =
    (passes filter w || w.worker_uuid == pid) && not (only_idle && not (w.state == idle))

abbrev pub infos : Map WorkerUuid MapWorker → List WorkerInfo
infos m = map (λ w. w.info) (values m)

module _ ⦃std : Std⦄ where
  -- listWorkers
  unfoldable pub matching_workers :
      Option (WorkerInfo → Bool)
      → Option SortInfo
      → WorkerUuid
      → Bool
      → WorkerList
      → Result (List WorkerInfo)
  unfolding is_listed
  matching_workers filter info pid only_idle wl = do
    sorter ← new_worker_sorter info
    let matching = select (is_listed filter pid only_idle) (infos wl.workers)
    ok (std.sort_workers (less_worker sorter.item sorter.order) matching)

  -- `filter != nil && !filter.Match(&pagWorker.WorkerInfo)`, with `pagWorker` found
  unfoldable pub hides_worker : Option (WorkerInfo → Bool) → Option MapWorker → Bool
  hides_worker f none = false
  hides_worker f (some w) = not (passes f w.info)

  -- ListWorkers
  unfoldable pub list_workers :
      Option (WorkerInfo → Bool)
      → Option SortInfo
      → Option WorkersPaginator
      → WorkerList
      → Result (List WorkerInfo × ListInfo)
  unfolding matching_workers hides_worker page page_limit
  list_workers filter info paginator wl = do
    let p = or_default paginator (record { id = []; direction = forward; limit = max_page_limit })
    let limit = page_limit p.limit
    let has_id = not (p.id == codes "")
    let pag_worker = lookup p.id wl.workers
    fail_if (has_id && is_none pag_worker) (not_found (codes "worker"))
    res ← matching_workers filter info p.id false wl
    let hidden = has_id && hides_worker filter pag_worker
    ok (page (λ w. w.worker_uuid == p.id) has_id hidden p.direction limit res)

-- TakeBestMatchingWorker: the loop that looks for the least score, from what has been found so far.
-- `math.MaxInt32` stands for none found.
abbrev pub max_int32 : ℕ
max_int32 = 2147483647

unfoldable pub score : WorkerInfo → ℕ
score w = length w.caps + length w.groups

unfoldable pub best_of : ℕ → WorkerUuid → List WorkerInfo → ℕ × WorkerUuid
unfolding score
best_of best_score best [] = (best_score, best)
best_of best_score best (w ∷ ws) =
    let better = ltb (score w) best_score in
    best_of (if better then score w else best_score) (if better then w.worker_uuid else best) ws

-- checkPendingOperation empties the channel: the last state that was sent, if any was.
unfoldable pub check_pending_operation : List WorkerState → Option WorkerState
check_pending_operation [] = none
check_pending_operation (x ∷ []) = some x
check_pending_operation (x ∷ y ∷ l) = check_pending_operation (y ∷ l)

-- The `switch` of backgroundLoop: the states that start a long operation.
unfoldable pub long_operation : WorkerState → Option WorkerState
long_operation prepare = some prepare
long_operation busy = some busy
long_operation _ = none
