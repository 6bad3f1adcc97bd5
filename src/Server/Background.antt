-- ===== src/Server/Background.antt =====
-- The background goroutine of a worker, workers/workers.go: backgroundLoop, checkPendingOperation and
-- what ends prepareKeyAndSetState and putInMaintenanceWorker, as the steps that it makes between two
-- waits. Dryad's part, which may fail, is the argument `failing`. A worker that was deregistered has
-- no goroutine: its channel is closed, and the loop ends there.
use boruta.Common.{ℕ, Bool, true, false, Option, none, some, List, [], ◌∷◌, if◌then◌else◌, text_eq}
use boruta.Types.{
  WorkerUuid, WorkerState, maintenance, idle, fail, prepare, busy, Time, Result, ok, ◌>>=◌,
}
use boruta.Std.{Std}
use boruta.Workers.{MapWorker, check_pending_operation, long_operation, find_worker, store_worker}
use boruta.Server.{Server, set_state}

-- The state that an operation ends in.
unfoldable pub operation_result : WorkerState → Bool → WorkerState
operation_result op true = fail
operation_result busy false = maintenance
operation_result _ false = idle

unfoldable pub store_in : WorkerUuid → MapWorker → Server → Server
store_in uuid w s = record s { workers = store_worker uuid w s.workers }

-- The goroutine, if it waits, takes a state from the channel.
unfoldable pub receive_next :
    Option WorkerState → List WorkerState → WorkerUuid → MapWorker → Server → Server
unfolding store_worker store_in long_operation
receive_next none (x ∷ l) uuid w s =
    store_in uuid (record w { background_operation = l; background = long_operation x }) s
receive_next _ _ uuid w s = s

unfoldable pub receive : WorkerUuid → Server → Result Server
unfolding find_worker receive_next
receive uuid s = do
  w ← find_worker uuid s.workers
  ok (receive_next w.background w.background_operation uuid w s)

-- setWorkerKey, in prepareKey.
unfoldable pub keyed_worker : Option WorkerState → ℕ → MapWorker → MapWorker
keyed_worker (some prepare) key w = record w { key = some key }
keyed_worker _ key w = w

unfoldable pub store_key : WorkerUuid → ℕ → Server → Result Server
unfolding find_worker store_worker store_in keyed_worker
store_key uuid key s = do
  w ← find_worker uuid s.workers
  ok (store_in uuid (keyed_worker w.background key w) s)

-- prepareKey has no error only once it has stored a key.
unfoldable pub is_ready : WorkerState → Option ℕ → Bool → Bool
is_ready prepare none false = false
is_ready _ key failing = true

-- The end of the operation, in the critical section: a state that is pending takes its place, and
-- else its result is set.
module _ ⦃std : Std⦄ where
  unfoldable pub end_with :
      Option WorkerState
      → Option WorkerState
      → WorkerUuid
      → MapWorker
      → Bool
      → Time
      → Server
      → Result Server
  unfolding store_worker store_in long_operation operation_result is_ready set_state
  end_with none pending uuid w failing now s = ok s
  end_with (some op) (some x) uuid w failing now s =
      ok (store_in uuid (record w { background_operation = []; background = long_operation x }) s)
  end_with (some op) none uuid w failing now s =
      if is_ready op w.key failing
      then set_state uuid (operation_result op failing) now
          (store_in uuid (record w { background = none }) s)
      else ok s

  unfoldable pub end_operation : WorkerUuid → Bool → Time → Server → Result Server
  unfolding find_worker check_pending_operation end_with
  end_operation uuid failing now s = do
    w ← find_worker uuid s.workers
    end_with w.background (check_pending_operation w.background_operation) uuid w failing now s
