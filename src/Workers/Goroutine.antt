-- ===== src/Workers/Goroutine.antt =====
-- workers/workers.go, the operations of a worker's goroutine one call after another: prepareKey,
-- prepareKeyAndSetState, putInMaintenance, putInMaintenanceWorker, checkPendingOperation and a pass of
-- backgroundLoop. What the calls give and what the channel holds at each check are those of one run
-- of an operation. Server/Background.antt puts what the operations do to the server together.
use boruta.Common.{
  ℕ, Bool, true, false, not, Option, none, some, List, [], ◌∷◌, ◌++◌, if◌then◌else◌, Text, codes,
}
use boruta.Types.{WorkerState, maintenance, idle, fail, TcpAddr}
use boruta.Workers.{long_operation}

-- A worker's channel: the states that wait in it, and whether it is closed.
pub record Channel : Type 0 where
  pub waiting : List WorkerState
  pub is_closed : Bool

-- The zero state is `none`.
pub record PendingOperation : Type 0 where
  pub state : Option WorkerState
  pub is_open : Bool
  pub got : Bool

abbrev pub none_pending : PendingOperation
none_pending = record { state = none; is_open = false; got = false }

-- The loop of checkPendingOperation.
unfoldable pub receive_all : List WorkerState → Bool → PendingOperation → PendingOperation
receive_all [] true op = record { state = none; is_open = false; got = true }
receive_all [] false op = op
receive_all (x ∷ l) is_closed op =
    receive_all l is_closed (record { state = some x; is_open = true; got = true })

-- checkPendingOperation, with a channel that may be closed.
unfoldable pub check_channel : Channel → PendingOperation
unfolding receive_all
check_channel c = receive_all c.waiting c.is_closed none_pending

-- One run of an operation: what its calls give, an error or a value, and the channel at the n-th check.
pub record Run : Type 0 where
  pub channel : ℕ → Channel
  pub addr : Option TcpAddr
  pub create_fails : TcpAddr → Bool
  pub generated : Option ℕ
  pub public_key : ℕ → Option ℕ
  pub prepare_fails : ℕ → Bool
  pub maintenance_fails : Text → Bool
  pub store_fails : ℕ → Bool

-- The calls to other parts: Create, Prepare, PutInMaintenance and Close of the client, and setWorkerKey.
pub data Action : Type 0 where
  creates : TcpAddr → Action
  prepares : ℕ → Action
  puts_in_maintenance : Text → Action
  stores : ℕ → Action
  closes : Action

-- What an operation returns, with the calls that it made.
pub record Done : Type 0 where
  pub op : PendingOperation
  pub has_error : Bool
  pub actions : List Action

-- `op = checkPendingOperation(bc.c)` before a return
abbrev pub returns : Run → ℕ → Bool → Done
returns r n has_error = record {
  op = check_channel (r.channel n);
  has_error = has_error;
  actions = [];
}

-- `if op = checkPendingOperation(bc.c); op.got { return }`
abbrev pub unless_pending : Run → ℕ → Done → Done
unless_pending r n rest = if (check_channel (r.channel n)).got then returns r n false else rest

abbrev pub doing : Action → Done → Done
doing a d = record d { actions = a ∷ d.actions }

-- `defer client.Close()`
abbrev pub with_client : Done → Done
with_client d = record d { actions = d.actions ++ closes ∷ [] }

-- setWorkerKey, the last call.
abbrev pub store_key_done : Run → ℕ → Done
store_key_done r key = doing (stores key) (returns r 6 (r.store_fails key))

abbrev pub install_done : Run → ℕ → ℕ → Done
install_done r key public =
    doing (prepares public) (
      if r.prepare_fails public
      then returns r 5 true
      else unless_pending r 5 (store_key_done r key))

abbrev pub with_public : Run → ℕ → Option ℕ → Done
with_public r key none = returns r 4 true
with_public r key (some public) = unless_pending r 4 (install_done r key public)

abbrev pub with_key : Run → Option ℕ → Done
with_key r none = returns r 3 true
with_key r (some key) = unless_pending r 3 (with_public r key (r.public_key key))

abbrev pub key_done : Run → Done
key_done r = with_key r r.generated

-- newDryadClient and what is done with the client.
abbrev pub client_done : Run → Done → TcpAddr → Done
client_done r rest addr =
    doing (creates addr)
      (if r.create_fails addr then returns r 2 true else with_client (unless_pending r 2 rest))

abbrev pub with_addr : Run → Done → Option TcpAddr → Done
with_addr r rest none = returns r 1 true
with_addr r rest (some addr) = unless_pending r 1 (client_done r rest addr)

abbrev pub addr_done : Run → Done → Done
addr_done r rest = with_addr r rest r.addr

unfoldable pub prepare_key : Run → Done
unfolding check_channel
prepare_key r = unless_pending r 0 (addr_done r (key_done r))

abbrev pub maintenance_text : Text
maintenance_text = codes "maintenance"

unfoldable pub put_in_maintenance : Run → Done
unfolding check_channel
put_in_maintenance r = unless_pending r 0 (
    addr_done r (
      doing (puts_in_maintenance maintenance_text)
        (returns r 3 (r.maintenance_fails maintenance_text))))

-- How the operation ends: it is abandoned for what is pending, or it sets the worker's state.
pub data Ending : Type 0 where
  abandons : PendingOperation → Ending
  sets : WorkerState → Ending

-- The end of both operations, with the check that the mutex protects.
unfoldable pub ending : Run → ℕ → WorkerState → Done → Ending
unfolding check_channel
ending r n state d =
    let last = check_channel (r.channel n) in
    if d.op.got
    then abandons d.op
    else if last.got
    then abandons last
    else sets (if d.has_error then fail else state)

unfoldable pub prepare_key_and_set_state : Run → Ending
unfolding prepare_key ending
prepare_key_and_set_state r = ending r 7 idle (prepare_key r)

unfoldable pub put_in_maintenance_worker : Run → Ending
unfolding put_in_maintenance ending
put_in_maintenance_worker r = ending r 4 maintenance (put_in_maintenance r)

-- A pass of backgroundLoop, after what was pending at the end of the last: the goroutine ends, waits
-- at the channel, or takes a state, which may start an operation.
pub data Pass : Type 0 where
  ends waits : Pass
  takes : Option WorkerState → Pass

-- `op.state, op.open = <-bc.c`
unfoldable pub receive_one : List WorkerState → Bool → Option PendingOperation
receive_one (x ∷ l) is_closed = some (record { state = some x; is_open = true; got = false })
receive_one [] true = some (record { state = none; is_open = false; got = false })
receive_one [] false = none

unfoldable pub take_state : PendingOperation → Pass
take_state op =
    if not op.is_open
    then ends
    else elim op.state [ none ↦ takes none | some x ↦ takes (long_operation x) ]

unfoldable pub loop_pass : PendingOperation → Channel → Pass
unfolding receive_one take_state
loop_pass op c =
    if op.got
    then take_state op
    else elim (receive_one c.waiting c.is_closed) [ none ↦ waits | some o ↦ take_state o ]
