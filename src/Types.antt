-- ===== src/Types.antt =====
-- boruta.go, errors.go, requests/errors.go, workers/error.go, matcher/error.go: the data that the
-- packages share. A time.Time is the number of nanoseconds since the zero time, so `IsZero` is the
-- test against 0; ReqID and times are unbounded. An RSA key is stored and copied only, and stands
-- as a number.
use boruta.Common.{
  ℕ, ◌≡◌, ◌↔◌, Bool, true, false, Option, none, some, arith, List, Eq, Text, codes, Map, nat_beq,
}

pub data ReqState : Type 0 where
  wait inprogress cancel timeout invalid done failed : ReqState

-- The string that a state is.
unfoldable pub req_state_name : ReqState → Text
req_state_name wait = codes "WAITING"
req_state_name inprogress = codes "IN PROGRESS"
req_state_name cancel = codes "CANCELLED"
req_state_name timeout = codes "TIMEOUT"
req_state_name invalid = codes "INVALID"
req_state_name done = codes "DONE"
req_state_name failed = codes "FAILED"

pub data WorkerState : Type 0 where
  maintenance idle run fail prepare busy : WorkerState

unfoldable pub worker_state_name : WorkerState → Text
worker_state_name maintenance = codes "MAINTENANCE"
worker_state_name idle = codes "IDLE"
worker_state_name run = codes "RUNNING"
worker_state_name fail = codes "FAILED"
worker_state_name prepare = codes "PREPARE"
worker_state_name busy = codes "BUSY"

abbrev pub req_state_code : ReqState → ℕ
req_state_code wait = 0
req_state_code inprogress = 1
req_state_code cancel = 2
req_state_code timeout = 3
req_state_code invalid = 4
req_state_code done = 5
req_state_code failed = 6

abbrev pub req_state_beq : ReqState → ReqState → Bool
req_state_beq s t = nat_beq (req_state_code s) (req_state_code t)

pub req_state_beq_iff : (s t : ReqState) → (req_state_beq s t ≡ true) ↔ (s ≡ t)
req_state_beq_iff s t = ground arith

instance abbrev pub req_state_eq : Eq ReqState
req_state_eq = record { beq = req_state_beq; beq_iff = req_state_beq_iff }

abbrev pub worker_state_code : WorkerState → ℕ
worker_state_code maintenance = 0
worker_state_code idle = 1
worker_state_code run = 2
worker_state_code fail = 3
worker_state_code prepare = 4
worker_state_code busy = 5

abbrev pub worker_state_beq : WorkerState → WorkerState → Bool
worker_state_beq s t = nat_beq (worker_state_code s) (worker_state_code t)

pub worker_state_beq_iff : (s t : WorkerState) → (worker_state_beq s t ≡ true) ↔ (s ≡ t)
worker_state_beq_iff s t = ground arith

instance abbrev pub worker_state_eq : Eq WorkerState
worker_state_eq = record { beq = worker_state_beq; beq_iff = worker_state_beq_iff }

abbrev pub ReqId : Type 0
ReqId = ℕ

-- uint8
abbrev pub Priority : Type 0
Priority = ℕ

abbrev pub hi_prio : Priority
hi_prio = 1

abbrev pub lo_prio : Priority
lo_prio = 16

abbrev pub WorkerUuid : Type 0
WorkerUuid = Text

abbrev pub Time : Type 0
Time = ℕ

abbrev pub Capabilities : Type 0
Capabilities = Map Text Text

pub record UserInfo : Type 0 where
  pub groups : List Text

pub record JobInfo : Type 0 where
  pub worker_uuid : WorkerUuid
  pub timeout_at : Time

pub record ReqInfo : Type 0 where
  pub id : ReqId
  pub priority : Priority
  pub owner : UserInfo
  pub deadline : Time
  pub valid_after : Time
  pub state : ReqState
  pub job : Option JobInfo
  pub caps : Capabilities

pub record WorkerInfo : Type 0 where
  pub worker_uuid : WorkerUuid
  pub state : WorkerState
  pub groups : List Text
  pub caps : Capabilities

-- net.TCPAddr: a nil IP is `none`.
pub record TcpAddr : Type 0 where
  pub ip : Option Text
  pub port : ℕ

pub record AccessInfo : Type 0 where
  pub addr : TcpAddr
  pub key : ℕ
  pub username : Text

pub data Error : Type 0 where
  not_found : Text → Error
  internal_logic wrong_sort_item wrong_sort_order wrong_list_direction : Error
  priority_out_of_bounds invalid_time_range deadline_in_the_past worker_not_assigned : Error
  modification_forbidden missing_uuid in_maintenance not_in_fail_or_maintenance : Error
  wrong_state_argument forbidden_state_change no_matching_worker missing_ip missing_port : Error
  job_already_exists : Error
  -- an error of a package that is not the program's
  external : Error

-- A call returns a value, returns an error, panics, or waits at a full channel.
pub data Result {ℓ} (A : Type ℓ) : Type ℓ where
  ok : A → Result A
  err : Error → Result A
  panic blocked : Result A

infixl 5 ◌>>=◌ ◌>>◌
abbrev pub ◌>>=◌ {ℓ κ} : {X : Type ℓ} {Y : Type κ} → Result X → (X → Result Y) → Result Y
panic >>= next = panic
blocked >>= next = blocked
err e >>= next = err e
ok x >>= next = next x

abbrev pub or_fail {ℓ} : {A : Type ℓ} → Option A → Error → Result A
or_fail none e = err e
or_fail (some a) e = ok a

abbrev pub error_worker_not_found : Error
error_worker_not_found = not_found (codes "Worker")

abbrev pub ◌>>◌ {ℓ} : {B : Type ℓ} → Result (Unit {0}) → Result B → Result B
m >> k = m >>= λ _. k

-- `if b { return e }`
abbrev pub fail_if : Bool → Error → Result (Unit {0})
fail_if true e = err e
fail_if false e = ok tt
