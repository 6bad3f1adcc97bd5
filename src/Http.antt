-- ===== src/Http.antt =====
-- http/http.go, http/error.go: what the server and the client of the HTTP API share. A body is the
-- text that encoding/json makes; headers are a map. `Web` is what the API takes from the standard
-- library.
pub mod Panics
pub mod Handlers
pub mod Router
pub mod Client
pub mod Exchange
pub mod Network
pub mod Heads
pub mod RoundTrip
pub mod Calls
pub mod WorkerCalls
pub mod Listing
pub mod Answers
pub mod Safe
mod Versions
use boruta.Common.{
  ℕ, ◌&&◌, ◌^◌, ◌++◌, ◌≡◌, ◌<◌, Bool, true, false, Option, none, some, List, [], ◌∷◌, Text, codes,
  Map,
}
use boruta.Types.{
  UserInfo, JobInfo, ReqId, Priority, WorkerUuid, WorkerState, Time, Capabilities, ReqInfo,
  WorkerInfo, AccessInfo, TcpAddr, Error, not_found, internal_logic, wrong_sort_item,
  wrong_sort_order, wrong_list_direction, priority_out_of_bounds, invalid_time_range,
  deadline_in_the_past, worker_not_assigned, modification_forbidden, missing_uuid, in_maintenance,
  not_in_fail_or_maintenance, wrong_state_argument, forbidden_state_change, no_matching_worker,
  missing_ip, missing_port, job_already_exists, external, ReqState,
}
use boruta.Lists.{SortInfo, RequestsPaginator, WorkersPaginator}
use boruta.Filter

-- net/http: the codes of a status.
abbrev pub status_ok : ℕ
status_ok = 200

abbrev pub status_created : ℕ
status_created = 201

abbrev pub status_accepted : ℕ
status_accepted = 202

abbrev pub status_no_content : ℕ
status_no_content = 204

abbrev pub status_bad_request : ℕ
status_bad_request = 400

abbrev pub status_not_found : ℕ
status_not_found = 404

abbrev pub status_internal_server_error : ℕ
status_internal_server_error = 500

abbrev pub status_not_implemented : ℕ
status_not_implemented = 501

abbrev pub list_total_items_hdr : Text
list_total_items_hdr = codes "Boruta-List-Total"

abbrev pub list_remaining_items_hdr : Text
list_remaining_items_hdr = codes "Boruta-List-Remaining"

abbrev pub list_batch_size_hdr : Text
list_batch_size_hdr = codes "Boruta-List-Batch-Size"

abbrev pub request_state_hdr : Text
request_state_hdr = codes "Boruta-Request-State"

abbrev pub job_timeout_hdr : Text
job_timeout_hdr = codes "Boruta-Job-Timeout"

abbrev pub worker_state_hdr : Text
worker_state_hdr = codes "Boruta-Worker-State"

abbrev pub server_version_hdr : Text
server_version_hdr = codes "Boruta-Server-Version"

abbrev pub api_version_hdr : Text
api_version_hdr = codes "Boruta-Api-Version"

abbrev pub api_state_hdr : Text
api_state_hdr = codes "Boruta-Api-State"

abbrev pub content_type_hdr : Text
content_type_hdr = codes "Content-Type"

pub record RequestsListSpec : Type 0 where
  pub filter : Option Filter.Requests
  pub sorter : Option SortInfo
  pub paginator : Option RequestsPaginator

pub record WorkersListSpec : Type 0 where
  pub filter : Option Filter.Workers
  pub sorter : Option SortInfo
  pub paginator : Option WorkersPaginator

pub record AccessInfo2 : Type 0 where
  pub addr : TcpAddr
  pub key : Text
  pub username : Text

pub record BorutaVersion : Type 0 where
  pub server : Text
  pub api : Text
  pub state : Text

pub record ServerError : Type 0 where
  pub err : Text
  pub status : ℕ

-- The errors that a handler may answer with: those of the server's parts, those of package http, and
-- those of encoding/json.
pub data HttpError : Type 0 where
  core : Error → HttpError
  not_implemented internal_server_error bad_request bad_id bad_uuid id_mismatch eof : HttpError
  malformed : Text → HttpError

-- What is marshalled: the data of a response, and the bodies that the client sends.
pub data Payload : Type 0 where
  nothing : Payload
  server_error : ServerError → Payload
  req_id : ReqId → Payload
  req_info : ReqInfo → Payload
  req_infos : List ReqInfo → Payload
  access : AccessInfo2 → Payload
  worker_info : WorkerInfo → Payload
  worker_infos : List WorkerInfo → Payload
  version : BorutaVersion → Payload
  -- the fields of a request that the client wants changed
  update : (priority : Priority) (deadline valid_after : Time) → Payload
  requests_spec : RequestsListSpec → Payload
  workers_spec : WorkersListSpec → Payload
  worker_state : WorkerState → Payload
  groups : List Text → Payload

pub record Response : Type 0 where
  pub payload : Payload
  pub headers : Map Text Text

pub record HttpResponse : Type 0 where
  pub status : ℕ
  pub headers : Map Text Text
  pub body : Text

-- What json.NewDecoder(body).Decode gives.
pub data Decoded {ℓ} (A : Type ℓ) : Type ℓ where
  value : A → Decoded A
  no_body : Decoded A
  not_json : Text → Decoded A

pub record Web : Type 0 where
  -- encoding/json: Marshal, the decoder of the server's handlers, and Unmarshal of the client
  pub marshal : Payload → Text
  -- MarshalJSON of a time, which is one in UTC here, fails on one whose year has more than four
  -- digits, with this text
  pub can_marshal_time : Time → Bool
  pub time_error_text : Text
  pub decode_req_info : Text → Decoded ReqInfo
  pub decode_requests_spec : Text → Decoded RequestsListSpec
  pub decode_workers_spec : Text → Decoded WorkersListSpec
  pub decode_state : Text → Decoded WorkerState
  pub decode_groups : Text → Decoded (List Text)
  pub unmarshal_error : Text → Option Text
  pub unmarshal_req_id : Text → Option ReqId
  pub unmarshal_req_info : Text → Option ReqInfo
  pub unmarshal_req_infos : Text → Option (List ReqInfo)
  pub unmarshal_access : Text → Option AccessInfo2
  pub unmarshal_worker_info : Text → Option WorkerInfo
  pub unmarshal_worker_infos : Text → Option (List WorkerInfo)
  -- strconv.ParseUint(s, 10, 64), fmt.Sscanf(s, "%d", &n), strconv.FormatUint(n, 10)
  pub parse_uint : Text → Option ℕ
  pub scan_uint : Text → Option ℕ
  pub format_uint : ℕ → Text
  -- encoding/pem and crypto/x509, in both directions
  pub key_to_pem : ℕ → Text
  pub key_of_pem : Text → Option ℕ
  -- Format and Parse of a time, by time.RFC3339
  pub format_time : Time → Text
  pub parse_time : Text → Option Time
  -- what the empty text stands as that is the state of a request with no state
  pub no_state : ReqState
  -- the text of an error that is not the program's
  pub external_text : Text
  -- what a runtime error of a handler is printed as
  pub fault_text : Text

module _ ⦃web : Web⦄ where
  abbrev marshals_job : Option JobInfo → Bool
  marshals_job none = true
  marshals_job (some j) = web.can_marshal_time j.timeout_at

  abbrev marshals_request : ReqInfo → Bool
  marshals_request r =
      web.can_marshal_time r.deadline && web.can_marshal_time r.valid_after && marshals_job r.job

  abbrev marshals_requests : List ReqInfo → Bool
  marshals_requests [] = true
  marshals_requests (r ∷ l) = marshals_request r && marshals_requests l

  -- json.Marshal fails on what has a time that it fails on, and on nothing else that is sent.
  abbrev pub marshals : Payload → Bool
  marshals (req_info r) = marshals_request r
  marshals (req_infos l) = marshals_requests l
  marshals (update p d v) = web.can_marshal_time d && web.can_marshal_time v
  marshals _ = true

-- The text of an error of the program's parts.
unfoldable pub error_text : ⦃web : Web⦄ → Error → Text
error_text (not_found what) = what ++ codes " not found"
error_text internal_logic = codes "Boruta's internal logic error"
error_text wrong_sort_item = codes "unknown name of item by which list should be sorted"
error_text wrong_sort_order = codes "unknown sort order (valid: ascending or descending)"
error_text wrong_list_direction = codes "unknown direction (valid: forward or backward)"
error_text priority_out_of_bounds = codes "requested priority out of bounds"
error_text invalid_time_range =
    codes "requested time range illegal - ValidAfter must be before Deadline"
error_text deadline_in_the_past = codes "deadline in the past"
error_text worker_not_assigned = codes "worker not assigned"
error_text modification_forbidden = codes "action cannot be executed in current state"
error_text missing_uuid = codes "Capabilities are missing UUID entry"
error_text in_maintenance =
    codes "It is forbidden to set FAIL state when Worker is in MAINTENANCE state"
error_text not_in_fail_or_maintenance = codes "Worker is not in FAIL or MAINTENANCE state"
error_text wrong_state_argument = codes "Only state changes to IDLE and MAINTENANCE are allowed"
error_text forbidden_state_change = codes "Invalid state transition was requested"
error_text no_matching_worker = codes "No matching worker"
error_text missing_ip = codes "IP address is missing from address"
error_text missing_port = codes "Port is missing from address"
error_text job_already_exists = codes "job already exists"
error_text ⦃web⦄ external = web.external_text

unfoldable pub http_error_text : ⦃web : Web⦄ → HttpError → Text
unfolding error_text
http_error_text (core e) = error_text e
http_error_text not_implemented = codes "not implemented yet"
http_error_text internal_server_error = codes "internal server error"
http_error_text bad_request = codes "invalid request"
http_error_text bad_id = codes "ID provided in URL isn't valid"
http_error_text bad_uuid = codes "ID provided in URL isn't valid UUID"
http_error_text id_mismatch = codes "request ID set in JSON doesn't match ID from URL"
http_error_text eof = codes "EOF"
http_error_text (malformed t) = t

-- The text in front of an error that has no status of its own.
abbrev pub as_bad_request : Text → Text
as_bad_request t = codes "invalid request" ++ codes ": " ++ t

-- NewServerError, with no details.
unfoldable pub new_server_error : ⦃web : Web⦄ → HttpError → ServerError
unfolding http_error_text
new_server_error (core (not_found what)) = record {
  err = http_error_text (core (not_found what));
  status = status_not_found;
}
new_server_error not_implemented = record {
  err = http_error_text not_implemented;
  status = status_not_implemented;
}
new_server_error internal_server_error = record {
  err = http_error_text internal_server_error;
  status = status_internal_server_error;
}
new_server_error bad_request = record {
  err = http_error_text bad_request;
  status = status_bad_request;
}
new_server_error eof = record {
  err = codes "no body provided in HTTP request";
  status = status_bad_request;
}
new_server_error e = record {
  err = as_bad_request (http_error_text e);
  status = status_bad_request;
}

-- NewResponse, of an error and of other data.
unfoldable pub error_response : ⦃web : Web⦄ → HttpError → Response
unfolding new_server_error
error_response e = record { payload = server_error (new_server_error e); headers = [] }

unfoldable pub new_response : Payload → Map Text Text → Response
new_response payload headers = record { payload = payload; headers = headers }

-- What the client sends of a request, or the server reads of it: what is left out is zero.
abbrev pub bare_request :
    ⦃web : Web⦄ → Priority → UserInfo → (deadline valid_after : Time) → Capabilities → ReqInfo
bare_request ⦃web⦄ priority owner deadline valid_after caps = record {
  id = 0;
  priority = priority;
  owner = owner;
  deadline = deadline;
  valid_after = valid_after;
  state = web.no_state;
  job = none;
  caps = caps;
}

-- What is marshalled can be read back, and the text of a panic is no JSON; of an update, what is left out is zero. A number that has been
-- formatted can be read back if it has 64 bits.
pub record WebLaws (web : Web) : Type 0 where
  pub error_back :
      (e : ServerError) → web.unmarshal_error (web.marshal (server_error e)) ≡ some e.err
  pub req_id_back : (id : ReqId) → web.unmarshal_req_id (web.marshal (req_id id)) ≡ some id
  pub req_info_back :
      (r : ReqInfo)
      → marshals ⦃web = web⦄ (req_info r) ≡ true
      → web.unmarshal_req_info (web.marshal (req_info r)) ≡ some r
  pub req_info_none :
      (t : Text) → web.unmarshal_req_info (codes "Internal Server Error:" ++ 10 ∷ t) ≡ none
  pub access_back : (a : AccessInfo2) → web.unmarshal_access (web.marshal (access a)) ≡ some a
  pub worker_info_back :
      (w : WorkerInfo) → web.unmarshal_worker_info (web.marshal (worker_info w)) ≡ some w
  pub decode_request :
      (r : ReqInfo)
      → marshals ⦃web = web⦄ (req_info r) ≡ true
      → web.decode_req_info (web.marshal (req_info r)) ≡ value r
  pub decode_update :
      (p : Priority) (d v : Time)
      → marshals ⦃web = web⦄ (update p d v) ≡ true
      → web.decode_req_info (web.marshal (update p d v))
        ≡ value (bare_request ⦃web = web⦄ p (record { groups = [] }) d v [])
  pub decode_groups_back : (l : List Text) → web.decode_groups (web.marshal (groups l)) ≡ value l
  pub decode_state_back :
      (x : WorkerState) → web.decode_state (web.marshal (worker_state x)) ≡ value x
  pub uint_back : (n : ℕ) → n < 2 ^ 64 → web.parse_uint (web.format_uint n) ≡ some n
  pub key_back : (k : ℕ) → web.key_of_pem (web.key_to_pem k) ≡ some k
