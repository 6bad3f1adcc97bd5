-- ===== src/Http/Client.antt =====
-- http/client/client.go: BorutaClient. `send` is the transport of net/http, which gives no response
-- where it fails; a path is what follows the URL of the API, without the parts of a request that the
-- server does not read. A body that the client reads is there: ioutil.ReadAll does not fail.
use boruta.Common.{
  ℕ, ◌++◌, not, Option, none, some, List, [], Text, codes, Map, lookup, nat_beq, leb, text_eq, ◌==◌,
  if◌then◌else◌,
}
use boruta.Types.{
  ReqId, Priority, WorkerUuid, WorkerState, inprogress, req_state_name, Time, Capabilities,
  UserInfo, ReqInfo, WorkerInfo, AccessInfo,
}
use boruta.Lists.{ListInfo, SortInfo, RequestsPaginator, WorkersPaginator}
use boruta.Filter
use boruta.Http.{
  Web, Payload, marshals, bare_request, req_info, update, requests_spec, workers_spec, worker_state,
  groups, ServerError, BorutaVersion, HttpResponse, status_no_content, status_bad_request,
  list_total_items_hdr, list_remaining_items_hdr, request_state_hdr, job_timeout_hdr,
  worker_state_hdr, server_version_hdr, api_version_hdr, api_state_hdr, content_type_hdr,
}
use boruta.Http.Router.{Method, get, head, post, content_type}

pub record HttpCall : Type 0 where
  pub method : Method
  pub path : Text
  pub body : Text

-- Version: that of the client's package, and what the server says of itself.
pub record ClientVersion : Type 0 where
  pub client : Text
  pub boruta_version : BorutaVersion

pub data ClientError : Type 0 where
  transport not_marshalled unmarshalling wrong_key nil_req_info not_in_progress bad_time :
      ClientError
  of_server : ServerError → ClientError
  bad_status : ℕ → ClientError
  missing_header bad_header : Text → ClientError

-- What a method of the client returns. `crashed` is a nil pointer that is read.
pub data Reply {ℓ} (A : Type ℓ) : Type ℓ where
  returned : A → Reply A
  failed : ClientError → Reply A
  crashed : Reply A

infixl 5 ◌>>-◌
abbrev pub ◌>>-◌ {ℓ κ} : {X : Type ℓ} {Y : Type κ} → Reply X → (X → Reply Y) → Reply Y
returned x >>- next = next x
failed e >>- next = failed e
crashed >>- next = crashed

abbrev pub received {ℓ} : {A : Type ℓ} → Option A → ClientError → Reply A
received none e = failed e
received (some a) e = returned a

-- Header.Get: the empty text, if there is no such header.
abbrev pub or_empty : Option Text → Text
or_empty none = []
or_empty (some t) = t

module _ ⦃web : Web⦄ where
  -- getServerError, of a status that is an error's.
  unfoldable pub get_server_error : HttpResponse → ClientError
  get_server_error resp =
      if or_empty (lookup content_type_hdr resp.headers) == content_type
      then elim (web.unmarshal_error resp.body) [
        | none ↦ unmarshalling
        | some msg ↦ of_server (record { err = msg; status = resp.status })
      ]
      else of_server (record { err = resp.body; status = resp.status })

  -- processResponse. `zero` is the zero value; with no value to set, `unmarshal` gives nothing, since
  -- json.Unmarshal into nil is an error.
  unfoldable pub process_response {ℓ} :
      {A : Type ℓ} → A → (Text → Option A) → HttpResponse → Reply A
  unfolding get_server_error
  process_response zero unmarshal resp =
      if nat_beq resp.status status_no_content
      then returned zero
      else (if leb status_bad_request resp.status
          then failed (get_server_error resp)
          else received (unmarshal resp.body) unmarshalling)

  -- processResponse(resp, nil)
  abbrev pub process_nil : HttpResponse → Reply (Unit {0})
  process_nil = process_response tt (λ _. none)

  -- One header of listInfoFromHeaders.
  unfoldable pub uint_header : Text → Map Text Text → Reply ℕ
  uint_header key hdr = received (lookup key hdr) (missing_header key) >>- λ v.
      received (web.scan_uint v) (bad_header key)

  unfoldable pub list_info_from_headers : Map Text Text → Reply ListInfo
  unfolding uint_header
  list_info_from_headers hdr = uint_header list_total_items_hdr hdr >>- λ total.
      uint_header list_remaining_items_hdr hdr >>- λ remaining.
      returned (record { total_items = total; remaining_items = remaining })

  unfoldable pub check_status : ℕ → HttpResponse → Reply (Unit {0})
  check_status should_be resp =
      if nat_beq resp.status should_be then returned tt else failed (bad_status resp.status)

  -- json.Marshal of what the client sends.
  abbrev marshalled : Payload → Reply Text
  marshalled body = if marshals body then returned (web.marshal body) else failed not_marshalled

  module _ (send : HttpCall → Option HttpResponse) where
    abbrev post_to : Text → Text → Reply HttpResponse
    post_to path body =
        received (send (record { method = post; path = path; body = body })) transport

    abbrev get_from : Text → Reply HttpResponse
    get_from path = received (send (record { method = get; path = path; body = [] })) transport

    abbrev pub req_path : ReqId → Text
    req_path rid = codes "reqs/" ++ web.format_uint rid

    abbrev pub worker_path : WorkerUuid → Text
    worker_path uuid = codes "workers/" ++ uuid

    unfoldable pub get_headers : Text → Reply (Map Text Text)
    unfolding check_status
    get_headers path =
        received (send (record { method = head; path = path; body = [] })) transport >>- λ resp.
        check_status status_no_content resp >>- λ _. returned resp.headers

    unfoldable pub client_new_request :
        Capabilities → Priority → UserInfo → (valid_after deadline : Time) → Reply ReqId
    unfolding process_response
    client_new_request caps priority owner valid_after deadline =
        marshalled (req_info (bare_request priority owner deadline valid_after caps)) >>- λ body.
        post_to (codes "reqs/") body >>- λ resp. process_response 0 web.unmarshal_req_id resp

    unfoldable pub client_close_request : ReqId → Reply (Unit {0})
    unfolding process_response
    client_close_request rid = post_to (req_path rid ++ codes "/close") [] >>- process_nil

    unfoldable pub client_update_request : Option ReqInfo → Reply (Unit {0})
    unfolding process_response
    client_update_request none = failed nil_req_info
    client_update_request (some r) =
        marshalled (update r.priority r.deadline r.valid_after) >>- λ body.
        post_to (req_path r.id) body >>- process_nil

    unfoldable pub client_get_request_info : ReqInfo → ReqId → Reply ReqInfo
    unfolding process_response
    client_get_request_info zero rid =
        get_from (req_path rid) >>- process_response zero web.unmarshal_req_info

    unfoldable pub client_list_requests :
        Option Filter.Requests
        → Option SortInfo
        → Option RequestsPaginator
        → Reply (List ReqInfo × ListInfo)
    unfolding process_response list_info_from_headers
    client_list_requests f s p =
        marshalled (requests_spec (record { filter = f; sorter = s; paginator = p })) >>- λ body.
        post_to (codes "reqs/list") body >>- λ resp. list_info_from_headers resp.headers >>- λ info.
        process_response [] web.unmarshal_req_infos resp >>- λ list. returned (list, info)

    unfoldable pub client_acquire_worker : ReqId → Reply AccessInfo
    unfolding process_response
    client_acquire_worker rid = post_to (req_path rid ++ codes "/acquire_worker") [] >>- λ resp.
        process_response none
          (λ b. elim (web.unmarshal_access b) [ none ↦ none | some a ↦ some (some a) ]) resp
        >>- λ found. elim found [
          | none ↦ crashed
          | some a ↦ elim (web.key_of_pem a.key) [
            | none ↦ failed wrong_key
            | some key ↦ returned (record { addr = a.addr; key = key; username = a.username })
          ]
        ]

    unfoldable pub client_prolong_access : ReqId → Reply (Unit {0})
    unfolding process_response
    client_prolong_access rid = post_to (req_path rid ++ codes "/prolong") [] >>- process_nil

    unfoldable pub client_list_workers :
        Option Filter.Workers
        → Option SortInfo
        → Option WorkersPaginator
        → Reply (List WorkerInfo × ListInfo)
    unfolding process_response list_info_from_headers
    client_list_workers f s p =
        marshalled (workers_spec (record { filter = f; sorter = s; paginator = p })) >>- λ body.
        post_to (codes "workers/list") body >>- λ resp.
        list_info_from_headers resp.headers >>- λ info.
        process_response [] web.unmarshal_worker_infos resp >>- λ list. returned (list, info)

    unfoldable pub client_get_worker_info : WorkerInfo → WorkerUuid → Reply WorkerInfo
    unfolding process_response
    client_get_worker_info zero uuid =
        get_from (worker_path uuid) >>- process_response zero web.unmarshal_worker_info

    unfoldable pub client_set_state : WorkerUuid → WorkerState → Reply (Unit {0})
    unfolding process_response
    client_set_state uuid state = marshalled (worker_state state) >>- λ body.
        post_to (worker_path uuid ++ codes "/setstate") body >>- process_nil

    unfoldable pub client_set_groups : WorkerUuid → List Text → Reply (Unit {0})
    unfolding process_response
    client_set_groups uuid l = marshalled (groups l) >>- λ body.
        post_to (worker_path uuid ++ codes "/setgroups") body >>- process_nil

    unfoldable pub client_deregister : WorkerUuid → Reply (Unit {0})
    unfolding process_response
    client_deregister uuid = post_to (worker_path uuid ++ codes "/deregister") [] >>- process_nil

    -- The state is the text of a header.
    unfoldable pub get_request_state : ReqId → Reply Text
    unfolding get_headers
    get_request_state rid =
        get_headers (req_path rid) >>- λ hdr. returned (or_empty (lookup request_state_hdr hdr))

    unfoldable pub get_worker_state : WorkerUuid → Reply Text
    unfolding get_headers
    get_worker_state uuid =
        get_headers (worker_path uuid) >>- λ hdr. returned (or_empty (lookup worker_state_hdr hdr))

    unfoldable pub get_job_timeout : ReqId → Reply Time
    unfolding get_headers req_state_name
    get_job_timeout rid = get_headers (req_path rid) >>- λ hdr.
        if not (or_empty (lookup request_state_hdr hdr) == req_state_name inprogress)
        then failed not_in_progress
        else received (web.parse_time (or_empty (lookup job_timeout_hdr hdr))) bad_time

    unfoldable pub client_version : Reply ClientVersion
    unfolding get_headers
    client_version = get_headers (codes "/version") >>- λ hdr. returned (record {
      client = codes "0.2.1";
      boruta_version = record {
        server = or_empty (lookup server_version_hdr hdr);
        api = or_empty (lookup api_version_hdr hdr);
        state = or_empty (lookup api_state_hdr hdr);
      };
    })
