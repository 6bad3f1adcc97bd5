-- ===== src/Http/Calls.antt =====
-- The methods of the client that are about requests, against the calls of the server's collection.
use boruta.Common.{
  subst, ◌^◌, ◌<◌, ◌≡◌, refl, ap, ◌∙◌, Bool, Option, none, some, [], ◌∷◌, Text, Map, lookup, nat_eq,
  text_eq, ◌==◌, arith, Option-cases, Bool-cases, inl, inr,
}
use boruta.Types.{
  req_state_name, inprogress, req_state_eq, AccessInfo, ReqId, Priority, UserInfo, Capabilities,
  Time, ReqInfo, Result, ok, err, panic, blocked, ◌>>=◌,
}
use boruta.Std.{Std}
use boruta.Requests.{ReqsCollection, update_request, prolong_access, get_request, new_request}
use boruta.Server.{Server}
use boruta.Server.Api.{close_request, acquire_worker}
use boruta.Server.Invariant.{Inv}
use boruta.Requests.Running.{IsAssigned}
use boruta.Http.{
  Web, WebLaws, marshals, core, new_server_error, nothing, update, req_info, req_id, access,
  AccessInfo2, HttpResponse, new_response, bare_request, status_no_content, request_state_hdr,
  job_timeout_hdr, status_ok, status_created,
}
use boruta.Http.Handlers.{Clocks, done, answer}
use boruta.Http.Router.{payload_headers, serve, Route, post, get, route_methods, route_path}
use boruta.Http.Router
use boruta.Http.Client.{
  process_response, process_nil, Reply, received, transport, ◌>>-◌, client_close_request,
  client_update_request, client_prolong_access, client_get_request_info, client_new_request,
  client_acquire_worker, crashed, failed, returned, wrong_key, unmarshalling, of_server,
}
use boruta.Http.Panics.{fault_reason, marshal_fault}
use boruta.Http.Network.{network, network-routed, with_req_id-parsed, decoded-value, posted}
use boruta.Http.Exchange.{
  Agrees, AgreesBy, Sends, if_marshalled, handled-AgreesBy, handler_fault, panic_error, read_panic,
  answered_or_panic, handled-Agrees, read_error, told, told-Agrees, with_reqs, handled-Agrees, sent,
  answered_data, beside, answer-mapped, answer-mapped,
}

module _ ⦃web : Web⦄ where
  with_reqs-done :
      (s : Server) (m : Result ReqsCollection)
      → answer s m (λ d. ok (new_response nothing [], record s { reqs = d }))
        ≡ done s (with_reqs s m)
  with_reqs-done s (ok d) = refl
  with_reqs-done s (err e) = refl
  with_reqs-done s panic = refl
  with_reqs-done s blocked = refl

pub assigned-headers :
    ⦃web : Web⦄ (r : ReqInfo)
    → IsAssigned (some r)
    → (hdrs : Map Text Text) × (payload_headers (req_info r) ≡ ok hdrs)
unfolding payload_headers
assigned-headers ⦃web⦄ r h = elim (Bool-cases (r.state == inprogress)) [
  | inl e ↦ elim (Option-cases r.job) [
    | inl n ↦ absurd (h ((req_state_eq.beq_iff r.state inprogress).0 e) n)
    | inr (j, f) ↦ (
      (request_state_hdr, req_state_name r.state)
          ∷ (job_timeout_hdr, web.format_time j.timeout_at)
          ∷ [],
      rw (e, f) refl,
    )
  ]
  | inr e ↦ ((request_state_hdr, req_state_name r.state) ∷ [], rw e refl)
]

found-request :
    (s t : Server) (rid : ReqId) (r : ReqInfo)
    → beside s (get_request rid s.reqs) ≡ ok (r, t)
    → lookup rid s.reqs.requests ≡ some r
unfolding get_request
found-request s t rid r e = elim (Option-cases (lookup rid s.reqs.requests)) [
  | inl n ↦ ground (arith, e)
  | inr (q, f) ↦ ground (arith, e)
]

abbrev acquired : ⦃web : Web⦄ → AccessInfo → AccessInfo2
acquired ⦃web⦄ info = record {
  addr = info.addr;
  key = web.key_to_pem info.key;
  username = info.username;
}

abbrev unmarshal_found : ⦃web : Web⦄ → Text → Option (Option AccessInfo2)
unmarshal_found ⦃web⦄ b = elim (web.unmarshal_access b) [ none ↦ none | some a ↦ some (some a) ]

-- What AcquireWorker makes of a response.
abbrev read_access : ⦃web : Web⦄ → HttpResponse → Reply AccessInfo
read_access ⦃web⦄ resp = process_response none unmarshal_found resp >>- λ found. elim found [
  | none ↦ crashed
  | some a ↦ elim (web.key_of_pem a.key) [
    | none ↦ failed wrong_key
    | some key ↦ returned (record { addr = a.addr; key = key; username = a.username })
  ]
]

-- What NewRequest leaves, as a server.
abbrev pub entered : Server → Result (ReqId × ReqsCollection) → Result (ReqId × Server)
entered s m = m >>= λ (id, d). ok (id, record s { reqs = d })

module _ ⦃web : Web⦄ ⦃std : Std⦄ (laws : WebLaws web) where
  -- If what is marshalled and formatted can be read back, and the transport brings the client's
  -- CloseRequest, with an ID of 64 bits, to the route of that path and its answer back, then the
  -- server's answer and what the method returns agree with the call: a value of the call is
  -- returned and the server ends as the call leaves it, an error of the call is returned with the
  -- status that the server gives it and the server is as it was, where the call panics the method
  -- returns the error that panicHandler answers with, and where it waits the method fails for want
  -- of a response.
  pub client_close_request-Agrees :
      (rid : ReqId) (c : Clocks) (s : Server)
      → rid < 2 ^ 64
      → Agrees
          (told (close_request rid c.now s))
          s
          (serve Router.close_request c (record { id = web.format_uint rid; body = [] }) s)
          (client_close_request (network Router.close_request (web.format_uint rid) c s) rid)
  unfolding client_close_request serve Router.route_path Router.route_methods
  client_close_request-Agrees rid c s h =
      told-Agrees laws s (close_request rid c.now s) _ _
        (ap (sent laws status_no_content)
          (with_req_id-parsed (web.format_uint rid) [] s _ rid (laws.uint_back rid h)))
        (posted Router.close_request (web.format_uint rid) c s [] process_nil refl)

  -- If what is marshalled and formatted can be read back, and the transport brings the client's
  -- ProlongAccess, with an ID of 64 bits, to the route of that path and its answer back, then the
  -- server's answer and what the method returns agree with the call: a value of the call is
  -- returned and the server ends as the call leaves it, an error of the call is returned with the
  -- status that the server gives it and the server is as it was, and where the call panics or
  -- waits the method fails for want of a response.
  pub client_prolong_access-Agrees :
      (rid : ReqId) (c : Clocks) (s : Server)
      → rid < 2 ^ 64
      → Agrees
          (told (with_reqs s (prolong_access rid c.now s.reqs)))
          s
          (serve Router.prolong_access c (record { id = web.format_uint rid; body = [] }) s)
          (client_prolong_access (network Router.prolong_access (web.format_uint rid) c s) rid)
  unfolding client_prolong_access serve Router.route_path Router.route_methods
  client_prolong_access-Agrees rid c s h =
      told-Agrees laws s (with_reqs s (prolong_access rid c.now s.reqs)) _ _
        (ap (sent laws status_no_content) (
          with_req_id-parsed (web.format_uint rid) [] s _ rid (laws.uint_back rid h)
          ∙ with_reqs-done s (prolong_access rid c.now s.reqs)))
        (posted Router.prolong_access (web.format_uint rid) c s [] process_nil refl)

  -- If what is marshalled and formatted can be read back, and the transport brings the client's
  -- UpdateRequest, with an ID of 64 bits, to the route of that path and its answer back, then,
  -- where the times that the client sends can be marshalled, the server's answer and what the
  -- method returns agree with the call: a value of the call is returned and the server ends as the
  -- call leaves it, an error of the call is returned with the status that the server gives it and
  -- the server is as it was, where the call panics the method returns the error that panicHandler
  -- answers with, and where it waits the method fails for want of a response. Where they cannot be
  -- marshalled the method fails before it sends anything.
  pub client_update_request-Agrees :
      (r : ReqInfo) (c : Clocks) (s : Server)
      → r.id < 2 ^ 64
      → let reply =
          client_update_request
            (network Router.update_request (web.format_uint r.id) c s)
            (some r) in
        Sends (marshals (update r.priority r.deadline r.valid_after)) reply (
          Agrees
            (told (with_reqs s (update_request (some r) c.now s.reqs)))
            s
            (serve Router.update_request c
              (record {
                id = web.format_uint r.id;
                body = web.marshal (update r.priority r.deadline r.valid_after);
              })
              s)
            reply)
  unfolding client_update_request serve Router.route_path Router.route_methods
  client_update_request-Agrees r c s h =
      let body = update r.priority r.deadline r.valid_after in
      elim (Bool-cases (marshals body)) [
        | inl e ↦ rw e (
            told-Agrees laws s (with_reqs s (update_request (some r) c.now s.reqs)) _ _
              (ap (sent laws status_no_content) (
                with_req_id-parsed (web.format_uint r.id) (web.marshal body) s _ r.id
                  (laws.uint_back r.id h)
                ∙ decoded-value s _ _ (laws.decode_update r.priority r.deadline r.valid_after e)
                ∙ with_reqs-done s (update_request (some r) c.now s.reqs)))
              (posted Router.update_request (web.format_uint r.id) c s (web.marshal body)
                process_nil refl))
        | inr e ↦ rw e refl
      ]

  -- If what is marshalled can be read back, and the transport brings the client's NewRequest to
  -- the route of its path and its answer back, then, where the times that the client sends can be
  -- marshalled, for the call with the same arguments but a user with no groups, the server's
  -- answer and what the method returns agree with the call: a value of the call is returned and
  -- the server ends as the call leaves it, an error of the call is returned with the status that
  -- the server gives it and the server is as it was, where the call panics the method returns the
  -- error that panicHandler answers with, and where it waits the method fails for want of a
  -- response. Where they cannot be marshalled the method fails before it sends anything.
  pub client_new_request-Agrees :
      (caps : Capabilities) (priority : Priority) (owner : UserInfo) (valid_after deadline : Time)
      (c : Clocks) (s : Server)
      → let body = req_info (bare_request priority owner deadline valid_after caps) in
        let reply =
          client_new_request
            (network Router.new_request [] c s)
            caps
            priority
            owner
            valid_after
            deadline in
        Sends (marshals body) reply (
          Agrees
            (entered s (
              new_request caps priority
                (record { groups = [] })
                valid_after
                deadline
                c.now
                c.now_valid
                c.month_ahead
                s.reqs))
            s
            (serve Router.new_request c (record { id = []; body = web.marshal body }) s)
            reply)
  unfolding client_new_request serve Router.route_path Router.route_methods
  client_new_request-Agrees caps priority owner valid_after deadline c s =
      let body = req_info (bare_request priority owner deadline valid_after caps) in
      let m =
        new_request caps priority (record { groups = [] }) valid_after deadline c.now c.now_valid
          c.month_ahead s.reqs in
      elim (Bool-cases (marshals body)) [
        | inl f ↦ rw f (
            handled-Agrees laws status_created s (entered s m) (λ id. new_response (req_id id) [])
              (process_response 0 web.unmarshal_req_id) _ _
              (ap (sent laws status_created) (
                decoded-value s _ _
                  (laws.decode_request (bare_request priority owner deadline valid_after caps) f)
                ∙ answer-mapped s m (λ (id, d). (id, record s { reqs = d }))
                    (λ id. new_response (req_id id) [])))
              (posted Router.new_request [] c s (web.marshal body)
                (process_response 0 web.unmarshal_req_id) refl)
              (read_error laws 0 web.unmarshal_req_id)
              (read_panic 0 web.unmarshal_req_id handler_fault (omega arith))
              (λ id t e.
                answered_data laws status_created (req_id id) [] 0 web.unmarshal_req_id id refl refl
                  refl refl refl (laws.req_id_back id)))
        | inr f ↦ rw f refl
      ]

  -- If what is marshalled and formatted can be read back, the text of a panic is no JSON, the
  -- server has the invariant, and the transport brings the client's GetRequestInfo, with an ID of
  -- 64 bits, to the route of that path and its answer back, then the server's answer and what the
  -- method returns agree with the call: where the call returns a request the server is as it was,
  -- and the method returns the request if it can be marshalled, and otherwise fails to unmarshal
  -- the answer; an error of the call is returned with the status that the server gives it and the
  -- server is as it was; where the call panics the method returns the error that panicHandler
  -- answers with, and where it waits the method fails for want of a response.
  pub client_get_request_info-Agrees :
      {b : Bool} {s : Server}
      → Inv b s
      → (zero : ReqInfo) (rid : ReqId) (c : Clocks) → rid < 2 ^ 64
      → AgreesBy
          (λ r. if_marshalled (req_info r) unmarshalling r)
          (λ e. of_server (new_server_error (core e)))
          (panic_error handler_fault)
          (beside s (get_request rid s.reqs))
          s
          (serve Router.get_request_info c (record { id = web.format_uint rid; body = [] }) s)
          (client_get_request_info
            (network Router.get_request_info (web.format_uint rid) c s)
            zero
            rid)
  unfolding client_get_request_info serve Router.route_path Router.route_methods
  client_get_request_info-Agrees {s = s} v zero rid c h =
      handled-AgreesBy laws status_ok (λ r. if_marshalled (req_info r) unmarshalling r)
        (λ e. of_server (new_server_error (core e))) (panic_error handler_fault) s
        (beside s (get_request rid s.reqs)) (λ r. new_response (req_info r) [])
        (process_response zero web.unmarshal_req_info) _ _
        (ap (sent laws status_ok) (
          with_req_id-parsed (web.format_uint rid) [] s _ rid (laws.uint_back rid h)
          ∙ answer-mapped s (get_request rid s.reqs) (λ r. (r, s))
              (λ r. new_response (req_info r) [])))
        (ap (λ o. received o transport >>- process_response zero web.unmarshal_req_info)
          (network-routed Router.get_request_info (web.format_uint rid) c s get [] refl))
        (λ e. read_error laws zero web.unmarshal_req_info (core e))
        (read_panic zero web.unmarshal_req_info handler_fault (omega arith))
        (λ r t e.
          let (hdrs, eh) =
            assigned-headers r
              (subst IsAssigned (found-request s t rid r e) (v.jobs_match.assigned rid)) in
          answered_or_panic laws status_ok (req_info r) hdrs zero web.unmarshal_req_info r eh refl
            refl refl (laws.req_info_back r) (laws.req_info_none (fault_reason marshal_fault)))

  -- If what is marshalled and formatted can be read back, and the transport brings the client's
  -- AcquireWorker, with an ID of 64 bits, to the route of that path and its answer back, then the
  -- server's answer and what the method returns agree with the call: a value of the call is
  -- returned and the server ends as the call leaves it, an error of the call is returned with the
  -- status that the server gives it and the server is as it was, and where the call panics or
  -- waits the method fails for want of a response.
  pub client_acquire_worker-Agrees :
      (rid : ReqId) (c : Clocks) (s : Server)
      → rid < 2 ^ 64
      → Agrees
          (beside s (acquire_worker rid s))
          s
          (serve Router.acquire_worker c (record { id = web.format_uint rid; body = [] }) s)
          (client_acquire_worker (network Router.acquire_worker (web.format_uint rid) c s) rid)
  unfolding client_acquire_worker serve Router.route_path Router.route_methods
  client_acquire_worker-Agrees rid c s h =
      handled-Agrees laws status_ok s (beside s (acquire_worker rid s))
        (λ info. new_response (access (acquired info)) []) read_access _ _
        (ap (sent laws status_ok) (
          with_req_id-parsed (web.format_uint rid) [] s _ rid (laws.uint_back rid h)
          ∙ answer-mapped s (acquire_worker rid s) (λ info. (info, s))
              (λ info. new_response (access (acquired info)) [])))
        (posted Router.acquire_worker (web.format_uint rid) c s [] read_access refl)
        (λ e. rw (read_error laws none unmarshal_found e) refl)
        (rw (read_panic none unmarshal_found handler_fault (omega arith)) refl)
        (λ info t e.
          let (resp, er, got) =
            answered_data laws status_ok (access (acquired info)) [] none unmarshal_found
              (some (acquired info)) refl refl refl refl refl
              (rw (laws.access_back (acquired info), unmarshal_found) refl) in
          (resp, er, rw (got, laws.key_back info.key) refl))
