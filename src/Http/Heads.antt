-- ===== src/Http/Heads.antt =====
-- What getHeaders of the client makes of the answers to HEAD.
use boruta.Common.{
  Map, text_eq, ◌==◌, ◌++◌, ◌≡◌, refl, true, false, Option, [], Text, nat_beq, Bool-cases,
  Option-cases, inl, inr, nat_eq,
}
use boruta.Types.{Result, ok, err, panic, blocked, ◌>>=◌, ReqId, WorkerUuid}
use boruta.Std.{Std}
use boruta.Requests.{get_request}
use boruta.Workers.{get_worker_info}
use boruta.Server.{Server}
use boruta.Http.{
  Web, Payload, worker_info, req_info, worker_infos, Response, HttpResponse, new_response,
  error_response, status_no_content, status_ok, status_internal_server_error, core, bad_id,
  bad_uuid, malformed, HttpError, Decoded, value, no_body, not_json,
}
use boruta.Http.Handlers.{
  HttpRequest, Clocks, Answer, answer, with_uuid, with_req_id, is_valid_uuid, decoded_or, fail_with,
  list_headers,
}
use boruta.Http.Router.{
  handle, respond, payload_headers, route_path, response_status, serve, Route, head, route_methods,
  route_success,
}
use boruta.Http.Router
use boruta.Http.Client.{
  ClientError, failed, returned, Reply, received, transport, bad_status, ◌>>-◌, get_headers,
  check_status,
}
use boruta.Http.Panics.{panic_handler}
use boruta.Http.Network.{network, has_method}
use boruta.Http.Exchange.{answered, error_status}

module _ ⦃web : Web⦄ where
  abbrev Filled : Answer → Type 0
  Filled (ok (response, t)) =
      nat_beq (response_status status_ok response.payload) status_no_content ≡ false
  Filled _ = Unit

  -- The answer has a body.
  record HasBody (a : Answer) : Type 0 where
    filled : Filled a

  error-HasBody : (s : Server) (e : HttpError) → HasBody (fail_with s e)
  unfolding error_response response_status
  error-HasBody s e = record { filled = (error_status e).1 }

  shown-HasBody :
      {A : Type 0} (s : Server) (m : Result A) (k : A → Response)
      → ((a : A) → nat_beq (response_status status_ok (k a).payload) status_no_content ≡ false)
      → HasBody (answer s m (λ a. ok (k a, s)))
  shown-HasBody s (ok a) k h = record { filled = h a }
  shown-HasBody s (err e) k h = error-HasBody s (core e)
  shown-HasBody s panic k h = record { filled = tt }
  shown-HasBody s blocked k h = record { filled = tt }

  with_uuid-HasBody :
      (r : HttpRequest) (s : Server) (k : WorkerUuid → Answer)
      → ((id : WorkerUuid) → HasBody (k id))
      → HasBody (with_uuid r s k)
  with_uuid-HasBody r s k h = elim (Bool-cases (is_valid_uuid r.id)) [
    | inl e ↦ rw (e, with_uuid) (h r.id)
    | inr e ↦ rw (e, with_uuid) (error-HasBody s bad_uuid)
  ]

  with_req_id-HasBody :
      (r : HttpRequest) (s : Server) (k : ReqId → Answer)
      → ((id : ReqId) → HasBody (k id))
      → HasBody (with_req_id r s k)
  with_req_id-HasBody r s k h = elim (Option-cases (web.parse_uint r.id)) [
    | inl e ↦ rw (e, with_req_id) (error-HasBody s bad_id)
    | inr (id, e) ↦ rw (e, with_req_id) (h id)
  ]

  decoded_or-HasBody :
      {A : Type 0} (s : Server) (a : A) (m : Decoded A) (k : A → Answer)
      → ((b : A) → HasBody (k b))
      → HasBody (decoded_or s a m k)
  decoded_or-HasBody s a (value b) k h = h b
  decoded_or-HasBody s a no_body k h = h a
  decoded_or-HasBody s a (not_json t) k h = error-HasBody s (malformed t)

  module _ ⦃std : Std⦄ where
    handle-HasBody :
        (route : Route) (c : Clocks) (r : HttpRequest) (s : Server)
        → has_method head (route_methods route) ≡ true
        → HasBody (handle route c r s)
    unfolding handle route_methods new_response response_status
    handle-HasBody Router.get_request_info c r s h = with_req_id-HasBody r s _ λ rid.
        shown-HasBody s (get_request rid s.reqs) (λ info. new_response (req_info info) [])
          λ info. refl
    handle-HasBody Router.get_worker_info c r s h =
        with_uuid-HasBody r s
          (λ uuid.
            answer s (get_worker_info uuid s.workers)
              (λ info. ok (new_response (worker_info info) [], s)))
          λ uuid.
            shown-HasBody s (get_worker_info uuid s.workers)
              (λ info. new_response (worker_info info) []) λ info. refl
    handle-HasBody Router.all_workers c r s h =
        decoded_or-HasBody s _ (web.decode_workers_spec r.body) _ λ spec.
          shown-HasBody s _ (λ p. new_response (worker_infos p.0) (list_headers p.1)) λ p. refl
    handle-HasBody Router.version_of c r s h = record { filled = refl }
    handle-HasBody _ c r s h = cc

    head-success :
        (route : Route)
        → has_method head (route_methods route) ≡ true
        → route_success route ≡ status_ok
    unfolding route_methods route_success
    head-success Router.get_request_info h = refl
    head-success Router.get_worker_info h = refl
    head-success Router.all_workers h = refl
    head-success Router.version_of h = refl
    head-success _ h = cc

  -- The outcome of getHeaders, of what the transport brings.
  abbrev checked : Option HttpResponse → Reply (Map Text Text)
  checked o = received o transport >>- λ resp.
      check_status status_no_content resp >>- λ _. returned resp.headers

  checked-refused :
      (m : Result HttpResponse) (t : Server)
      → ((resp : HttpResponse) → m ≡ ok resp → nat_beq resp.status status_no_content ≡ false)
      → (e : ClientError) × (checked (answered (m >>= λ resp. ok (resp, t))) ≡ failed e)
  unfolding check_status panic_handler
  checked-refused (ok resp) t h = (bad_status resp.status, rw (h resp refl) refl)
  checked-refused (err e) t h = (transport, refl)
  checked-refused panic t h = (bad_status status_internal_server_error, refl)
  checked-refused blocked t h = (transport, refl)

  respond-status :
      (p : Payload) (m : Result (Map Text Text)) (typed : Map Text Text) (body : Text)
      (resp : HttpResponse)
      → (m >>= λ hdrs.
          ok
            (record { status = response_status status_ok p; headers = hdrs ++ typed; body = body }))
        ≡ ok resp
      → resp.status ≡ response_status status_ok p
  respond-status p (ok hdrs) typed body resp e = cc
  respond-status p (err x) typed body resp e = cc
  respond-status p panic typed body resp e = cc
  respond-status p blocked typed body resp e = cc

  answer-refused :
      (a : Answer)
      → HasBody a
      → (e : ClientError) × (checked
            (answered (a >>= λ (response, t). respond status_ok response >>= λ resp. ok (resp, t)))
          ≡ failed e)
  unfolding respond check_status panic_handler
  answer-refused (ok (response, t)) h = checked-refused (respond status_ok response) t λ resp e.
      rw (respond-status response.payload (payload_headers response.payload) _ _ resp e) h.filled
  answer-refused (err e) h = (transport, refl)
  answer-refused panic h = (bad_status status_internal_server_error, refl)
  answer-refused blocked h = (transport, refl)

  -- Whatever the state of the server, getHeaders of the client fails for each route that the
  -- server has for HEAD.
  pub get_headers-fails :
      ⦃std : Std⦄ (route : Route) (id path : Text) (c : Clocks) (s : Server)
      → has_method head (route_methods route) ≡ true
      → (e : ClientError) × (get_headers (network route id c s) path ≡ failed e)
  unfolding get_headers serve
  get_headers-fails route id path c s h =
      let r : HttpRequest = record { id = id; body = [] } in
      elim (Bool-cases (path == route_path route id)) [
        | inl e ↦
            rw (h, e, head-success route h)
              (answer-refused (handle route c r s) (handle-HasBody route c r s h))
        | inr e ↦ (transport, rw (h, e) refl)
      ]
