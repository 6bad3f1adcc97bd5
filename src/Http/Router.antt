-- ===== src/Http/Router.antt =====
-- http/server/api/v1/api.go: routerSetHandler and the routes of NewAPI. The router itself,
-- httptreemux, takes a path apart; a request comes with the route that it was sent to. A body that
-- is answered to HEAD is dropped by net/http.
use boruta.Common.{
  ℕ, ◌++◌, none, some, List, [], ◌∷◌, Text, codes, Map, nat_beq, ◌==◌, if◌then◌else◌, length,
}
use boruta.Types.{
  inprogress, req_state_eq, req_state_name, worker_state_name, Result, ok, panic, ◌>>=◌,
}
use boruta.Std.{Std}
use boruta.Server.{Server}
use boruta.Http.{
  Web, Payload, server_error, req_info, req_infos, worker_info, worker_infos, version, Response,
  HttpResponse, status_ok, status_created, status_accepted, status_no_content, list_batch_size_hdr,
  request_state_hdr, job_timeout_hdr, worker_state_hdr, server_version_hdr, api_version_hdr,
  api_state_hdr, content_type_hdr,
}
use boruta.Http.Panics.{write_body}
use boruta.Http.Handlers.{
  HttpRequest, Clocks, Answer, new_request_handler, close_request_handler, update_request_handler,
  get_request_info_handler, list_requests_handler, acquire_worker_handler, prolong_access_handler,
  list_workers_handler, get_worker_info_handler, set_worker_state_handler,
  set_worker_groups_handler, worker_deregister, version_handler,
}

abbrev pub content_type : Text
content_type = codes "application/json"

module _ ⦃web : Web⦄ where
  -- The headers that depend on the data. A request in progress with no job is a nil pointer.
  unfoldable pub payload_headers : Payload → Result (Map Text Text)
  unfolding req_state_name worker_state_name
  payload_headers (req_info r) =
      if r.state == inprogress
      then elim r.job [
        | none ↦ panic
        | some j ↦ ok (
            (request_state_hdr, req_state_name r.state)
            ∷ (job_timeout_hdr, web.format_time j.timeout_at)
            ∷ [])
      ]
      else ok ((request_state_hdr, req_state_name r.state) ∷ [])
  payload_headers (req_infos l) = ok ((list_batch_size_hdr, web.format_uint (length l)) ∷ [])
  payload_headers (worker_info w) = ok ((worker_state_hdr, worker_state_name w.state) ∷ [])
  payload_headers (worker_infos l) = ok ((list_batch_size_hdr, web.format_uint (length l)) ∷ [])
  payload_headers (version v) =
      ok ((server_version_hdr, v.server) ∷ (api_version_hdr, v.api) ∷ (api_state_hdr, v.state) ∷ [])
  payload_headers _ = ok []

  -- The status of an error stands in for that of success.
  unfoldable pub response_status : ℕ → Payload → ℕ
  response_status success (server_error e) = e.status
  response_status success _ = success

  -- What routerSetHandler wraps around a handler.
  unfoldable pub respond : ℕ → Response → Result HttpResponse
  unfolding payload_headers response_status write_body
  respond success r = do
    hdrs ← payload_headers r.payload
    let status = response_status success r.payload
    let typed =
        if nat_beq status status_no_content then [] else (content_type_hdr, content_type) ∷ []
    ok (record {
      status = status;
      headers = hdrs ++ (typed ++ r.headers);
      body = write_body status r.payload;
    })

pub data Method : Type 0 where
  get head post : Method

pub data Route : Type 0 where
  list_requests new_request get_request_info update_request close_request : Route
  acquire_worker prolong_access list_workers get_worker_info set_worker_state : Route
  set_worker_groups deregister all_workers version_of : Route

-- The methods of a route, its path with the parameter `id`, and the status of its success.
unfoldable pub route_methods : Route → List Method
route_methods get_request_info = get ∷ head ∷ []
route_methods get_worker_info = get ∷ head ∷ []
route_methods version_of = get ∷ head ∷ []
route_methods all_workers = get ∷ head ∷ []
route_methods _ = post ∷ []

unfoldable pub route_path : Route → Text → Text
route_path list_requests id = codes "reqs/list"
route_path new_request id = codes "reqs/"
route_path get_request_info id = codes "reqs/" ++ id
route_path update_request id = codes "reqs/" ++ id
route_path close_request id = (codes "reqs/" ++ id) ++ codes "/close"
route_path acquire_worker id = (codes "reqs/" ++ id) ++ codes "/acquire_worker"
route_path prolong_access id = (codes "reqs/" ++ id) ++ codes "/prolong"
route_path all_workers id = codes "workers/"
route_path list_workers id = codes "workers/list"
route_path get_worker_info id = codes "workers/" ++ id
route_path set_worker_state id = (codes "workers/" ++ id) ++ codes "/setstate"
route_path set_worker_groups id = (codes "workers/" ++ id) ++ codes "/setgroups"
route_path deregister id = (codes "workers/" ++ id) ++ codes "/deregister"
route_path version_of id = codes "version"

unfoldable pub route_success : Route → ℕ
route_success new_request = status_created
route_success update_request = status_no_content
route_success close_request = status_no_content
route_success prolong_access = status_no_content
route_success set_worker_state = status_accepted
route_success set_worker_groups = status_no_content
route_success deregister = status_no_content
route_success _ = status_ok

module _ ⦃web : Web⦄ ⦃std : Std⦄ where
  unfoldable pub handle : Route → Clocks → HttpRequest → Server → Answer
  unfolding new_request_handler close_request_handler update_request_handler
      get_request_info_handler list_requests_handler acquire_worker_handler prolong_access_handler
      list_workers_handler get_worker_info_handler set_worker_state_handler
      set_worker_groups_handler worker_deregister version_handler
  handle list_requests c r s = list_requests_handler r s
  handle new_request c r s = new_request_handler c r s
  handle get_request_info c r s = get_request_info_handler r s
  handle update_request c r s = update_request_handler c.now r s
  handle close_request c r s = close_request_handler c.now r s
  handle acquire_worker c r s = acquire_worker_handler r s
  handle prolong_access c r s = prolong_access_handler c.now r s
  handle all_workers c r s = list_workers_handler r s
  handle list_workers c r s = list_workers_handler r s
  handle get_worker_info c r s = get_worker_info_handler r s
  handle set_worker_state c r s = set_worker_state_handler c.now r s
  handle set_worker_groups c r s = set_worker_groups_handler c.now r s
  handle deregister c r s = worker_deregister r s
  handle version_of c r s = version_handler (codes "0.2.1") r s

  -- A request, from the router to the response.
  unfoldable pub serve : Route → Clocks → HttpRequest → Server → Result (HttpResponse × Server)
  unfolding handle respond route_success
  serve route c r s = do
    (response, t) ← handle route c r s
    answered ← respond (route_success route) response
    ok (answered, t)
