-- ===== src/Http/Safe.antt =====
-- What any request of HTTP, of any path and any body, does to the server and is answered.
use boruta.Common.{
  ℕ, ◌≤◌, ◌≡◌, refl, ◌⊎◌, inl, inr, Bool, true, false, not, Option, none, some, [], Text, Map,
  lookup, subst, nat_beq, nat_eq, text_eq, ◌==◌, ◌&&◌,
}
use boruta.Types.{ReqId, WorkerUuid, inprogress, req_state_eq, or_fail, Error, Result, ok, ◌>>=◌}
use boruta.Std.{Std}
use boruta.Outcome.{Sound, returns, fails, Sound-or_fail, Sound-fail_if}
use boruta.Server.{Server}
use boruta.Server.Invariant.{Inv}
use boruta.Http.{
  Web, Payload, marshals, server_error, new_server_error, Response, HttpResponse, Decoded,
  id_mismatch, error_response, new_response, nothing, req_infos, req_id, req_info, worker_info,
  worker_infos, WorkersListSpec, status_bad_request,
}
use boruta.Http.Handlers.{
  HttpRequest, answer, decoded_or, Clocks, list_headers, list_requests_handler, new_request_handler,
  get_request_info_handler, update_request_handler, close_request_handler, acquire_worker_handler,
  prolong_access_handler, list_workers_handler, get_worker_info_handler, set_worker_state_handler,
  set_worker_groups_handler, worker_deregister, version_handler,
}
use mathlib.Core.Option
use boruta.Filter
use boruta.Requests.{ReqsCollection, find_request, get_request}
use boruta.Requests.Keeps.{Kept, new_request-Kept, update_request-Kept, prolong_access-Kept}
use boruta.Paging.Numbers.{list_requests-Sound, list_workers-Sound}
use boruta.Workers.{WorkerList, list_workers, get_worker_info, find_worker}
use boruta.Server.{get_job}
use boruta.Server.Api.{acquire_worker}
use boruta.Server.Keeps.{
  Kept-Inv, settled, close_request-Inv, admin_set_state-Inv, set_groups-Inv, deregister-Inv,
}
use boruta.Http.Router
use boruta.Http.Router.{
  payload_headers, response_status, respond, Route, route_success, handle, serve,
}
use boruta.Http.Panics.{write_body}
use boruta.Http.Exchange.{error_status}
use boruta.Http.Listing.{worker_matcher}
use boruta.Http.Calls.{assigned-headers}
use boruta.Requests.Running.{IsAssigned}
use boruta.Server.Calls.{
  creates, closes, updates, prolongs, sets_state, sets_groups, deregisters, step,
}
use boruta.Http.Answers.{
  IsCalled, Answers, replies, Answers-if, Answers-bind, Good, errs, gives, answer-Good, done-Good,
  with_req_id-Good, with_uuid-Good, decoded-Good, decoded_or-Good,
}

-- The routes that only read the server.
abbrev pub only_reads : Route → Bool
only_reads Router.list_requests = true
only_reads Router.get_request_info = true
only_reads Router.acquire_worker = true
only_reads Router.all_workers = true
only_reads Router.list_workers = true
only_reads Router.get_worker_info = true
only_reads Router.version_of = true
only_reads _ = false

-- The routes that answer with the times of requests.
abbrev pub shows_times : Route → Bool
shows_times Router.list_requests = true
shows_times Router.get_request_info = true
shows_times _ = false

or_fail-Sound : {A : Type 0} (o : Option A) (e : Error) → Sound (λ a. o ≡ some a) (or_fail o e)
or_fail-Sound none e = fails
or_fail-Sound (some a) e = returns refl

get_worker_info-Sound :
    (uuid : WorkerUuid) (wl : WorkerList) → Sound (λ _. Unit) (get_worker_info uuid wl)
unfolding get_worker_info find_worker
get_worker_info-Sound uuid wl = Sound-or_fail (lookup uuid wl.workers) _ λ w _. returns tt

acquire_worker-Sound : (rid : ReqId) (s : Server) → Sound (λ _. Unit) (acquire_worker rid s)
unfolding acquire_worker find_request get_job
acquire_worker-Sound rid s = Sound-or_fail (lookup rid s.reqs.requests) _ λ r _.
    Sound-fail_if (not (r.state == inprogress)) _ λ _.
      Sound-or_fail r.job _ λ j _. Sound-or_fail (lookup j.worker_uuid s.jobs) _ λ job _. returns tt

module _ ⦃web : Web⦄ ⦃std : Std⦄ {s : Server} (v : Inv false s) where
  -- The answer that gives data and leaves the server as it was.
  reads :
      {b d : Bool} (payload : Payload) (headers hdrs : Map Text Text)
      → payload_headers payload ≡ ok hdrs
      → ((success : ℕ) → response_status success payload ≡ success)
      → (d ≡ false → marshals payload ≡ true)
      → Answers (Good b d s) (ok (new_response payload headers, s))
  reads payload headers hdrs e same shown =
      replies (gives payload headers hdrs s e same v (λ _. refl) (inl refl) shown)

  -- A call of the requests' collection.
  reqs-Good :
      {b d : Bool} {m : Result ReqsCollection}
      → b ≡ false
      → ((d : ReqsCollection) → m ≡ ok d → IsCalled s (record s { reqs = d }))
      → Sound (Kept s.reqs) m
      → Answers (Good b d s) (answer s m λ d. ok (new_response nothing [], record s { reqs = d }))
  unfolding payload_headers response_status
  reqs-Good e called h = answer-Good _ h λ d f k. replies (
      gives nothing [] [] (record s { reqs = d }) refl (λ n. refl) (Kept-Inv v k) (λ g. cc)
        (called d f) (λ g. refl))

  listed-Good :
      {b d : Bool} (m : Decoded WorkersListSpec)
      → Answers (Good b d s) (
          decoded_or s
            (record { filter = none; sorter = none; paginator = none })
            m
            λ spec.
              answer s
                (list_workers (worker_matcher spec.filter) spec.sorter spec.paginator s.workers)
                λ (workers, info). ok (new_response (worker_infos workers) (list_headers info), s))
  unfolding payload_headers response_status
  listed-Good m = decoded_or-Good _ m _ λ spec.
      answer-Good _
        (list_workers-Sound (worker_matcher spec.filter) spec.sorter spec.paginator s.workers)
        λ (l, info) _ _. reads (worker_infos l) (list_headers info) _ refl (λ n. refl) (λ g. refl)

  handle-Good :
      (route : Route) (c : Clocks) (r : HttpRequest)
      → Answers (Good (only_reads route) (shows_times route) s) (handle route c r s)
  unfolding handle list_requests_handler new_request_handler get_request_info_handler
      update_request_handler close_request_handler acquire_worker_handler prolong_access_handler
      list_workers_handler get_worker_info_handler set_worker_state_handler
      set_worker_groups_handler worker_deregister version_handler get_request find_request
      get_worker_info find_worker payload_headers response_status step
  handle-Good Router.list_requests c r =
      decoded_or-Good _ (web.decode_requests_spec r.body) _ λ spec.
        answer-Good _
          (list_requests-Sound (Option.map Filter.match_request spec.filter) spec.sorter
            spec.paginator s.reqs)
          λ (l, info) _ _. reads (req_infos l) (list_headers info) _ refl (λ n. refl) (λ g. cc)
  handle-Good Router.new_request c r = decoded-Good (web.decode_req_info r.body) _ λ q.
      answer-Good _
        (new_request-Kept (settled v) q.caps q.priority (record { groups = [] }) q.valid_after
          q.deadline c.now c.now_valid c.month_ahead)
        λ (id, d) f k. replies (
          gives (req_id id) [] [] (record s { reqs = d }) refl (λ n. refl) (Kept-Inv v k) (λ g. cc)
            (inr (
              creates q.caps q.priority (record { groups = [] }) q.valid_after q.deadline c.now
                  c.now_valid c.month_ahead,
              rw f refl,
            ))
            (λ g. refl))
  handle-Good Router.get_request_info c r = with_req_id-Good r _ λ rid.
      answer-Good _ (or_fail-Sound (lookup rid s.reqs.requests) _) λ q _ found.
        let (hdrs, e) = assigned-headers q (subst IsAssigned found (v.jobs_match.assigned rid)) in
        reads (req_info q) [] hdrs e (λ n. refl) (λ g. cc)
  handle-Good Router.update_request c r = with_req_id-Good r _ λ rid.
      decoded-Good (web.decode_req_info r.body) _ λ q.
        Answers-if (not (nat_beq q.id 0) && not (nat_beq q.id rid)) (replies (errs id_mismatch)) (
          reqs-Good refl (λ d e. inr (updates (some (record q { id = rid })) c.now, rw e refl))
            (update_request-Kept (settled v) (some (record q { id = rid })) c.now))
  handle-Good Router.close_request c r =
      with_req_id-Good r _
        λ rid. done-Good refl (λ t e. inr (closes rid c.now, e)) (close_request-Inv v rid c.now)
  handle-Good Router.acquire_worker c r = with_req_id-Good r _ λ rid.
      answer-Good _ (acquire_worker-Sound rid s)
        λ info _ _. reads _ [] _ refl (λ n. refl) (λ g. refl)
  handle-Good Router.prolong_access c r = with_req_id-Good r _ λ rid.
      reqs-Good refl (λ d e. inr (prolongs rid c.now, rw e refl))
        (prolong_access-Kept (settled v) rid c.now)
  handle-Good Router.all_workers c r = listed-Good (web.decode_workers_spec r.body)
  handle-Good Router.list_workers c r = listed-Good (web.decode_workers_spec r.body)
  handle-Good Router.get_worker_info c r = with_uuid-Good r _ λ uuid.
      (answer-Good _ (get_worker_info-Sound uuid s.workers)
        λ i _ _. reads (worker_info i) [] _ refl (λ n. refl) (λ g. refl))
  handle-Good Router.set_worker_state c r = with_uuid-Good r _ λ uuid.
      (decoded-Good (web.decode_state r.body) _ λ x.
        done-Good refl (λ t e. inr (sets_state uuid x c.now, e))
          (admin_set_state-Inv v uuid x c.now))
  handle-Good Router.set_worker_groups c r = with_uuid-Good r _ λ uuid.
      (decoded-Good (web.decode_groups r.body) _ λ l.
        done-Good refl (λ t e. inr (sets_groups uuid l c.now, e)) (set_groups-Inv v uuid l c.now))
  handle-Good Router.deregister c r =
      with_uuid-Good r _
        λ uuid. (done-Good refl (λ t e. inr (deregisters uuid, e)) (deregister-Inv v uuid))
  handle-Good Router.version_of c r = reads _ [] _ refl (λ n. refl) (λ g. refl)

-- What a request of a route is answered, and the server that the answer leaves.
pub record Answered ⦃web : Web⦄ ⦃std : Std⦄ (route : Route) (s : Server) (a : HttpResponse × Server)
    : Type 0 where
  pub kept : Inv false a.1
  pub status : (a.0.status ≡ route_success route) ⊎ ((status_bad_request ≤ a.0.status) × (a.1 ≡ s))
  pub read : only_reads route ≡ true → a.1 ≡ s
  pub called : IsCalled s a.1
  pub body :
      (payload : Payload) × (a.0.body ≡ write_body a.0.status payload)
      × (shows_times route ≡ false → marshals payload ≡ true)

module _ ⦃web : Web⦄ ⦃std : Std⦄ where
  respond-Answered :
      (route : Route) (s : Server) (p : Response × Server)
      → Inv false s
      → Good (only_reads route) (shows_times route) s p
      → Answers (Answered route s) (respond (route_success route) p.0 >>= λ resp. ok (resp, p.1))
  unfolding respond error_response new_response write_body
  respond-Answered route s p v (errs e) = replies (record {
    kept = v;
    status = inr ((error_status e).0, refl);
    read = λ _. refl;
    called = inl refl;
    body = (server_error (new_server_error e), refl, λ _. refl);
  })
  respond-Answered route s p v (gives payload headers hdrs t eh same w still call shown) =
      rw (eh, same (route_success route))
        (replies (record {
          kept = w;
          status = inl refl;
          read = still;
          called = call;
          body = (payload, refl, shown);
        }))

-- If the server has the invariant, a request on any route of the API, whatever the parameter of
-- its path and its body, is answered with a status, and without a panic before that, unless it
-- waits at a channel or a mutex; when it is answered the server has the invariant and is as it was
-- or as one of the calls that can happen to it leaves it, the status is that of the route's
-- success, or it is 400 or more and the server is as it was, on a route that only reads the server
-- is as it was, and the body is, with the status 204, empty, and otherwise the JSON of some data,
-- or, where jsonMustMarshal panics on that data, the text that panicHandler adds; on a route other
-- than those of GetRequestInfo and ListRequests it does not panic.
pub serve-Answered :
    ⦃web : Web⦄ ⦃std : Std⦄ {s : Server}
    → Inv false s
    → (route : Route) (c : Clocks) (r : HttpRequest)
    → Answers (Answered route s) (serve route c r s)
unfolding serve
serve-Answered {s = s} v route c r =
    Answers-bind _ (handle-Good v route c r) λ p good. respond-Answered route s p v good
