-- ===== src/Http/Listing.antt =====
-- ListRequests and ListWorkers of the client, against the calls of the server. An error of the server
-- has no headers of a list, and these are what the client reads first.
use boruta.Common.{
  ℕ, ◌^◌, ◌-◌, ◌<◌, ◌≡◌, refl, ap, ◌∙◌, Option, none, some, List, [], ◌∷◌, Text, Map, lookup,
  length, nat_eq, text_eq, text_beq, arith, Perm, Bool, true, false, Bool-cases, inl, inr, ◌++◌,
  codes,
}
use mathlib.Core.Option
use boruta.Types.{ReqInfo, WorkerInfo, Result, ok, err, panic, blocked, Error}
use boruta.Std.{Std, SortLaws}
use boruta.Outcome.{Sound, Sound-ok}
use boruta.Lists.{ListInfo, SortInfo, RequestsPaginator, WorkersPaginator}
use boruta.Filter
use boruta.Paging.{list_requests}
use boruta.Paging.Numbers.{Upto, list_requests-Upto, list_workers-Upto}
use boruta.Workers.{list_workers}
use boruta.Server.{Server}
use boruta.Http.{
  Web, WebLaws, marshals, Payload, core, req_infos, worker_infos, requests_spec, workers_spec,
  RequestsListSpec, WorkersListSpec, HttpResponse, Decoded, value, new_response, status_ok,
  content_type_hdr, list_total_items_hdr, list_batch_size_hdr,
}
use boruta.Http.Handlers.{Clocks, Answer, answer, decoded_or, list_headers}
use boruta.Http.Router.{serve, respond, payload_headers, response_status, content_type}
use boruta.Http.Router
use boruta.Http.Client.{
  Reply, returned, failed, missing_header, ◌>>-◌, process_response, list_info_from_headers,
  uint_header, received, transport, unmarshalling, client_list_requests, client_list_workers,
}
use boruta.Http.Panics.{
  Fault, fault_reason, marshal_fault, panic_text, panic_handler, write_body, json_must_marshal,
}
use boruta.Http.Network.{network, posted}
use boruta.Http.Exchange.{
  AgreesBy, if_marshalled, handler_fault, handled-AgreesBy, answered, error_reply, sent, beside,
  answer-mapped,
}

-- A filter of workers without its matcher, which is not marshalled.
abbrev pub plain_filter : Filter.Workers → Filter.Workers
plain_filter f = record { groups = f.groups; capabilities = f.capabilities; matcher = [] }

-- What the server asks of each worker.
abbrev pub worker_matcher : Option Filter.Workers → Option (WorkerInfo → Bool)
worker_matcher = Option.map (λ f. Filter.match_worker (Filter.new_workers f.groups f.capabilities))

worker_matcher-plain_filter :
    (f : Option Filter.Workers) → worker_matcher (Option.map plain_filter f) ≡ worker_matcher f
worker_matcher-plain_filter none = refl
worker_matcher-plain_filter (some f) = refl

-- What else is marshalled can be read back, and a number of 64 bits that has been formatted.
pub record ListLaws (web : Web) : Type 0 where
  pub scan_back : (n : ℕ) → n < 2 ^ 64 → web.scan_uint (web.format_uint n) ≡ some n
  pub req_infos_back :
      (l : List ReqInfo)
      → marshals ⦃web = web⦄ (req_infos l) ≡ true
      → web.unmarshal_req_infos (web.marshal (req_infos l)) ≡ some l
  pub req_infos_none :
      (t : Text) → web.unmarshal_req_infos (codes "Internal Server Error:" ++ 10 ∷ t) ≡ none
  pub worker_infos_back :
      (l : List WorkerInfo) → web.unmarshal_worker_infos (web.marshal (worker_infos l)) ≡ some l
  pub requests_spec_back :
      (x : RequestsListSpec) → web.decode_requests_spec (web.marshal (requests_spec x)) ≡ value x
  pub workers_spec_back :
      (x : WorkersListSpec)
      → web.decode_workers_spec (web.marshal (workers_spec x))
        ≡ value (record x { filter = Option.map plain_filter x.filter })

module _ ⦃web : Web⦄ (laws : ListLaws web) where
  -- What the client reads of the answer to a listing.
  abbrev read_list :
      {A : Type 0} → (Text → Option (List A)) → HttpResponse → Reply (List A × ListInfo)
  read_list unmarshal resp = list_info_from_headers resp.headers >>- λ info.
      process_response [] unmarshal resp >>- λ list. returned (list, info)

  -- The headers of a listing that succeeds.
  abbrev listed_headers : Text → ListInfo → Map Text Text
  listed_headers size info =
      (list_batch_size_hdr, size) ∷ (content_type_hdr, content_type) ∷ list_headers info

  listed_headers-read :
      (size : Text) (info : ListInfo)
      → info.total_items < 2 ^ 64
      → info.remaining_items < 2 ^ 64
      → list_info_from_headers (listed_headers size info) ≡ returned info
  unfolding list_info_from_headers uint_header list_headers lookup text_beq
  listed_headers-read size info t r =
      rw (laws.scan_back info.total_items t, laws.scan_back info.remaining_items r) refl

  answered_list :
      {A : Type 0} (payload : Payload) (size : Text) (unmarshal : Text → Option (List A))
      (list : List A) (info : ListInfo)
      → payload_headers payload ≡ ok ((list_batch_size_hdr, size) ∷ [])
      → response_status status_ok payload ≡ status_ok
      → (marshals payload ≡ true → unmarshal (web.marshal payload) ≡ some list)
      → (marshals payload ≡ false → unmarshal (panic_text marshal_fault) ≡ none)
      → Upto (2 ^ 64 - 1) (list, info)
      → (resp : HttpResponse) × (respond status_ok (new_response payload (list_headers info))
          ≡ ok resp)
        × (read_list unmarshal resp ≡ if_marshalled payload unmarshalling (list, info))
  unfolding respond new_response process_response write_body json_must_marshal
  answered_list payload size unmarshal list info eh es eu en (t, r) =
      let read = listed_headers-read size info (omega arith) (omega arith) in
      elim (Bool-cases (marshals payload)) [
        | inl em ↦ (
          record {
            status = status_ok;
            headers = listed_headers size info;
            body = web.marshal payload;
          },
          rw (eh, es, em) refl,
          rw (read, em, eu em) refl,
        )
        | inr em ↦ (
          record {
            status = status_ok;
            headers = listed_headers size info;
            body = panic_text marshal_fault;
          },
          rw (eh, es, em) refl,
          rw (read, em, en em) refl,
        )
      ]

  -- The client looks for the headers first.
  read_list-error :
      (known : WebLaws web) {A : Type 0} (unmarshal : Text → Option (List A)) (e : Error)
      → read_list unmarshal (error_reply known (core e))
        ≡ failed (missing_header list_total_items_hdr)
  unfolding list_info_from_headers uint_header lookup text_beq
  read_list-error known unmarshal e = refl

  read_list-panic :
      {A : Type 0} (unmarshal : Text → Option (List A)) (fault : Fault)
      → read_list unmarshal (panic_handler fault) ≡ failed (missing_header list_total_items_hdr)
  unfolding panic_handler list_info_from_headers uint_header lookup text_beq
  read_list-panic unmarshal fault = refl

  decoded_or-value :
      {A : Type 0} (s : Server) (default : A) {m : Decoded A} (k : A → Answer) (a : A)
      → m ≡ value a
      → decoded_or s default m k ≡ k a
  decoded_or-value s default k a e = rw (e, decoded_or) refl

  beside-ok : {A : Type 0} (s t : Server) (m : Result A) (a : A) → beside s m ≡ ok (a, t) → m ≡ ok a
  beside-ok s t (ok b) a e = cc
  beside-ok s t (err b) a e = cc
  beside-ok s t panic a e = cc
  beside-ok s t blocked a e = cc

  -- A listing that says numbers of 64 bits.
  listed-AgreesBy :
      (known : WebLaws web) {A : Type 0} (payload : List A → Payload)
      (unmarshal : Text → Option (List A)) (s : Server) (m : Result (List A × ListInfo))
      (served : Result (HttpResponse × Server)) (reply : Reply (List A × ListInfo)) (n : ℕ)
      → served
        ≡ sent known status_ok
            (answer s m λ (l, info). ok (new_response (payload l) (list_headers info), s))
      → reply ≡ (received (answered served) transport >>- read_list unmarshal)
      → ((l : List A)
          → payload_headers (payload l)
            ≡ ok ((list_batch_size_hdr, web.format_uint (length l)) ∷ []))
      → ((l : List A) → response_status status_ok (payload l) ≡ status_ok)
      → ((l : List A) → marshals (payload l) ≡ true → unmarshal (web.marshal (payload l)) ≡ some l)
      → ((l : List A) → marshals (payload l) ≡ false → unmarshal (panic_text marshal_fault) ≡ none)
      → Sound (Upto n) m
      → n < 2 ^ 64
      → AgreesBy
          (λ p. if_marshalled (payload p.0) unmarshalling p)
          (λ e. missing_header list_total_items_hdr)
          (missing_header list_total_items_hdr)
          (beside s m)
          s
          served
          reply
  listed-AgreesBy known payload unmarshal s m served reply n es er hdrs status back broken sound
        small =
      handled-AgreesBy known status_ok (λ p. if_marshalled (payload p.0) unmarshalling p)
        (λ e. missing_header list_total_items_hdr) (missing_header list_total_items_hdr) s
        (beside s m) (λ (l, info). new_response (payload l) (list_headers info))
        (read_list unmarshal) served reply
        (es
          ∙ ap (sent known status_ok) (
              answer-mapped s m (λ x. (x, s))
                (λ (l, info). new_response (payload l) (list_headers info))))
        er (read_list-error known unmarshal) (read_list-panic unmarshal handler_fault)
        (λ (l, info) t e.
          let (total, remaining) = Sound-ok (l, info) sound (beside-ok s t m (l, info) e) in
          answered_list (payload l) (web.format_uint (length l)) unmarshal l info (hdrs l)
            (status l) (back l) (broken l) (omega arith, omega arith))

module _ ⦃web : Web⦄ ⦃std : Std⦄ (known : WebLaws web) (laws : ListLaws web) where
  -- If what is marshalled and formatted can be read back, the text of a panic is no JSON,
  -- sort.Sort permutes the requests it is given, the collection has fewer than 2^64 requests, and
  -- the transport brings the client's ListRequests to its route and its answer back, then the
  -- server is as it was, where the call returns a page and its numbers the method returns them if
  -- the page can be marshalled, and otherwise fails to unmarshal the answer, where the call
  -- returns an error or panics the method fails with a missing header, and where the call waits
  -- the method fails for want of a response.
  pub client_list_requests-AgreesBy :
      (f : Option Filter.Requests) (si : Option SortInfo) (p : Option RequestsPaginator)
      (c : Clocks) (s : Server)
      → ((less : ReqInfo → ReqInfo → Bool) (l : List ReqInfo) → Perm (std.sort_requests less l) l)
      → length s.reqs.requests < 2 ^ 64
      → AgreesBy
          (λ p. if_marshalled (req_infos p.0) unmarshalling p)
          (λ e. missing_header list_total_items_hdr)
          (missing_header list_total_items_hdr)
          (beside s (list_requests (Option.map Filter.match_request f) si p s.reqs))
          s
          (serve Router.list_requests c
            (record {
              id = [];
              body =
                  web.marshal (requests_spec (record { filter = f; sorter = si; paginator = p }));
            })
            s)
          (client_list_requests (network Router.list_requests [] c s) f si p)
  unfolding client_list_requests serve Router.route_path Router.route_methods
  client_list_requests-AgreesBy f si p c s perm small =
      let body = web.marshal (requests_spec (record { filter = f; sorter = si; paginator = p })) in
      let m = list_requests (Option.map Filter.match_request f) si p s.reqs in
      listed-AgreesBy laws known req_infos web.unmarshal_req_infos s m _ _ (length s.reqs.requests)
        (ap (sent known status_ok) (
          decoded_or-value laws s _ _ _
            (laws.requests_spec_back (record { filter = f; sorter = si; paginator = p }))))
        (posted Router.list_requests [] c s body (read_list laws web.unmarshal_req_infos) refl)
        (λ l. refl) (λ l. refl) laws.req_infos_back
        (λ l e. laws.req_infos_none (fault_reason marshal_fault))
        (list_requests-Upto (Option.map Filter.match_request f) si p s.reqs perm) small

  -- If what is marshalled and formatted can be read back, but for the matcher of a filter,
  -- sort.Sort permutes the workers it is given, there are fewer than 2^64 workers, and the
  -- transport brings the client's ListWorkers to its route and its answer back, then the server is
  -- as it was, where the call returns a page and its numbers the method returns them, where the
  -- call returns an error or panics the method fails with a missing header, and where the call
  -- waits the method fails for want of a response.
  pub client_list_workers-AgreesBy :
      (f : Option Filter.Workers) (si : Option SortInfo) (p : Option WorkersPaginator) (c : Clocks)
      (s : Server)
      → SortLaws std
      → length s.workers.workers < 2 ^ 64
      → AgreesBy
          (λ p. returned p)
          (λ e. missing_header list_total_items_hdr)
          (missing_header list_total_items_hdr)
          (beside s (list_workers (worker_matcher f) si p s.workers))
          s
          (serve Router.list_workers c
            (record {
              id = [];
              body = web.marshal (workers_spec (record { filter = f; sorter = si; paginator = p }));
            })
            s)
          (client_list_workers (network Router.list_workers [] c s) f si p)
  unfolding client_list_workers serve Router.route_path Router.route_methods
  client_list_workers-AgreesBy f si p c s sorts small =
      let body = web.marshal (workers_spec (record { filter = f; sorter = si; paginator = p })) in
      listed-AgreesBy laws known worker_infos web.unmarshal_worker_infos s
        (list_workers (worker_matcher f) si p s.workers) _ _ (length s.workers.workers)
        (ap (sent known status_ok) (
          decoded_or-value laws s _ _ _
            (laws.workers_spec_back (record { filter = f; sorter = si; paginator = p }))
          ∙ ap
              (λ g.
                answer s (list_workers g si p s.workers)
                  (λ (l, info). ok (new_response (worker_infos l) (list_headers info), s)))
              (worker_matcher-plain_filter f)))
        (posted Router.list_workers [] c s body (read_list laws web.unmarshal_worker_infos) refl)
        (λ l. refl) (λ l. refl) (λ l e. laws.worker_infos_back l) (λ l e. cc)
        (list_workers-Upto sorts (worker_matcher f) si p s.workers) small
