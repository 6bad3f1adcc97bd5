-- ===== src/Tests/Http.antt =====
-- The theorems on the HTTP API at concrete inputs.
use boruta.Common.{
  ◌≡◌, refl, ◌++◌, true, arith, [], ◌∷◌, some, codes, Option, none, nat_eq, lookup, insert,
  text_beq, text_eq,
}
use boruta.Types.{WorkerUuid, ok, maintenance, idle, prepare}
use boruta.Std.{Std}
use boruta.Workers.{list_workers}
use boruta.Requests.{prolong_access, update_request, new_request, get_request}
use boruta.Server.{Server}
use boruta.Server.Api.{close_request, admin_set_state}
use boruta.Http.{
  Web, req_infos, core, new_server_error, update, req_info, bare_request, worker_state,
  HttpResponse, requests_spec, workers_spec, list_total_items_hdr,
}
use boruta.Http.Handlers.{Clocks, is_valid_uuid}
use boruta.Http.Router.{serve}
use boruta.Http.Router
use boruta.Http.Client.{
  client_close_request, client_update_request, client_new_request, client_get_request_info,
  client_list_requests, client_list_workers, missing_header, client_set_state, get_headers, failed,
  returned, of_server, unmarshalling, ClientError,
}
use boruta.Http.Exchange.{
  if_marshalled, panic_error, handler_fault, Agrees, AgreesBy, told, with_reqs, beside,
}
use boruta.Http.Network.{network}
use boruta.Http.Answers.{Answers}
use boruta.Http.Safe.{Answered, serve-Answered}
use boruta.Http.Listing.{
  worker_matcher, client_list_requests-AgreesBy, client_list_workers-AgreesBy,
}
use boruta.Paging.{list_requests}
use boruta.Lists.{SortInfo, RequestsPaginator, descending, backward}
use boruta.Filter
use boruta.Http.Calls.{
  entered, client_close_request-Agrees, client_update_request-Agrees, client_new_request-Agrees,
  client_get_request_info-Agrees,
}
use boruta.Http.WorkerCalls.{client_set_state-fails}
use boruta.Http.RoundTrip.{made, client_get_request_info-client_new_request}
use boruta.Server.Calls.{new_server}
use boruta.Server.Safety.{new_server-Inv}
use boruta.Http.Heads.{get_headers-fails}
use boruta.Samples.{
  insertion_sort-perm, sample-SortLaws, sample_std, running, running-Inv, run_worker, waiting,
  wait_req,
}
use boruta.Samples.Web.{sample_web, sample_WebLaws, sample_ListLaws}

instance abbrev go_std : Std
go_std = sample_std

instance abbrev go_web : Web
go_web = sample_web

abbrev clocks : Clocks
clocks = record { now = 20; now_valid = 20; month_ahead = 900 }

abbrev uuid : WorkerUuid
uuid = codes "01234567-89ab-cdef-0123-456789abcdef"

-- A server with a worker in maintenance.
abbrev resting : Server
resting = record running {
  workers = record {
    workers =
        insert uuid
          (record run_worker {
            info = record (run_worker.info) { worker_uuid = uuid; state = maintenance };
          })
          [];
    has_listener = true;
  };
}

client_close_request-Agrees_example :
    Agrees
      (told (close_request 1 20 running))
      running
      (serve Router.close_request clocks (record { id = 1 ∷ []; body = [] }) running)
      (client_close_request (network Router.close_request (1 ∷ []) clocks running) 1)
client_close_request-Agrees_example =
    client_close_request-Agrees sample_WebLaws 1 clocks running (omega arith)

-- An ID that is no number.
serve-Answered_example :
    Answers
      (Answered Router.close_request running)
      (serve Router.close_request clocks (record { id = []; body = [] }) running)
serve-Answered_example =
    serve-Answered running-Inv Router.close_request clocks (record { id = []; body = [] })

abbrev holding : Server
holding = record running { reqs = waiting }

client_update_request-Agrees_example :
    let reply =
      client_update_request
        (network Router.update_request (1 ∷ []) clocks holding)
        (some wait_req) in
    Agrees
      (told (with_reqs holding (update_request (some wait_req) 20 waiting)))
      holding
      (serve Router.update_request clocks
        (record { id = 1 ∷ []; body = go_web.marshal (update 5 100 10) })
        holding)
      reply
client_update_request-Agrees_example =
    client_update_request-Agrees sample_WebLaws wait_req clocks holding (omega arith)

client_new_request-Agrees_example :
    Agrees
      (entered holding (new_request [] 3 (record { groups = [] }) 0 0 20 20 900 waiting))
      holding
      (serve Router.new_request clocks
        (record {
          id = [];
          body = go_web.marshal (req_info (bare_request 3 (record { groups = [] }) 0 0 []));
        })
        holding)
      (client_new_request
        (network Router.new_request [] clocks holding)
        []
        3
        (record { groups = [] })
        0
        0)
client_new_request-Agrees_example =
    client_new_request-Agrees sample_WebLaws [] 3 (record { groups = [] }) 0 0 clocks holding

client_get_request_info-Agrees_example :
    AgreesBy
      (λ r. if_marshalled (req_info r) unmarshalling r)
      (λ e. of_server (new_server_error (core e)))
      (panic_error handler_fault)
      (beside running (get_request 1 running.reqs))
      running
      (serve Router.get_request_info clocks (record { id = 1 ∷ []; body = [] }) running)
      (client_get_request_info (network Router.get_request_info (1 ∷ []) clocks running) wait_req 1)
client_get_request_info-Agrees_example =
    client_get_request_info-Agrees sample_WebLaws running-Inv wait_req 1 clocks (omega arith)

abbrev by_priority : Option SortInfo
by_priority = some (record { item = codes "priority"; order = descending })

abbrev waiting_only : Option Filter.Requests
waiting_only = some (record { ids = []; priorities = []; states = codes "WAITING" ∷ [] })

abbrev behind_first : Option RequestsPaginator
behind_first = some (record { id = 1; direction = backward; limit = 5 })

client_list_requests-AgreesBy_example :
    AgreesBy
      (λ p. if_marshalled (req_infos p.0) unmarshalling p)
      (λ e. missing_header list_total_items_hdr)
      (missing_header list_total_items_hdr)
      (beside holding (
        list_requests
          (some (
            Filter.match_request
              (record { ids = []; priorities = []; states = codes "WAITING" ∷ [] })))
          by_priority
          behind_first
          waiting))
      holding
      (serve Router.list_requests clocks
        (record {
          id = [];
          body = go_web.marshal (
              requests_spec
                (record { filter = waiting_only; sorter = by_priority; paginator = behind_first }));
        })
        holding)
      (client_list_requests
        (network Router.list_requests [] clocks holding)
        waiting_only
        by_priority
        behind_first)
unfolding insert
client_list_requests-AgreesBy_example =
    client_list_requests-AgreesBy sample_WebLaws sample_ListLaws waiting_only by_priority
      behind_first clocks holding (λ less l. insertion_sort-perm less l) (omega arith)

abbrev any_group : Option Filter.Workers
any_group = some (record { groups = []; capabilities = []; matcher = [] })

client_list_workers-AgreesBy_example :
    AgreesBy
      (λ p. returned p)
      (λ e. missing_header list_total_items_hdr)
      (missing_header list_total_items_hdr)
      (beside resting (list_workers (worker_matcher any_group) none none resting.workers))
      resting
      (serve Router.list_workers clocks
        (record {
          id = [];
          body =
              go_web.marshal
                (workers_spec (record { filter = any_group; sorter = none; paginator = none }));
        })
        resting)
      (client_list_workers (network Router.list_workers [] clocks resting) any_group none none)
unfolding insert
client_list_workers-AgreesBy_example =
    client_list_workers-AgreesBy sample_WebLaws sample_ListLaws any_group none none clocks resting
      sample-SortLaws (omega arith)

get_headers-fails_example :
    (e : ClientError) × (get_headers
        (network Router.get_request_info (1 ∷ []) clocks running)
        (codes "reqs/" ++ 1 ∷ [])
      ≡ failed e)
unfolding Router.route_methods
get_headers-fails_example =
    get_headers-fails Router.get_request_info (1 ∷ []) (codes "reqs/" ++ 1 ∷ []) clocks running refl

abbrev set_back : Server
set_back = record resting {
  workers = record {
    workers =
        insert uuid
          (record run_worker {
            info = record (run_worker.info) { worker_uuid = uuid; state = prepare };
            background_operation = prepare ∷ [];
          })
          [];
    has_listener = true;
  };
}

client_set_state-fails_example :
    ((resp : HttpResponse) × (serve Router.set_worker_state clocks
          (record { id = uuid; body = go_web.marshal (worker_state idle) })
          resting
        ≡ ok (resp, set_back)))
    × (client_set_state (network Router.set_worker_state uuid clocks resting) uuid idle
        ≡ failed unmarshalling)
unfolding is_valid_uuid admin_set_state lookup text_beq insert boruta.Workers.store_worker
client_set_state-fails_example =
    client_set_state-fails sample_WebLaws uuid idle clocks resting set_back refl refl

client_get_request_info-client_new_request_example :
    (t : Server) × (client_new_request
        (network Router.new_request [] clocks (new_server 1000))
        []
        3
        (record { groups = [] })
        30
        100
      ≡ returned 1)
    × ((resp : HttpResponse) × (serve Router.new_request clocks
            (record {
              id = [];
              body = go_web.marshal (req_info (bare_request 3 (record { groups = [] }) 100 30 []));
            })
            (new_server 1000)
          ≡ ok (resp, t)))
    × (client_get_request_info (network Router.get_request_info (1 ∷ []) clocks t) wait_req 1
        ≡ returned (made 1 [] 3 30 100))
unfolding new_server boruta.Requests.new_request_queue boruta.Times.new_request_times
client_get_request_info-client_new_request_example =
    client_get_request_info-client_new_request sample_WebLaws (new_server-Inv 1000) [] 3
      (record { groups = [] }) 30 100 clocks clocks wait_req refl refl (omega arith) (omega arith)
      (omega arith) (omega arith) (omega arith) (omega arith) refl refl
