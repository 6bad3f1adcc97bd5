-- ===== src/Http/WorkerCalls.antt =====
-- The methods of the client that are about workers, against the calls of the worker list.
use boruta.Common.{arith, ◌≡◌, refl, ap, ◌∙◌, true, List, [], ◌∷◌, Text, nat_eq, text_eq}
use boruta.Types.{WorkerUuid, WorkerState, worker_state_name, WorkerInfo, ok}
use boruta.Std.{Std}
use boruta.Workers.{get_worker_info}
use boruta.Server.{Server}
use boruta.Server.Api.{set_groups, deregister, admin_set_state}
use boruta.Http.{
  Web, WebLaws, worker_info, groups, worker_state, HttpResponse, new_response, status_no_content,
  status_ok, status_accepted, worker_state_hdr,
}
use boruta.Http.Handlers.{Clocks, done, answer, decoded, is_valid_uuid}
use boruta.Http.Router.{payload_headers, serve, Route, post, get, route_methods, route_path}
use boruta.Http.Router
use boruta.Http.Client.{
  process_response, process_nil, received, transport, ◌>>-◌, failed, unmarshalling,
  client_set_groups, client_deregister, client_get_worker_info, client_set_state,
}
use boruta.Http.Network.{network, network-routed, with_uuid-valid, decoded-value, posted}
use boruta.Http.Exchange.{
  Agrees, handled-Agrees, read_error, read_panic, handler_fault, told, told-Agrees, sent,
  answered_data, beside, answer-mapped,
}

module _ ⦃web : Web⦄ ⦃std : Std⦄ (laws : WebLaws web) where
  -- If what is marshalled can be read back, and the transport brings the client's Deregister, with
  -- a well-formed UUID, to the route of that path and its answer back, then the server's answer
  -- and what the method returns agree with the call: a value of the call is returned and the
  -- server ends as the call leaves it, an error of the call is returned with the status that the
  -- server gives it and the server is as it was, and where the call panics or waits the method
  -- fails for want of a response.
  pub client_deregister-Agrees :
      (uuid : WorkerUuid) (c : Clocks) (s : Server)
      → is_valid_uuid uuid ≡ true
      → Agrees
          (told (deregister uuid s))
          s
          (serve Router.deregister c (record { id = uuid; body = [] }) s)
          (client_deregister (network Router.deregister uuid c s) uuid)
  unfolding client_deregister serve Router.route_path Router.route_methods
  client_deregister-Agrees uuid c s h =
      told-Agrees laws s (deregister uuid s) _ _
        (ap (sent laws status_no_content)
          (with_uuid-valid uuid [] s (λ x. done s (deregister x s)) h))
        (posted Router.deregister uuid c s [] process_nil refl)

  -- If what is marshalled can be read back, and the transport brings the client's SetGroups, with
  -- a well-formed UUID, to the route of that path and its answer back, then the server's answer
  -- and what the method returns agree with the call: a value of the call is returned and the
  -- server ends as the call leaves it, an error of the call is returned with the status that the
  -- server gives it and the server is as it was, and where the call panics or waits the method
  -- fails for want of a response.
  pub client_set_groups-Agrees :
      (uuid : WorkerUuid) (l : List Text) (c : Clocks) (s : Server)
      → is_valid_uuid uuid ≡ true
      → Agrees
          (told (set_groups uuid l c.now s))
          s
          (serve Router.set_worker_groups c (record { id = uuid; body = web.marshal (groups l) }) s)
          (client_set_groups (network Router.set_worker_groups uuid c s) uuid l)
  unfolding client_set_groups serve Router.route_path Router.route_methods
  client_set_groups-Agrees uuid l c s h =
      told-Agrees laws s (set_groups uuid l c.now s) _ _
        (ap (sent laws status_no_content) (
          with_uuid-valid uuid (web.marshal (groups l)) s
            (λ x.
              decoded s (web.decode_groups (web.marshal (groups l)))
                (λ m. done s (set_groups x m c.now s)))
            h
          ∙ decoded-value s (λ m. done s (set_groups uuid m c.now s)) l
              (laws.decode_groups_back l)))
        (posted Router.set_worker_groups uuid c s (web.marshal (groups l)) process_nil refl)

  -- If what is marshalled can be read back, and the transport brings the client's GetWorkerInfo,
  -- with a well-formed UUID, to the route of that path and its answer back, then the server's
  -- answer and what the method returns agree with the call: a value of the call is returned and
  -- the server ends as the call leaves it, an error of the call is returned with the status that
  -- the server gives it and the server is as it was, and where the call panics or waits the method
  -- fails for want of a response.
  pub client_get_worker_info-Agrees :
      (zero : WorkerInfo) (uuid : WorkerUuid) (c : Clocks) (s : Server)
      → is_valid_uuid uuid ≡ true
      → Agrees
          (beside s (get_worker_info uuid s.workers))
          s
          (serve Router.get_worker_info c (record { id = uuid; body = [] }) s)
          (client_get_worker_info (network Router.get_worker_info uuid c s) zero uuid)
  unfolding client_get_worker_info serve Router.route_path Router.route_methods
  client_get_worker_info-Agrees zero uuid c s h =
      handled-Agrees laws status_ok s (beside s (get_worker_info uuid s.workers))
        (λ w. new_response (worker_info w) []) (process_response zero web.unmarshal_worker_info) _ _
        (ap (sent laws status_ok) (
          with_uuid-valid uuid [] s
            (λ x.
              answer s (get_worker_info x s.workers) (λ w. ok (new_response (worker_info w) [], s)))
            h
          ∙ answer-mapped s (get_worker_info uuid s.workers) (λ w. (w, s))
              (λ w. new_response (worker_info w) [])))
        (ap (λ o. received o transport >>- process_response zero web.unmarshal_worker_info)
          (network-routed Router.get_worker_info uuid c s get [] refl))
        (read_error laws zero web.unmarshal_worker_info)
        (read_panic zero web.unmarshal_worker_info handler_fault (omega arith))
        (λ w t e.
          answered_data laws status_ok (worker_info w)
            ((worker_state_hdr, worker_state_name w.state) ∷ []) zero web.unmarshal_worker_info w
            refl refl refl refl refl (laws.worker_info_back w))

  -- If what is marshalled can be read back, the transport brings the client's SetState, with a
  -- well-formed UUID, to the route of that path and its answer back, and SetState of the server
  -- returns, then the server answers and ends as SetState leaves it, and the client's SetState
  -- fails to unmarshal the answer.
  pub client_set_state-fails :
      (uuid : WorkerUuid) (state : WorkerState) (c : Clocks) (s t : Server)
      → is_valid_uuid uuid ≡ true
      → admin_set_state uuid state c.now s ≡ ok t
      → ((resp : HttpResponse) × (serve Router.set_worker_state c
              (record { id = uuid; body = web.marshal (worker_state state) })
              s
            ≡ ok (resp, t)))
        × (client_set_state (network Router.set_worker_state uuid c s) uuid state
            ≡ failed unmarshalling)
  unfolding client_set_state serve Router.route_path Router.route_methods new_response
  client_set_state-fails uuid state c s t h e =
      let served : serve Router.set_worker_state c
            (record { id = uuid; body = web.marshal (worker_state state) }) s
          ≡ ok (_, t) =
        ap (sent laws status_accepted) (
          with_uuid-valid uuid (web.marshal (worker_state state)) s
            (λ x.
              decoded s (web.decode_state (web.marshal (worker_state state)))
                (λ y. done s (admin_set_state x y c.now s)))
            h
          ∙ decoded-value s (λ y. done s (admin_set_state uuid y c.now s)) state
              (laws.decode_state_back state)
          ∙ ap (done s) e)
        ∙ refl in
      (
        (_, served),
        posted Router.set_worker_state uuid c s (web.marshal (worker_state state)) process_nil refl
            ∙ rw served refl,
      )
