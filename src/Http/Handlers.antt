-- ===== src/Http/Handlers.antt =====
-- http/server/api/v1/handlers.go, and parseReqID and isValidUUID of http/server/api/v1/api.go.
use boruta.Common.{
  ℕ, zero, suc, Bool, true, false, not, ◌&&◌, ◌||◌, none, some, [], ◌∷◌, Text, codes, Map, nat_beq,
  leb, text_eq, if◌then◌else◌,
}
use boruta.Types.{ReqId, WorkerUuid, Time, Result, ok, err, panic, blocked}
use boruta.Std.{Std}
use boruta.Lists.{ListInfo}
use mathlib.Core.Option
use boruta.Filter
use boruta.Requests.{new_request, update_request, prolong_access, get_request}
use boruta.Paging.{list_requests}
use boruta.Workers.{list_workers, get_worker_info}
use boruta.Server.{Server}
use boruta.Server.Api.{acquire_worker, close_request, admin_set_state, set_groups, deregister}
use boruta.Http.{
  Web, nothing, req_id, req_info, req_infos, access, worker_info, worker_infos, version, Response,
  Decoded, value, no_body, not_json, HttpError, core, bad_id, bad_uuid, id_mismatch, eof, malformed,
  error_response, new_response, list_total_items_hdr, list_remaining_items_hdr,
}

-- The parameter `id` of the path, and the body.
pub record HttpRequest : Type 0 where
  pub id : Text
  pub body : Text

-- The clocks that NewRequest reads.
pub record Clocks : Type 0 where
  pub now : Time
  pub now_valid : Time
  pub month_ahead : Time

abbrev pub Answer : Type 0
Answer = Result (Response × Server)

-- [0-9a-f]
unfoldable pub is_hex : ℕ → Bool
is_hex c = leb b'0' c && leb c b'9' || leb b'a' c && leb c b'f'

-- `n` digits, and then what `rest` accepts.
unfoldable pub hex_then : ℕ → (Text → Bool) → Text → Bool
unfolding is_hex
hex_then zero rest t = rest t
hex_then (suc n) rest [] = false
hex_then (suc n) rest (c ∷ t) = is_hex c && hex_then n rest t

unfoldable pub dash_then : (Text → Bool) → Text → Bool
dash_then rest [] = false
dash_then rest (c ∷ t) = nat_beq c b'-' && rest t

abbrev pub is_nil : Text → Bool
is_nil [] = true
is_nil (c ∷ t) = false

-- isValidUUID: 8, 4, 4, 4 and 12 digits, with dashes between.
unfoldable pub is_valid_uuid : Text → Bool
unfolding hex_then dash_then
is_valid_uuid = hex_then 8 (
    dash_then (
      hex_then 4
        (dash_then (hex_then 4 (dash_then (hex_then 4 (dash_then (hex_then 12 is_nil))))))))

module _ ⦃web : Web⦄ where
  -- What a handler answers to the outcome of a call: an error leaves the server as it was.
  abbrev pub answer {ℓ} : {A : Type ℓ} → Server → Result A → (A → Answer) → Answer
  answer s (ok a) k = k a
  answer s (err e) k = ok (error_response (core e), s)
  answer s panic k = panic
  answer s blocked k = blocked

  abbrev pub fail_with : Server → HttpError → Answer
  fail_with s e = ok (error_response e, s)

  -- util.NewResponse(err, nil) after a call that returns an error only.
  abbrev pub done : Server → Result Server → Answer
  done s m = answer s m λ t. ok (new_response nothing [], t)

  -- The `id` of the path as a ReqID or as a UUID.
  abbrev pub with_req_id : HttpRequest → Server → (ReqId → Answer) → Answer
  with_req_id r s k = elim (web.parse_uint r.id) [ none ↦ fail_with s bad_id | some rid ↦ k rid ]

  abbrev pub with_uuid : HttpRequest → Server → (WorkerUuid → Answer) → Answer
  with_uuid r s k = if not (is_valid_uuid r.id) then fail_with s bad_uuid else k r.id

  -- A body that must be there.
  abbrev pub decoded {ℓ} : {A : Type ℓ} → Server → Decoded A → (A → Answer) → Answer
  decoded s (value a) k = k a
  decoded s no_body k = fail_with s eof
  decoded s (not_json t) k = fail_with s (malformed t)

  -- A body that may be left out.
  abbrev pub decoded_or {ℓ} : {A : Type ℓ} → Server → A → Decoded A → (A → Answer) → Answer
  decoded_or s default (value a) k = k a
  decoded_or s default no_body k = k default
  decoded_or s default (not_json t) k = fail_with s (malformed t)

  unfoldable pub list_headers : ListInfo → Map Text Text
  list_headers info =
      (list_total_items_hdr, web.format_uint info.total_items)
      ∷ (list_remaining_items_hdr, web.format_uint info.remaining_items)
      ∷ []

  module _ ⦃std : Std⦄ where
    unfoldable pub new_request_handler : Clocks → HttpRequest → Server → Answer
    unfolding new_request
    new_request_handler c r s = decoded s (web.decode_req_info r.body) λ new_req.
        answer s
          (new_request new_req.caps new_req.priority (record { groups = [] }) new_req.valid_after
            new_req.deadline c.now c.now_valid c.month_ahead s.reqs)
          λ (rid, d). ok (new_response (req_id rid) [], record s { reqs = d })

    unfoldable pub close_request_handler : Time → HttpRequest → Server → Answer
    unfolding close_request is_valid_uuid
    close_request_handler now r s = with_req_id r s λ rid. done s (close_request rid now s)

    unfoldable pub update_request_handler : Time → HttpRequest → Server → Answer
    unfolding update_request
    update_request_handler now r s = with_req_id r s λ rid.
        decoded s (web.decode_req_info r.body) λ req.
          if not (nat_beq req.id 0) && not (nat_beq req.id rid)
          then fail_with s id_mismatch
          else answer s (update_request (some (record req { id = rid })) now s.reqs)
              λ d. ok (new_response nothing [], record s { reqs = d })

    unfoldable pub get_request_info_handler : HttpRequest → Server → Answer
    unfolding get_request
    get_request_info_handler r s =
        with_req_id r s
          λ rid. answer s (get_request rid s.reqs) λ info. ok (new_response (req_info info) [], s)

    unfoldable pub list_requests_handler : HttpRequest → Server → Answer
    unfolding list_requests list_headers
    list_requests_handler r s =
        decoded_or s (record { filter = none; sorter = none; paginator = none })
          (web.decode_requests_spec r.body)
          λ spec.
            answer s
              (list_requests (Option.map Filter.match_request spec.filter) spec.sorter
                spec.paginator s.reqs)
              λ (reqs, info). ok (new_response (req_infos reqs) (list_headers info), s)

    unfoldable pub acquire_worker_handler : HttpRequest → Server → Answer
    unfolding acquire_worker
    acquire_worker_handler r s = with_req_id r s λ rid. answer s (acquire_worker rid s) λ info. ok (
      new_response
          (access
            (record { addr = info.addr; key = web.key_to_pem info.key; username = info.username }))
          [],
      s,
    )

    unfoldable pub prolong_access_handler : Time → HttpRequest → Server → Answer
    unfolding prolong_access
    prolong_access_handler now r s = with_req_id r s λ rid.
        answer s (prolong_access rid now s.reqs)
          λ d. ok (new_response nothing [], record s { reqs = d })

    unfoldable pub list_workers_handler : HttpRequest → Server → Answer
    unfolding list_workers list_headers
    list_workers_handler r s =
        decoded_or s (record { filter = none; sorter = none; paginator = none })
          (web.decode_workers_spec r.body)
          λ spec.
            answer s
              (list_workers
                (Option.map (λ f. Filter.match_worker (Filter.new_workers f.groups f.capabilities))
                  spec.filter)
                spec.sorter spec.paginator s.workers)
              λ (workers, info). ok (new_response (worker_infos workers) (list_headers info), s)

    unfoldable pub get_worker_info_handler : HttpRequest → Server → Answer
    unfolding get_worker_info is_valid_uuid
    get_worker_info_handler r s = with_uuid r s λ uuid.
        answer s (get_worker_info uuid s.workers) λ info. ok (new_response (worker_info info) [], s)

    unfoldable pub set_worker_state_handler : Time → HttpRequest → Server → Answer
    unfolding admin_set_state is_valid_uuid
    set_worker_state_handler now r s = with_uuid r s λ uuid.
        decoded s (web.decode_state r.body) λ state. done s (admin_set_state uuid state now s)

    unfoldable pub set_worker_groups_handler : Time → HttpRequest → Server → Answer
    unfolding set_groups is_valid_uuid
    set_worker_groups_handler now r s =
        with_uuid r s λ uuid.
          decoded s (web.decode_groups r.body) λ groups. done s (set_groups uuid groups now s)

    unfoldable pub worker_deregister : HttpRequest → Server → Answer
    unfolding deregister is_valid_uuid
    worker_deregister r s = with_uuid r s λ uuid. done s (deregister uuid s)

  -- `server` is boruta.Version.
  unfoldable pub version_handler : Text → HttpRequest → Server → Answer
  version_handler server r s = ok (
    new_response (version (record { server = server; api = codes "v1"; state = codes "devel" })) [],
    s,
  )
