-- ===== src/Samples/Web.antt =====
-- A sample of encoding/json and of what else the HTTP API takes from Go, for the tests.
use boruta.Common.{ltb, ℕ, refl, ap, [], ◌∷◌, Text, codes, Option, none, some, zero, suc}
use boruta.Types.{ReqInfo, invalid, worker_state_code}
use boruta.Http.{
  Web, WebLaws, Payload, nothing, server_error, req_id, req_info, req_infos, access, worker_info,
  worker_infos, version, update, requests_spec, workers_spec, worker_state, groups, Decoded, value,
  no_body, not_json,
}
use boruta.Samples.Codec.{
  encode, decode, decode-encode, first, worker_state_of, worker_state_back, req_texts, texts_req,
  req_back, worker_texts, texts_worker, worker_back, access_texts, texts_access, access_back,
}
use boruta.Http.Listing.{ListLaws}
use boruta.Samples.Listed.{
  reqs_text, text_reqs, reqs_back, workers_text, text_workers, workers_back,
}
use boruta.Samples.Specs.{
  requests_spec_text, text_requests_spec, requests_spec_same, workers_spec_text, text_workers_spec,
  workers_spec_same,
}

abbrev sample_marshal : Payload → Text
sample_marshal nothing = codes "null"
sample_marshal (server_error e) = e.err
sample_marshal (req_id id) = id ∷ []
sample_marshal (req_info r) = 0 ∷ encode (req_texts r)
sample_marshal (req_infos l) = 0 ∷ reqs_text l
sample_marshal (access a) = encode (access_texts a)
sample_marshal (worker_info w) = encode (worker_texts w)
sample_marshal (worker_infos l) = workers_text l
sample_marshal (version v) = v.server
sample_marshal (update p d v) = 1 ∷ p ∷ d ∷ v ∷ []
sample_marshal (requests_spec x) = 0 ∷ requests_spec_text x
sample_marshal (workers_spec x) = 0 ∷ workers_spec_text x
sample_marshal (worker_state x) = worker_state_code x ∷ []
sample_marshal (groups l) = encode l

abbrev sample_update : Text → Decoded ReqInfo
sample_update (p ∷ d ∷ v ∷ []) = value (record {
  id = 0;
  priority = p;
  owner = record { groups = [] };
  deadline = d;
  valid_after = v;
  state = invalid;
  job = none;
  caps = [];
})
sample_update _ = not_json []

abbrev sample_decode : Text → Decoded ReqInfo
sample_decode [] = no_body
sample_decode (zero ∷ t) = value (texts_req (decode t))
sample_decode (suc n ∷ t) = sample_update t

-- A text with the mark 0 in front.
abbrev marked : {A : Type 0} → (Text → A) → Text → Option A
marked of [] = none
marked of (zero ∷ t) = some (of t)
marked of (suc n ∷ t) = none

abbrev read_number : Text → Option ℕ
read_number [] = none
read_number (n ∷ t) = some n

-- A text with a mark in front.
abbrev body_of : {A : Type 0} → (Text → A) → Text → Decoded A
body_of of [] = no_body
body_of of (n ∷ t) = value (of t)

abbrev pub sample_web : Web
sample_web = record {
  marshal = sample_marshal;
  decode_req_info = sample_decode;
  decode_requests_spec = λ t. body_of text_requests_spec t;
  decode_workers_spec = λ t. body_of text_workers_spec t;
  decode_state = λ t. value (worker_state_of (first t));
  decode_groups = λ t. value (decode t);
  unmarshal_error = λ t. some t;
  unmarshal_req_id = read_number;
  unmarshal_req_info = λ t. marked (λ u. texts_req (decode u)) t;
  unmarshal_req_infos = λ t. marked text_reqs t;
  unmarshal_access = λ t. some (texts_access (decode t));
  unmarshal_worker_info = λ t. some (texts_worker (decode t));
  unmarshal_worker_infos = λ t. some (text_workers t);
  parse_uint = read_number;
  scan_uint = read_number;
  format_uint = λ n. n ∷ [];
  key_to_pem = λ k. k ∷ [];
  key_of_pem = read_number;
  format_time = λ t. t ∷ [];
  parse_time = read_number;
  no_state = invalid;
  external_text = codes "external";
  can_marshal_time = λ t. ltb t 5000;
  time_error_text = codes "year";
  fault_text = codes "nil";
}

pub sample_WebLaws : WebLaws sample_web
sample_WebLaws = record {
  error_back = λ e. refl;
  req_id_back = λ id. refl;
  req_info_none = λ t. refl;
  req_info_back = λ r h. ap some (req_back r);
  access_back = λ a. ap some (access_back a);
  worker_info_back = λ w. ap some (worker_back w);
  decode_request = λ r h. ap value (req_back r);
  decode_update = λ p d v h. refl;
  decode_groups_back = λ l. ap value (decode-encode l);
  decode_state_back = λ x. ap value (worker_state_back x);
  uint_back = λ n h. refl;
  key_back = λ k. refl;
}

pub sample_ListLaws : ListLaws sample_web
sample_ListLaws = record {
  scan_back = λ n h. refl;
  req_infos_none = λ t. refl;
  req_infos_back = λ l h. ap some (reqs_back l);
  worker_infos_back = λ l. ap some (workers_back l);
  requests_spec_back = λ x. ap value (requests_spec_same x);
  workers_spec_back = λ x. ap value (workers_spec_same x);
}
