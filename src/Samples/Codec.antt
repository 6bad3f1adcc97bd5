-- ===== src/Samples/Codec.antt =====
-- A text that holds a list of texts, for the tests: what the sample of encoding/json stands on.
use boruta.Common.{ℕ, zero, suc, ◌≡◌, refl, ap, ◌∙◌, List, [], ◌∷◌, Text, Option, none, some}
use boruta.Types.{
  ReqInfo, ReqState, wait, inprogress, cancel, timeout, invalid, done, failed, req_state_code,
  JobInfo, WorkerInfo, WorkerState, maintenance, idle, run, fail, prepare, busy, worker_state_code,
  Capabilities,
}
use boruta.Http.{AccessInfo2}

abbrev field : Text → Text → Text
field [] rest = 0 ∷ rest
field (c ∷ t) rest = suc c ∷ field t rest

abbrev pub encode : List Text → Text
encode [] = []
encode (t ∷ l) = field t (encode l)

abbrev extend : ℕ → List Text → List Text
extend c [] = []
extend c (t ∷ l) = (c ∷ t) ∷ l

abbrev pub decode : Text → List Text
decode [] = []
decode (zero ∷ t) = [] ∷ decode t
decode (suc c ∷ t) = extend c (decode t)

decode-field : (t rest : Text) → decode (field t rest) ≡ t ∷ decode rest
decode-field [] rest = refl
decode-field (c ∷ t) rest = rw (decode-field t rest) refl

pub decode-encode : (l : List Text) → decode (encode l) ≡ l
decode-encode [] = refl
decode-encode (t ∷ l) = decode-field t (encode l) ∙ ap (λ m. t ∷ m) (decode-encode l)

abbrev pub caps_texts : Capabilities → List Text
caps_texts [] = []
caps_texts ((k, v) ∷ m) = k ∷ v ∷ caps_texts m

abbrev pub texts_caps : List Text → Capabilities
texts_caps [] = []
texts_caps (k ∷ []) = []
texts_caps (k ∷ v ∷ l) = (k, v) ∷ texts_caps l

pub caps_back : (m : Capabilities) → texts_caps (caps_texts m) ≡ m
caps_back [] = refl
caps_back ((k, v) ∷ m) = ap (λ l. (k, v) ∷ l) (caps_back m)

abbrev pub first : Text → ℕ
first [] = 0
first (n ∷ t) = n

abbrev pub nth : ℕ → List Text → Text
nth n [] = []
nth zero (t ∷ l) = t
nth (suc n) (t ∷ l) = nth n l

abbrev dropped : ℕ → List Text → List Text
dropped zero l = l
dropped (suc n) [] = []
dropped (suc n) (t ∷ l) = dropped n l

abbrev picked : {A : Type 0} → A → List A → ℕ → A
picked a [] n = a
picked a (x ∷ l) zero = x
picked a (x ∷ l) (suc n) = picked a l n

abbrev req_state_of : ℕ → ReqState
req_state_of = picked failed (wait ∷ inprogress ∷ cancel ∷ timeout ∷ invalid ∷ done ∷ [])

req_state_back : (s : ReqState) → req_state_of (req_state_code s) ≡ s
req_state_back wait = refl
req_state_back inprogress = refl
req_state_back cancel = refl
req_state_back timeout = refl
req_state_back invalid = refl
req_state_back done = refl
req_state_back failed = refl

abbrev pub worker_state_of : ℕ → WorkerState
worker_state_of = picked busy (maintenance ∷ idle ∷ run ∷ fail ∷ prepare ∷ [])

pub worker_state_back : (s : WorkerState) → worker_state_of (worker_state_code s) ≡ s
worker_state_back maintenance = refl
worker_state_back idle = refl
worker_state_back run = refl
worker_state_back fail = refl
worker_state_back prepare = refl
worker_state_back busy = refl

abbrev job_text : Option JobInfo → Text
job_text none = []
job_text (some j) = j.timeout_at ∷ j.worker_uuid

abbrev text_job : Text → Option JobInfo
text_job [] = none
text_job (n ∷ t) = some (record { worker_uuid = t; timeout_at = n })

job_back : (j : Option JobInfo) → text_job (job_text j) ≡ j
job_back none = refl
job_back (some j) = refl

abbrev pub req_texts : ReqInfo → List Text
req_texts r =
    (r.id ∷ [])
    ∷ (r.priority ∷ [])
    ∷ encode r.owner.groups
    ∷ (r.deadline ∷ [])
    ∷ (r.valid_after ∷ [])
    ∷ (req_state_code r.state ∷ [])
    ∷ job_text r.job
    ∷ caps_texts r.caps

abbrev pub texts_req : List Text → ReqInfo
texts_req l = record {
  id = first (nth 0 l);
  priority = first (nth 1 l);
  owner = record { groups = decode (nth 2 l) };
  deadline = first (nth 3 l);
  valid_after = first (nth 4 l);
  state = req_state_of (first (nth 5 l));
  job = text_job (nth 6 l);
  caps = texts_caps (dropped 7 l);
}

pub req_back : (r : ReqInfo) → texts_req (decode (encode (req_texts r))) ≡ r
req_back r =
    ap texts_req (decode-encode (req_texts r))
    ∙ rw (decode-encode r.owner.groups, req_state_back r.state, job_back r.job, caps_back r.caps)
        refl

abbrev pub worker_texts : WorkerInfo → List Text
worker_texts w =
    w.worker_uuid ∷ (worker_state_code w.state ∷ []) ∷ encode w.groups ∷ caps_texts w.caps

abbrev pub texts_worker : List Text → WorkerInfo
texts_worker l = record {
  worker_uuid = nth 0 l;
  state = worker_state_of (first (nth 1 l));
  groups = decode (nth 2 l);
  caps = texts_caps (dropped 3 l);
}

pub worker_back : (w : WorkerInfo) → texts_worker (decode (encode (worker_texts w))) ≡ w
worker_back w =
    ap texts_worker (decode-encode (worker_texts w))
    ∙ rw (decode-encode w.groups, worker_state_back w.state, caps_back w.caps) refl

abbrev ip_text : Option Text → Text
ip_text none = []
ip_text (some t) = 0 ∷ t

abbrev text_ip : Text → Option Text
text_ip [] = none
text_ip (n ∷ t) = some t

ip_back : (ip : Option Text) → text_ip (ip_text ip) ≡ ip
ip_back none = refl
ip_back (some t) = refl

abbrev pub access_texts : AccessInfo2 → List Text
access_texts a = ip_text a.addr.ip ∷ (a.addr.port ∷ []) ∷ a.key ∷ a.username ∷ []

abbrev pub texts_access : List Text → AccessInfo2
texts_access l = record {
  addr = record { ip = text_ip (nth 0 l); port = first (nth 1 l) };
  key = nth 2 l;
  username = nth 3 l;
}

pub access_back : (a : AccessInfo2) → texts_access (decode (encode (access_texts a))) ≡ a
access_back a = ap texts_access (decode-encode (access_texts a)) ∙ rw (ip_back a.addr.ip) refl
