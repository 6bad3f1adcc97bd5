-- ===== src/Samples/Listed.antt =====
-- Lists of requests and of workers as texts, for the tests.
use boruta.Common.{◌≡◌, refl, ap, ◌∙◌, List, [], ◌∷◌, map, Text}
use boruta.Types.{ReqInfo, WorkerInfo}
use boruta.Samples.Codec.{
  encode, decode, decode-encode, req_texts, texts_req, req_back, worker_texts, texts_worker,
  worker_back,
}

map-back :
    {A : Type 0} (to : A → Text) (of : Text → A)
    → ((a : A) → of (to a) ≡ a)
    → (l : List A) → map of (map to l) ≡ l
map-back to of h [] = refl
map-back to of h (a ∷ l) = rw (h a, map-back to of h l) refl

abbrev req_text : ReqInfo → Text
req_text r = encode (req_texts r)

abbrev text_req : Text → ReqInfo
text_req t = texts_req (decode t)

abbrev pub reqs_text : List ReqInfo → Text
reqs_text l = encode (map req_text l)

abbrev pub text_reqs : Text → List ReqInfo
text_reqs t = map text_req (decode t)

pub reqs_back : (l : List ReqInfo) → text_reqs (reqs_text l) ≡ l
reqs_back l =
    ap (map text_req) (decode-encode (map req_text l)) ∙ map-back req_text text_req req_back l

abbrev worker_text : WorkerInfo → Text
worker_text w = encode (worker_texts w)

abbrev text_worker : Text → WorkerInfo
text_worker t = texts_worker (decode t)

abbrev pub workers_text : List WorkerInfo → Text
workers_text l = encode (map worker_text l)

abbrev pub text_workers : Text → List WorkerInfo
text_workers t = map text_worker (decode t)

pub workers_back : (l : List WorkerInfo) → text_workers (workers_text l) ≡ l
workers_back l =
    ap (map text_worker) (decode-encode (map worker_text l))
    ∙ map-back worker_text text_worker worker_back l
