-- ===== src/Samples/Specs.antt =====
-- What a client asks of them, as texts, for the tests.
use boruta.Common.{◌≡◌, refl, ap, [], ◌∷◌, Text, Option, none, some}
use boruta.Lists.{
  SortOrder, ascending, descending, SortInfo, ListDirection, forward, backward, RequestsPaginator,
  WorkersPaginator,
}
use mathlib.Core.Option
use boruta.Filter
use boruta.Http.{RequestsListSpec, WorkersListSpec}
use boruta.Http.Listing.{plain_filter}
use boruta.Samples.Codec.{
  encode, decode, decode-encode, first, nth, caps_texts, texts_caps, caps_back,
}

-- A value that may be missing: the empty text, or a text with a mark in front.
abbrev option_text {ℓ} : {A : Type ℓ} → (A → Text) → Option A → Text
option_text to none = []
option_text to (some a) = 0 ∷ to a

abbrev text_option {ℓ} : {A : Type ℓ} → (Text → A) → Text → Option A
text_option of [] = none
text_option of (n ∷ t) = some (of t)

option_back {ℓ} :
    {A : Type ℓ} (to : A → Text) (of : Text → A) (kept : A → A)
    → ((a : A) → of (to a) ≡ kept a)
    → (o : Option A) → text_option of (option_text to o) ≡ Option.map kept o
option_back to of kept h none = refl
option_back to of kept h (some a) = ap some (h a)

option_same {ℓ} :
    {A : Type ℓ} (to : A → Text) (of : Text → A)
    → ((a : A) → of (to a) ≡ a)
    → (o : Option A) → text_option of (option_text to o) ≡ o
option_same to of h none = refl
option_same to of h (some a) = ap some (h a)

abbrev order_text : SortOrder → Text
order_text ascending = []
order_text descending = 1 ∷ []

abbrev text_order : Text → SortOrder
text_order [] = ascending
text_order (n ∷ t) = descending

order_back : (o : SortOrder) → text_order (order_text o) ≡ o
order_back ascending = refl
order_back descending = refl

abbrev way_text : ListDirection → Text
way_text forward = []
way_text backward = 1 ∷ []

abbrev text_way : Text → ListDirection
text_way [] = forward
text_way (n ∷ t) = backward

way_back : (d : ListDirection) → text_way (way_text d) ≡ d
way_back forward = refl
way_back backward = refl

abbrev sort_text : SortInfo → Text
sort_text si = encode (si.item ∷ order_text si.order ∷ [])

abbrev text_sort : Text → SortInfo
text_sort t = let l = decode t in record { item = nth 0 l; order = text_order (nth 1 l) }

sort_back : (si : SortInfo) → text_sort (sort_text si) ≡ si
sort_back si = rw (decode-encode (si.item ∷ order_text si.order ∷ []), order_back si.order) refl

abbrev reqs_page_text : RequestsPaginator → Text
reqs_page_text p = encode ((p.id ∷ []) ∷ way_text p.direction ∷ (p.limit ∷ []) ∷ [])

abbrev text_reqs_page : Text → RequestsPaginator
text_reqs_page t =
    let l = decode t in
    record { id = first (nth 0 l); direction = text_way (nth 1 l); limit = first (nth 2 l) }

reqs_page_back : (p : RequestsPaginator) → text_reqs_page (reqs_page_text p) ≡ p
reqs_page_back p =
    rw
      (
        decode-encode ((p.id ∷ []) ∷ way_text p.direction ∷ (p.limit ∷ []) ∷ []),
        way_back p.direction,
      )
      refl

abbrev workers_page_text : WorkersPaginator → Text
workers_page_text p = encode (p.id ∷ way_text p.direction ∷ (p.limit ∷ []) ∷ [])

abbrev text_workers_page : Text → WorkersPaginator
text_workers_page t =
    let l = decode t in
    record { id = nth 0 l; direction = text_way (nth 1 l); limit = first (nth 2 l) }

workers_page_back : (p : WorkersPaginator) → text_workers_page (workers_page_text p) ≡ p
workers_page_back p =
    rw (decode-encode (p.id ∷ way_text p.direction ∷ (p.limit ∷ []) ∷ []), way_back p.direction)
      refl

abbrev reqs_filter_text : Filter.Requests → Text
reqs_filter_text f = encode (f.ids ∷ f.priorities ∷ encode f.states ∷ [])

abbrev text_reqs_filter : Text → Filter.Requests
text_reqs_filter t =
    let l = decode t in record { ids = nth 0 l; priorities = nth 1 l; states = decode (nth 2 l) }

reqs_filter_back : (f : Filter.Requests) → text_reqs_filter (reqs_filter_text f) ≡ f
reqs_filter_back f =
    rw (decode-encode (f.ids ∷ f.priorities ∷ encode f.states ∷ []), decode-encode f.states) refl

abbrev workers_filter_text : Filter.Workers → Text
workers_filter_text f = encode (encode f.groups ∷ encode (caps_texts f.capabilities) ∷ [])

abbrev text_workers_filter : Text → Filter.Workers
text_workers_filter t =
    let l = decode t in
    record { groups = decode (nth 0 l); capabilities = texts_caps (decode (nth 1 l)); matcher = [] }

workers_filter_back :
    (f : Filter.Workers) → text_workers_filter (workers_filter_text f) ≡ plain_filter f
workers_filter_back f =
    rw
      (
        decode-encode (encode f.groups ∷ encode (caps_texts f.capabilities) ∷ []),
        decode-encode f.groups,
        decode-encode (caps_texts f.capabilities),
        caps_back f.capabilities,
      )
      refl

abbrev pub requests_spec_text : RequestsListSpec → Text
requests_spec_text x = encode (
    option_text reqs_filter_text x.filter
    ∷ option_text sort_text x.sorter
    ∷ option_text reqs_page_text x.paginator
    ∷ [])

abbrev pub text_requests_spec : Text → RequestsListSpec
text_requests_spec t =
    let l = decode t in
    record {
      filter = text_option text_reqs_filter (nth 0 l);
      sorter = text_option text_sort (nth 1 l);
      paginator = text_option text_reqs_page (nth 2 l);
    }

pub requests_spec_same : (x : RequestsListSpec) → text_requests_spec (requests_spec_text x) ≡ x
requests_spec_same x =
    rw
      (
        decode-encode (
            option_text reqs_filter_text x.filter
            ∷ option_text sort_text x.sorter
            ∷ option_text reqs_page_text x.paginator
            ∷ []),
        option_same reqs_filter_text text_reqs_filter reqs_filter_back x.filter,
        option_same sort_text text_sort sort_back x.sorter,
        option_same reqs_page_text text_reqs_page reqs_page_back x.paginator,
      )
      refl

abbrev pub workers_spec_text : WorkersListSpec → Text
workers_spec_text x = encode (
    option_text workers_filter_text x.filter
    ∷ option_text sort_text x.sorter
    ∷ option_text workers_page_text x.paginator
    ∷ [])

abbrev pub text_workers_spec : Text → WorkersListSpec
text_workers_spec t =
    let l = decode t in
    record {
      filter = text_option text_workers_filter (nth 0 l);
      sorter = text_option text_sort (nth 1 l);
      paginator = text_option text_workers_page (nth 2 l);
    }

pub workers_spec_same :
    (x : WorkersListSpec)
    → text_workers_spec (workers_spec_text x)
      ≡ record x { filter = Option.map plain_filter x.filter }
workers_spec_same x =
    rw
      (
        decode-encode (
            option_text workers_filter_text x.filter
            ∷ option_text sort_text x.sorter
            ∷ option_text workers_page_text x.paginator
            ∷ []),
        option_back workers_filter_text text_workers_filter plain_filter workers_filter_back
            x.filter,
        option_same sort_text text_sort sort_back x.sorter,
        option_same workers_page_text text_workers_page workers_page_back x.paginator,
      )
      refl
