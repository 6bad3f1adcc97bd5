-- ===== src/Paging.antt =====
-- The listing of requests (requests/requests.go, ListRequests): filter, sort, cut the page out.
pub mod Pages
pub mod Walk
pub mod Numbers
use boruta.Common.{
  ℕ, suc, ◌+◌, ◌-◌, Bool, true, false, not, ◌&&◌, ◌||◌, Option, none, some, List, [], ◌∷◌,
  if◌then◌else◌, ltb, nat_beq, nat_eq, length, take, drop, select, lookup, is_none, values, codes,
}
use boruta.Types.{ReqInfo, Result, ok, ◌>>=◌, ◌>>◌, fail_if, not_found}
use boruta.Lists.{
  SortInfo, ListInfo, RequestsPaginator, ListDirection, forward, backward, max_page_limit,
}
use boruta.Std.{Std}
use boruta.Sorter.{new_req_sorter, less_request}
use boruta.Requests.{ReqsCollection}

abbrev pub min : ℕ → ℕ → ℕ
min a b = if ltb a b then a else b

-- The limit that a page has: 0 asks for the most. A limit is a uint16, so none is above the most.
unfoldable pub page_limit : ℕ → ℕ
page_limit n = if nat_beq n 0 || ltb max_page_limit n then max_page_limit else n

module _ {ℓ} {A : Type ℓ} where
  -- The loop that looks for the paginator's element: the index stays 0 if there is none.
  unfoldable pub index_from : ℕ → (A → Bool) → List A → ℕ
  index_from i at [] = 0
  index_from i at (x ∷ xs) = let later = index_from (suc i) at xs in if at x then i else later

  -- What follows the sort: `at` tells the paginator's element, `has_id` whether there is one, and
  -- `hidden` whether the filter does not match it.
  unfoldable pub cut_page :
      (A → Bool) → (has_id hidden : Bool) → ListDirection → ℕ → List A → List A × ListInfo
  unfolding index_from
  cut_page at has_id hidden forward limit res =
      let total = length res in
      let index = index_from 0 at res + (if has_id then 1 else 0) in
      let elems = min limit (total - index) in
      (
        take elems (drop index res),
        record {
          total_items = if hidden then total - 1 else total;
          remaining_items = total - index - elems;
        },
      )
  cut_page at has_id hidden backward limit res =
      let total = length res in
      let index = if has_id then index_from 0 at res else total in
      let elems = min limit index in
      (
        take elems (drop (index - elems) res),
        record {
          total_items = if hidden then total - 1 else total;
          remaining_items = index - elems;
        },
      )

  -- An empty result is returned as it is.
  unfoldable pub page :
      (A → Bool) → (has_id hidden : Bool) → ListDirection → ℕ → List A → List A × ListInfo
  unfolding cut_page
  page at has_id hidden direction limit [] = ([], record { total_items = 0; remaining_items = 0 })
  page at has_id hidden direction limit (x ∷ xs) =
      cut_page at has_id hidden direction limit (x ∷ xs)

abbrev pub default_paginator : RequestsPaginator
default_paginator = record { id = 0; direction = forward; limit = max_page_limit }

abbrev pub or_default {ℓ} : {A : Type ℓ} → Option A → A → A
or_default none d = d
or_default (some a) d = a

-- A nil filter matches everything.
abbrev pub passes {ℓ} : {A : Type ℓ} → Option (A → Bool) → A → Bool
passes none a = true
passes (some f) a = f a

-- `filter != nil && paginator.ID != 0 && !filter.Match(pagReq)`, with `pagReq` found
unfoldable pub hides : Option (ReqInfo → Bool) → Option ReqInfo → Bool
hides f none = false
hides f (some r) = not (passes f r)

unfoldable pub list_requests :
    ⦃std : Std⦄
    → Option (ReqInfo → Bool)
    → Option SortInfo
    → Option RequestsPaginator
    → ReqsCollection
    → Result (List ReqInfo × ListInfo)
unfolding hides page page_limit
list_requests ⦃std⦄ filter si paginator c = do
  sorter ← new_req_sorter si
  let p = or_default paginator default_paginator
  let limit = page_limit p.limit
  let has_id = not (nat_beq p.id 0)
  let pag_req = lookup p.id c.requests
  fail_if (has_id && is_none pag_req) (not_found (codes "request"))
  let kept = select (λ r. passes filter r || nat_beq r.id p.id) (values c.requests)
  let res = std.sort_requests (less_request sorter.item sorter.order) kept
  let hidden = has_id && hides filter pag_req
  ok (page (λ r. nat_beq r.id p.id) has_id hidden p.direction limit res)
