-- ===== src/Sorter.antt =====
-- requests/sorter.go and workers/sorter.go: what a list is sorted by. An item is recognised once, by
-- newSorter, so the panic of Less at an unknown item is not in the model. Less is asked about two
-- elements, where the source asks about two indices.
pub mod Order
use boruta.Common.{
  ℕ, Bool, true, false, not, Option, none, some, List, [], ◌∷◌, Text, codes, text_eq, text_lt, ltb,
  nat_beq, nat_eq, ◌==◌, ◌||◌, if◌then◌else◌,
}
use boruta.Types.{
  ReqInfo, WorkerInfo, req_state_name, worker_state_name, req_state_eq, worker_state_eq, Result, ok,
  err, wrong_sort_item,
}
use boruta.Lists.{SortOrder, ascending, descending, SortInfo}
use boruta.Std.{Std}

pub data ReqItem : Type 0 where
  by_id by_priority by_deadline by_valid_after by_state : ReqItem

pub record ReqSorter : Type 0 where
  pub item : ReqItem
  pub order : SortOrder

pub data WorkerItem : Type 0 where
  by_uuid by_worker_state by_groups : WorkerItem

pub record WorkerSorter : Type 0 where
  pub item : WorkerItem
  pub order : SortOrder

unfoldable pub req_item : Text → Option ReqItem
req_item t =
    if t == codes "" || t == codes "id"
    then some by_id
    else (if t == codes "priority"
        then some by_priority
        else (if t == codes "deadline"
            then some by_deadline
            else (if t == codes "validafter"
                then some by_valid_after
                else (if t == codes "state" then some by_state else none))))

unfoldable pub new_req_sorter : ⦃std : Std⦄ → Option SortInfo → Result ReqSorter
unfolding req_item
new_req_sorter ⦃std⦄ none = ok (record { item = by_id; order = ascending })
new_req_sorter ⦃std⦄ (some info) = elim (req_item (std.to_lower info.item)) [
  | none ↦ err wrong_sort_item
  | some item ↦ ok (record { item = item; order = info.order })
]

unfoldable pub worker_item : Text → Option WorkerItem
worker_item t =
    if t == codes "" || t == codes "uuid"
    then some by_uuid
    else (if t == codes "state"
        then some by_worker_state
        else (if t == codes "groups" then some by_groups else none))

unfoldable pub new_worker_sorter : ⦃std : Std⦄ → Option SortInfo → Result WorkerSorter
unfolding worker_item
new_worker_sorter ⦃std⦄ none = ok (record { item = by_uuid; order = ascending })
new_worker_sorter ⦃std⦄ (some info) = elim (worker_item (std.to_lower info.item)) [
  | none ↦ err wrong_sort_item
  | some item ↦ ok (record { item = item; order = info.order })
]

-- `a < b` if ascending, `b < a` if descending.
abbrev directed : SortOrder → Bool → Bool → Bool
directed ascending below above = below
directed descending below above = above

unfoldable pub less_id : SortOrder → ReqInfo → ReqInfo → Bool
less_id order a b = directed order (ltb a.id b.id) (ltb b.id a.id)

abbrev less_nat_then_id : (ReqInfo → ℕ) → SortOrder → ReqInfo → ReqInfo → Bool
less_nat_then_id key order a b =
    if nat_beq (key a) (key b)
    then less_id order a b
    else directed order (ltb (key a) (key b)) (ltb (key b) (key a))

-- sorter.Less of package requests
unfoldable pub less_request : ReqItem → SortOrder → ReqInfo → ReqInfo → Bool
unfolding less_id
less_request by_id order a b = less_id order a b
less_request by_priority order a b = less_nat_then_id (λ r. r.priority) order a b
less_request by_deadline order a b = less_nat_then_id (λ r. r.deadline) order a b
less_request by_valid_after order a b = less_nat_then_id (λ r. r.valid_after) order a b
less_request by_state order a b =
    if a.state == b.state
    then less_id order a b
    else directed order (text_lt (req_state_name a.state) (req_state_name b.state))
        (text_lt (req_state_name b.state) (req_state_name a.state))

abbrev apply_sort_order : SortOrder → Bool → Bool
apply_sort_order ascending b = b
apply_sort_order descending b = not b

unfoldable pub less_uuid : SortOrder → WorkerInfo → WorkerInfo → Bool
less_uuid order a b = apply_sort_order order (text_lt a.worker_uuid b.worker_uuid)

-- The loop over the groups up to the shorter length, and what follows it: `tie` is for equal lists.
unfoldable pub less_groups : SortOrder → Bool → List Text → List Text → Bool
less_groups order tie [] [] = tie
less_groups order tie [] (y ∷ gb) = apply_sort_order order true
less_groups order tie (x ∷ ga) [] = apply_sort_order order false
less_groups order tie (x ∷ ga) (y ∷ gb) =
    if text_lt x y
    then apply_sort_order order true
    else (if text_lt y x then apply_sort_order order false else less_groups order tie ga gb)

-- sorter.Less of package workers
unfoldable pub less_worker : WorkerItem → SortOrder → WorkerInfo → WorkerInfo → Bool
unfolding less_uuid less_groups
less_worker by_uuid order a b = less_uuid order a b
less_worker by_worker_state order a b =
    if a.state == b.state
    then less_uuid order a b
    else apply_sort_order order (text_lt (worker_state_name a.state) (worker_state_name b.state))
less_worker by_groups order a b = less_groups order (less_uuid order a b) a.groups b.groups
