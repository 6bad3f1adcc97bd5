-- ===== src/Filter.antt =====
-- filter/filter.go: which workers and requests a filter matches. A filter is asked about elements of
-- its own type only, so the type switch of Match is not in the model.
pub mod Sound
use boruta.Common.{
  ℕ, Bool, true, false, not, ◌&&◌, ◌||◌, Option, none, some, List, [], ◌∷◌, map, Text, text_eq,
  ◌==◌, nat_eq, if◌then◌else◌, Map, lookup, insert,
}
use boruta.Types.{ReqId, Priority, ReqState, Capabilities, ReqInfo, WorkerInfo, req_state_name}
use boruta.Std.{Std}

pub record Workers : Type 0 where
  pub groups : List Text
  pub capabilities : Capabilities
  pub matcher : Map Text Bool

pub record Requests : Type 0 where
  pub ids : List ReqId
  pub priorities : List Priority
  pub states : List Text

-- `len(l) == 0`
abbrev pub is_empty {ℓ} : {A : Type ℓ} → List A → Bool
is_empty [] = true
is_empty (x ∷ xs) = false

unfoldable pub new_requests : ⦃std : Std⦄ → List ReqId → List Priority → List Text → Requests
new_requests ⦃std⦄ ids priorities states = record {
  ids = ids;
  priorities = priorities;
  states = map (λ s. std.trim_space (std.to_upper s)) states;
}

unfoldable pub req_id_in_slice : ReqId → List ReqId → Bool
req_id_in_slice id [] = false
req_id_in_slice id (x ∷ l) = x == id || req_id_in_slice id l

unfoldable pub priority_in_slice : Priority → List Priority → Bool
priority_in_slice p [] = false
priority_in_slice p (x ∷ l) = x == p || priority_in_slice p l

unfoldable pub req_state_in_slice : ReqState → List Text → Bool
unfolding req_state_name
req_state_in_slice s [] = false
req_state_in_slice s (x ∷ l) = x == req_state_name s || req_state_in_slice s l

unfoldable pub match_request : Requests → ReqInfo → Bool
match_request f req =
    if not (is_empty f.ids) && not (req_id_in_slice req.id f.ids)
    then false
    else (if not (is_empty f.states) && not (req_state_in_slice req.state f.states)
        then false
        else not (not (is_empty f.priorities) && not (priority_in_slice req.priority f.priorities)))

-- The loop of makeMatcher over the groups.
unfoldable pub add_groups : Map Text Bool → List Text → Map Text Bool
add_groups ret [] = ret
add_groups ret (group ∷ groups) = add_groups (insert group true ret) groups

unfoldable pub make_matcher : List Text → Map Text Bool
unfolding add_groups
make_matcher groups = add_groups [] groups

unfoldable pub new_workers : List Text → Capabilities → Workers
unfolding make_matcher
new_workers groups caps = record {
  groups = groups;
  capabilities = caps;
  matcher = make_matcher groups;
}

-- The loop over the required capabilities.
unfoldable pub has_all_caps : Capabilities → Capabilities → Bool
has_all_caps have [] = true
has_all_caps have ((key, value) ∷ caps) = elim (lookup key have) [
  | none ↦ false
  | some found ↦ if not (value == found) then false else has_all_caps have caps
]

unfoldable pub is_caps_matching : WorkerInfo → Capabilities → Bool
unfolding has_all_caps
is_caps_matching worker caps = if is_empty caps then true else has_all_caps worker.caps caps

-- `m[k]` of a map of Booleans: false if there is no `k`.
abbrev pub flag : Option Bool → Bool
flag none = false
flag (some b) = b

-- The loop over the worker's groups.
unfoldable pub has_any_group : List Text → Map Text Bool → Bool
has_any_group [] matcher = false
has_any_group (g ∷ groups) matcher = flag (lookup g matcher) || has_any_group groups matcher

unfoldable pub is_groups_matching : WorkerInfo → Map Text Bool → Bool
unfolding has_any_group
is_groups_matching worker matcher =
    if is_empty matcher then true else has_any_group worker.groups matcher

unfoldable pub match_worker : Workers → WorkerInfo → Bool
unfolding is_groups_matching is_caps_matching
match_worker f worker =
    if not (is_groups_matching worker f.matcher)
    then false
    else (if not (is_caps_matching worker f.capabilities) then false else true)
