-- ===== src/Filter/Sound.antt =====
-- What the filters match, against a description by quantifiers.
use boruta.Common.{
  ◌≡◌, refl, ◌↔◌, Bool, true, false, ◌||◌, some, List, [], ◌∷◌, arith, Text, text_eq, text_beq_iff,
  ◌==◌, Map, lookup, insert, lookup-insert, contains, nat_eq, inl, inr, Option-cases, Bool-cases,
  IsUnique, beq_refl,
}
use boruta.Types.{Capabilities, WorkerInfo}
use boruta.Filter.{
  is_empty, flag, add_groups, make_matcher, new_workers, has_all_caps, is_caps_matching,
  has_any_group, is_groups_matching, match_worker,
}

flag-add_groups :
    (m : Map Text Bool) (groups : List Text) (g : Text)
    → flag (lookup g (add_groups m groups)) ≡ (contains g groups || flag (lookup g m))
unfolding add_groups contains
flag-add_groups m [] g = refl
flag-add_groups m (x ∷ groups) g =
    ground (arith, flag-add_groups (insert x true m) groups g, lookup-insert x g true m)

-- A worker belongs to one of the groups.
unfoldable pub in_any : List Text → List Text → Bool
in_any [] groups = false
in_any (x ∷ xs) groups = contains x groups || in_any xs groups

has_any_group-in_any :
    (have groups : List Text) → has_any_group have (make_matcher groups) ≡ in_any have groups
unfolding has_any_group make_matcher in_any lookup
has_any_group-in_any [] groups = refl
has_any_group-in_any (x ∷ have) groups =
    ground (arith, has_any_group-in_any have groups, flag-add_groups [] groups x)

is_empty-insert : (k : Text) (m : Map Text Bool) → is_empty (insert k true m) ≡ false
unfolding insert
is_empty-insert k [] = refl
is_empty-insert k ((j, v) ∷ m) = ground arith

is_empty-add_groups :
    (m : Map Text Bool) (groups : List Text)
    → is_empty m ≡ false
    → is_empty (add_groups m groups) ≡ false
unfolding add_groups
is_empty-add_groups m [] h = h
is_empty-add_groups m (g ∷ groups) h =
    is_empty-add_groups (insert g true m) groups (is_empty-insert g m)

is_empty-make_matcher : (groups : List Text) → is_empty (make_matcher groups) ≡ is_empty groups
unfolding make_matcher add_groups
is_empty-make_matcher [] = refl
is_empty-make_matcher (g ∷ groups) =
    is_empty-add_groups (insert g true []) groups (is_empty-insert g [])

-- The loop over the required capabilities, one round.
has_all_caps-cons :
    (have : Capabilities) (k v : Text) (caps : Capabilities)
    → (has_all_caps have ((k, v) ∷ caps) ≡ true)
      ↔ ((lookup k have ≡ some v) × (has_all_caps have caps ≡ true))
unfolding has_all_caps
has_all_caps-cons have k v caps = elim (Option-cases (lookup k have)) [
  | inl e ↦ rw (e, has_all_caps) (λ h. cc, λ h. cc)
  | inr (x, e) ↦ rw (e, has_all_caps) (ground (arith, text_beq_iff v x))
]

has_all_caps_sound :
    (have caps : Capabilities)
    → has_all_caps have caps ≡ true
    → (key value : Text) → lookup key caps ≡ some value
    → lookup key have ≡ some value
unfolding lookup
has_all_caps_sound have [] h key value e = cc
has_all_caps_sound have ((k, v) ∷ caps) h key value e =
    let first = (has_all_caps-cons have k v caps).0 h in
    elim (Bool-cases (k == key)) [
      | inl same ↦ ground (arith, text_beq_iff k key)
      | inr other ↦ has_all_caps_sound have caps first.1 key value (rw other at e)
    ]

has_all_caps_complete :
    (have caps : Capabilities)
    → IsUnique caps
    → ((key value : Text) → lookup key caps ≡ some value → lookup key have ≡ some value)
    → has_all_caps have caps ≡ true
unfolding lookup
has_all_caps_complete have [] u h = unfold has_all_caps in refl
has_all_caps_complete have ((k, v) ∷ caps) u h = (has_all_caps-cons have k v caps).1 (
  h k v (rw (beq_refl k) refl),
  has_all_caps_complete have caps u.1 λ key value e. elim (Bool-cases (k == key)) [
    | inl same ↦ ground (arith, text_beq_iff k key, u.0, e)
    | inr other ↦ h key value (rw other e)
  ],
)

groups_iff :
    (groups : List Text) (caps : Capabilities) (w : WorkerInfo)
    → is_groups_matching w (new_workers groups caps).matcher
      ≡ (is_empty groups || in_any w.groups groups)
unfolding is_groups_matching new_workers
groups_iff groups caps w =
    ground (arith, is_empty-make_matcher groups, has_any_group-in_any w.groups groups)

caps_all :
    (have caps : Capabilities) (w : WorkerInfo)
    → w.caps ≡ have
    → is_caps_matching w caps ≡ has_all_caps have caps
unfolding is_caps_matching
caps_all have [] w e = unfold has_all_caps in refl
caps_all have (x ∷ caps) w e = ground arith

-- A worker that a filter matches belongs to one of the filter's groups, if the filter has any, and
-- has each capability of the filter with the filter's value.
pub match_worker_sound :
    (groups : List Text) (caps : Capabilities) (w : WorkerInfo)
    → match_worker (new_workers groups caps) w ≡ true
    → ((is_empty groups || in_any w.groups groups) ≡ true)
      × ((key value : Text) → lookup key caps ≡ some value → lookup key w.caps ≡ some value)
unfolding match_worker new_workers
match_worker_sound groups caps w h = (
  ground (arith, groups_iff groups caps w),
  has_all_caps_sound w.caps caps (ground (arith, caps_all w.caps caps w refl)),
)

-- A filter whose capabilities have different keys matches each worker that belongs to one of the
-- filter's groups, or any if the filter has no groups, and has each capability of the filter with
-- the filter's value.
pub match_worker_complete :
    (groups : List Text) (caps : Capabilities) (w : WorkerInfo)
    → IsUnique caps
    → (is_empty groups || in_any w.groups groups) ≡ true
    → ((key value : Text) → lookup key caps ≡ some value → lookup key w.caps ≡ some value)
    → match_worker (new_workers groups caps) w ≡ true
unfolding match_worker new_workers
match_worker_complete groups caps w u g h = ground (
  arith,
  groups_iff groups caps w,
  caps_all w.caps caps w refl,
  has_all_caps_complete w.caps caps u h,
)
