-- ===== src/Paging/Pages.antt =====
-- How much of a list a page is.
use boruta.Common.{
  ℕ, suc, ◌+◌, ◌-◌, ◌≤◌, ◌<◌, ◌≡◌, Bool, List, [], ◌∷◌, arith, if◌then◌else◌, length, take, drop,
  length-take, length-drop,
}
use boruta.Lists.{ListDirection, forward, backward}
use boruta.Paging.{page, min, index_from}

-- The part of a list of `total` elements that a page with `elems` of them, from `index` on, is.
length-part {ℓ} :
    {A : Type ℓ} (elems index : ℕ) (res : List A)
    → elems ≤ length res - index
    → length (take elems (drop index res)) ≡ elems
length-part elems index res h =
    omega (arith, length-take elems (drop index res), length-drop index res)

index_from-bound {ℓ} :
    {A : Type ℓ} (i : ℕ) (at : A → Bool) (xs : List A) → index_from i at xs ≤ i + length xs
unfolding index_from
index_from-bound i at [] = omega arith
index_from-bound i at (x ∷ xs) = ground (arith, index_from-bound (suc i) at xs)

module _ {ℓ} {A : Type ℓ} (at : A → Bool) (has_id hidden : Bool) where
  -- A page of a list, in either direction, is no longer than the limit, and together with the
  -- items that are said to remain no longer than the list, and it is as long as the limit if any
  -- items remain.
  pub length-page :
      (direction : ListDirection) (limit : ℕ) (res : List A)
      → let (shown, info) = page at has_id hidden direction limit res in
        (length shown ≤ limit)
        × (length shown + info.remaining_items ≤ length res)
        × (0 < info.remaining_items → length shown ≡ limit)
  unfolding page index_from
  length-page direction limit [] = (omega arith, omega arith, λ h. omega arith)
  length-page forward limit (x ∷ xs) =
      let res = x ∷ xs in
      let index = index_from 0 at res + (if has_id then 1 else 0) in
      let elems = min limit (length res - index) in
      let e : length (take elems (drop index res)) ≡ elems =
        length-part elems index res (ground arith) in
      rw e (ground arith, ground arith, λ h. ground arith)
  length-page backward limit (x ∷ xs) =
      let res = x ∷ xs in
      let index = if has_id then index_from 0 at res else length res in
      let elems = min limit index in
      let b : index ≤ length res = ground (arith, index_from-bound 0 at res) in
      let e : length (take elems (drop (index - elems) res)) ≡ elems =
        length-part elems (index - elems) res (ground arith) in
      rw e (ground arith, ground arith, λ h. ground arith)
