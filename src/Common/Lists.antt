-- ===== src/Common/Lists.antt =====
-- Lists measured and indexed by native numbers.
use Prim.Native.Nat.{ℕ, zero, suc, ◌+◌, ◌-◌, ◌<◌, min}
use mathlib.Core.Path.{◌≡◌, refl, ap}
use mathlib.Core.Bool.{Bool, true, false, ◌||◌}
use mathlib.Core.List.{List, [], ◌∷◌, ◌++◌}
use native.Mathlib.Omega.{arith}
use boruta.Common.Tests.{Eq, ◌==◌, if◌then◌else◌}

module _ {ℓ} {A : Type ℓ} where
  abbrev pub length : List A → ℕ
  length [] = 0
  length (x ∷ xs) = suc (length xs)

  abbrev pub take : ℕ → List A → List A
  take zero xs = []
  take (suc n) [] = []
  take (suc n) (x ∷ xs) = x ∷ take n xs

  abbrev pub drop : ℕ → List A → List A
  drop zero xs = xs
  drop (suc n) [] = []
  drop (suc n) (x ∷ xs) = drop n xs

  pub length-append : (xs ys : List A) → length (xs ++ ys) ≡ length xs + length ys
  length-append [] ys = omega arith
  length-append (x ∷ xs) ys = omega (arith, length-append xs ys)

  pub take-append-drop : (n : ℕ) (xs : List A) → take n xs ++ drop n xs ≡ xs
  take-append-drop zero xs = refl
  take-append-drop (suc n) [] = refl
  take-append-drop (suc n) (x ∷ xs) = ap (◌∷◌ x) (take-append-drop n xs)

  pub length-take : (n : ℕ) (xs : List A) → length (take n xs) ≡ min n (length xs)
  length-take zero xs = omega arith
  length-take (suc n) [] = omega arith
  length-take (suc n) (x ∷ xs) = omega (arith, length-take n xs)

  pub length-drop : (n : ℕ) (xs : List A) → length (drop n xs) ≡ length xs - n
  length-drop zero xs = omega arith
  length-drop (suc n) [] = omega arith
  length-drop (suc n) (x ∷ xs) = omega (arith, length-drop n xs)

  -- Those of the elements that pass a Boolean test, in order.
  unfoldable pub select : (A → Bool) → List A → List A
  select p [] = []
  select p (x ∷ xs) = let rest = select p xs in if p x then x ∷ rest else rest

  -- A predicate of every element.
  abbrev pub All {κ} : (A → Type κ) → List A → Type κ
  All P [] = Unit
  All P (x ∷ xs) = P x × All P xs

module _ {ℓ} {A : Type ℓ} ⦃e : Eq A⦄ where
  -- How often an element occurs.
  unfoldable pub count : A → List A → ℕ
  count a [] = 0
  count a (x ∷ xs) = let rest = count a xs in if x == a then suc rest else rest

  unfoldable pub contains : A → List A → Bool
  contains a [] = false
  contains a (x ∷ xs) = x == a || contains a xs

  -- A list without the first occurrence of an element.
  unfoldable pub remove_first : A → List A → List A
  remove_first a [] = []
  remove_first a (x ∷ xs) = let rest = x ∷ remove_first a xs in if x == a then xs else rest

  pub count-append : (a : A) (xs ys : List A) → count a (xs ++ ys) ≡ count a xs + count a ys
  unfolding count
  count-append a [] ys = omega arith
  count-append a (x ∷ xs) ys = ground (arith, count-append a xs ys)

  pub contains-count : (a : A) (xs : List A) → contains a xs ≡ true → 0 < count a xs
  unfolding contains count
  contains-count a [] h = ground arith
  contains-count a (x ∷ xs) h = ground (arith, contains-count a xs)

  pub count-contains : (a : A) (xs : List A) → 0 < count a xs → contains a xs ≡ true
  unfolding contains count
  count-contains a [] h = absurd (omega arith)
  count-contains a (x ∷ xs) h = ground (arith, count-contains a xs)

  pub count-remove_first :
      (a b : A) (xs : List A)
      → count b (remove_first a xs) ≡ (if a == b then count b xs - 1 else count b xs)
  unfolding count remove_first
  count-remove_first a b [] = ground arith
  count-remove_first a b (x ∷ xs) =
      ground (arith, e.beq_iff x a, e.beq_iff a b, e.beq_iff x b, count-remove_first a b xs)

  pub length-remove_first :
      (a : A) (xs : List A) → 0 < count a xs → suc (length (remove_first a xs)) ≡ length xs
  unfolding count remove_first
  length-remove_first a [] h = absurd (omega arith)
  length-remove_first a (x ∷ xs) h = ground (arith, length-remove_first a xs)
