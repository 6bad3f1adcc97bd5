-- ===== src/Common/Everywhere.antt =====
-- What holds of every element of a list.
use mathlib.Core.Logic.Or
use mathlib.Core.Logic.{inl, inr}
use mathlib.Core.Path.{◌≡◌, sym, subst, ◌∙◌}
use mathlib.Core.Bool.{Bool, true, Bool-set, false≢true}
use mathlib.Core.List.{List, [], ◌∷◌, map, Mem, Perm, mem-cons, mem-cons_self, not-mem-nil}
use mathlib.Core.List.Perm
use mathlib.Core.Option.{none, some, some-injective}
use native.Mathlib.Omega.{arith}
use boruta.Common.Tests.{Bool-cases, Eq, ◌==◌}
use boruta.Common.Lists.{All, select}
use boruta.Common.Maps.{Map, lookup, IsUnique}

module _ {ℓ} {A : Type ℓ} where
  pub All-implies {κ λ'} :
      {P : A → Type κ} {Q : A → Type λ'} (xs : List A) → ((x : A) → P x → Q x) → All P xs → All Q xs
  All-implies [] f h = tt
  All-implies (x ∷ xs) f h = (f x h.0, All-implies xs f h.1)

  pub All-select {κ} :
      {P Q : A → Type κ} (p : A → Bool) (xs : List A)
      → ((x : A) → p x ≡ true → P x → Q x)
      → All P xs
      → All Q (select p xs)
  unfolding select
  All-select p [] f h = tt
  All-select p (x ∷ xs) f h = elim (Bool-cases (p x)) [
    | inl e ↦ rw e (f x e h.0, All-select p xs f h.1)
    | inr e ↦ rw e (All-select p xs f h.1)
  ]

  -- What holds of the selected holds of all that the test selects.
  pub All-unselect {κ} :
      (P : A → Type κ) (p : A → Bool) (xs : List A)
      → All P (select p xs)
      → All (λ x. p x ≡ true → P x) xs
  unfolding select
  All-unselect P p [] h = tt
  All-unselect P p (x ∷ xs) h = elim (Bool-cases (p x)) [
    | inl e ↦
        let both : All P (x ∷ select p xs) = rw (e, select) at h in
        (λ _. both.0, All-unselect P p xs both.1)
    | inr e ↦
        let rest : All P (select p xs) = rw (e, select) at h in
        (λ y. absurd (false≢true (sym e ∙ y)), All-unselect P p xs rest)
  ]

  pub All-unmap {κ μ} :
      {B : Type μ} (P : B → Type κ) (f : A → B) (xs : List A)
      → All P (map f xs)
      → All (λ x. P (f x)) xs
  All-unmap P f [] h = tt
  All-unmap P f (x ∷ xs) h = (h.0, All-unmap P f xs h.1)

  pub All-map {κ μ} :
      {B : Type μ} (P : B → Type κ) (f : A → B) (xs : List A)
      → All (λ x. P (f x)) xs
      → All P (map f xs)
  All-map P f [] h = tt
  All-map P f (x ∷ xs) h = (h.0, All-map P f xs h.1)

  -- A test that every element passes, every element of a permutation passes.
  pub All-mem :
      (p : A → Bool) (xs : List A) (x : A) → All (λ x. p x ≡ true) xs → Mem x xs → p x ≡ true
  All-mem p [] x h m = absurd (not-mem-nil m)
  All-mem p (y ∷ ys) x h m =
      Or.elim (Bool-set (p x) true) (mem-cons.0 m) (λ e. rw e h.0) (All-mem p ys x h.1)

  pub All-of_mem :
      (p : A → Bool) (xs : List A) → ((x : A) → Mem x xs → p x ≡ true) → All (λ x. p x ≡ true) xs
  All-of_mem p [] f = tt
  All-of_mem p (x ∷ xs) f =
      (f x (mem-cons_self), All-of_mem p xs (λ y m. f y (mem-cons.1 (Or.inr m))))

  pub All-perm :
      (p : A → Bool) (xs ys : List A)
      → Perm xs ys
      → All (λ x. p x ≡ true) ys
      → All (λ x. p x ≡ true) xs
  All-perm p xs ys perm h = All-of_mem p xs (λ x m. All-mem p ys x h ((Perm.mem_iff perm).0 m))

module _ {ℓ κ} {K : Type ℓ} {V : Type κ} ⦃e : Eq K⦄ where
  -- What holds of every value of a map holds of what is looked up.
  pub All-lookup {μ} :
      (P : V → Type μ) (k : K) (v : V) (m : Map K V)
      → All (λ p. P p.1) m
      → lookup k m ≡ some v
      → P v
  unfolding lookup
  All-lookup P k v [] h e = cc
  All-lookup P k v ((j, w) ∷ m) h e = elim (Bool-cases (j == k)) [
    | inl y ↦ subst P (some-injective w v (rw y at e)) h.0
    | inr n ↦ All-lookup P k v m h.1 (rw n at e)
  ]

  -- Every entry of a map is what its key is looked up to.
  lookup-skipped :
      (k : K) (v : V) (m : Map K V) (p : K × V)
      → lookup k m ≡ none
      → lookup p.0 m ≡ some p.1
      → lookup p.0 ((k, v) ∷ m) ≡ some p.1
  unfolding lookup
  lookup-skipped k v m p u h = ground (arith, e.beq_iff k p.0)

  pub lookup-entries : (m : Map K V) → IsUnique m → All (λ p. lookup p.0 m ≡ some p.1) m
  unfolding lookup
  lookup-entries [] u = tt
  lookup-entries ((k, v) ∷ m) u = (
    ground (arith, e.beq_iff k k),
    All-implies m (λ p h. lookup-skipped k v m p u.0 h) (lookup-entries m u.1),
  )
