-- ===== src/Common/Perms.antt =====
-- What a permutation keeps: the length, and what a Boolean test lets pass.
use mathlib.Core.Logic.{∥∥₁_elim, ∥∥₁_prop, inl, inr}
use mathlib.Core.Path.{◌≡◌, refl, ap, subst, ◌∙◌}
use mathlib.Core.Bool.{Bool, true, false}
use mathlib.Core.List.{List, [], ◌∷◌, Perm, Permᴰ}
use mathlib.Core.List.Perm
use native.Mathlib.Nat.{ℕ_set}
use Prim.Native.Nat.{suc}
use boruta.Common.Tests.{Bool-cases}
use boruta.Common.Lists.{length, select, All}

module _ {ℓ} {A : Type ℓ} where
  select-cons :
      (p : A → Bool) (x : A) (l m : List A)
      → Perm (select p l) (select p m)
      → Perm (select p (x ∷ l)) (select p (x ∷ m))
  unfolding select
  select-cons p x l m h = elim (Bool-cases (p x)) [ inl e ↦ rw e (Perm.cons x h) | inr e ↦ rw e h ]

  select-swap :
      (p : A → Bool) (x y : A) (l : List A) → Perm (select p (x ∷ y ∷ l)) (select p (y ∷ x ∷ l))
  unfolding select
  select-swap p x y l = elim (Bool-cases (p x)) [
    | inl e ↦ elim (Bool-cases (p y)) [
      | inl f ↦ rw (e, f) (Perm.swap y x (select p l))
      | inr f ↦ rw (e, f) (Perm.refl (x ∷ select p l))
    ]
    | inr e ↦ elim (Bool-cases (p y)) [
      | inl f ↦ rw (e, f) (Perm.refl (y ∷ select p l))
      | inr f ↦ rw (e, f) (Perm.refl (select p l))
    ]
  ]

  select-Permᴰ : (p : A → Bool) {l m : List A} → Permᴰ l m → Perm (select p l) (select p m)
  select-Permᴰ p Permᴰ.nil = Perm.refl _
  select-Permᴰ p (Permᴰ.cons {a = a} {l₁ = l} {l₂ = m} e h) =
      subst (λ b. Perm (select p (a ∷ l)) (select p (b ∷ m))) e
        (select-cons p a l m (select-Permᴰ p h))
  select-Permᴰ p (Permᴰ.swap {a = a} {b = b} {b' = d} {l = l} e f) =
      subst (λ c. Perm (select p (a ∷ b ∷ l)) (select p (c ∷ d ∷ l))) f
        (subst (λ c. Perm (select p (a ∷ b ∷ l)) (select p (b ∷ c ∷ l))) e (select-swap p a b l))
  select-Permᴰ p (Permᴰ.trans h k) = Perm.trans (select-Permᴰ p h) (select-Permᴰ p k)

  pub select-Perm : (p : A → Bool) {l m : List A} → Perm l m → Perm (select p l) (select p m)
  select-Perm p h = ∥∥₁_elim h ∥∥₁_prop (select-Permᴰ p)

  length-Permᴰ : {l m : List A} → Permᴰ l m → length l ≡ length m
  length-Permᴰ Permᴰ.nil = refl
  length-Permᴰ (Permᴰ.cons e h) = ap suc (length-Permᴰ h)
  length-Permᴰ (Permᴰ.swap e f) = refl
  length-Permᴰ (Permᴰ.trans h k) = length-Permᴰ h ∙ length-Permᴰ k

  pub length-Perm : {l m : List A} → Perm l m → length l ≡ length m
  length-Perm {l} {m} h =
      ∥∥₁_elim {P = length l ≡ length m} h (ℕ_set (length l) (length m)) length-Permᴰ

  -- A test that no element passes, and one that every element passes.
  pub select-none : (p : A → Bool) (l : List A) → All (λ x. p x ≡ false) l → select p l ≡ []
  unfolding select
  select-none p [] h = refl
  select-none p (x ∷ l) h = rw (h.0, select-none p l h.1) refl

  pub select-every : (p : A → Bool) (l : List A) → All (λ x. p x ≡ true) l → select p l ≡ l
  unfolding select
  select-every p [] h = refl
  select-every p (x ∷ l) h = rw (h.0, select-every p l h.1) refl
