-- ===== src/Common/Maps.antt =====
-- Go maps as association lists: a key is held once, and a new key goes to the end.
use Prim.Native.Nat.{suc}
use mathlib.Core.Path.{◌≡◌, refl}
use mathlib.Core.List.{List, [], ◌∷◌, ◌++◌, map}
use mathlib.Core.Option.{Option, none, some}
use native.Mathlib.Omega.{arith}
use boruta.Common.Tests.{Eq, ◌==◌, if◌then◌else◌}
use boruta.Common.Lists.{length}

abbrev pub Map {ℓ κ} : Type ℓ → Type κ → Type (ℓ ⊔ κ)
Map K V = List (K × V)

module _ {ℓ κ} {K : Type ℓ} {V : Type κ} where
  abbrev pub values : Map K V → List V
  values = map λ p. p.1

  abbrev pub keys : Map K V → List K
  keys = map λ p. p.0

module _ {ℓ κ} {K : Type ℓ} {V : Type κ} ⦃e : Eq K⦄ where
  -- m[key] = value
  unfoldable pub insert : (key : K) (value : V) → Map K V → Map K V
  insert key value [] = (key, value) ∷ []
  insert key value ((other, old) ∷ rest) =
      if other == key then (other, value) ∷ rest else (other, old) ∷ insert key value rest

  -- delete(m, key)
  unfoldable pub delete : (key : K) → Map K V → Map K V
  delete key [] = []
  delete key ((other, old) ∷ rest) =
      if other == key then delete key rest else (other, old) ∷ delete key rest

  -- m[key]
  unfoldable pub lookup : (key : K) → Map K V → Option V
  lookup key [] = none
  lookup key ((other, value) ∷ rest) = if other == key then some value else lookup key rest

  pub lookup-insert :
      (key asked : K) (value : V) (m : Map K V)
      → lookup asked (insert key value m) ≡ (if key == asked then some value else lookup asked m)
  unfolding insert lookup
  lookup-insert key asked value [] = refl
  lookup-insert key asked value ((other, old) ∷ rest) = ground (
    arith,
    lookup-insert key asked value rest,
    e.beq_iff other key,
    e.beq_iff other asked,
    e.beq_iff key asked,
  )

  pub lookup-delete :
      (k j : K) (m : Map K V) → lookup j (delete k m) ≡ (if k == j then none else lookup j m)
  unfolding lookup delete
  lookup-delete k j [] = ground arith
  lookup-delete k j ((i, w) ∷ m) =
      ground (arith, e.beq_iff k j, e.beq_iff i k, e.beq_iff i j, lookup-delete k j m)

  pub length-insert_new :
      (k : K) (v : V) (m : Map K V) → lookup k m ≡ none → length (insert k v m) ≡ suc (length m)
  unfolding lookup insert
  length-insert_new k v [] h = refl
  length-insert_new k v ((j, w) ∷ m) h = ground (arith, length-insert_new k v m)

  pub length-insert_old :
      (k : K) (v w : V) (m : Map K V) → lookup k m ≡ some w → length (insert k v m) ≡ length m
  unfolding lookup insert
  length-insert_old k v w [] h = ground arith
  length-insert_old k v w ((j, u) ∷ m) h = ground (arith, length-insert_old k v w m)

  pub lookup-append_new :
      (k : K) (v : V) (m : Map K V) → lookup k m ≡ none → insert k v m ≡ m ++ (k, v) ∷ []
  unfolding lookup insert
  lookup-append_new k v [] h = refl
  lookup-append_new k v ((j, w) ∷ m) h = ground (arith, lookup-append_new k v m)

  -- Each key is held once.
  abbrev pub IsUnique : Map K V → Type κ
  IsUnique [] = Unit
  IsUnique ((k, v) ∷ m) = (lookup k m ≡ none) × IsUnique m

  pub insert-IsUnique : (k : K) (v : V) (m : Map K V) → IsUnique m → IsUnique (insert k v m)
  unfolding insert
  insert-IsUnique k v [] u = (unfold lookup in refl, tt)
  insert-IsUnique k v ((j, w) ∷ m) u =
      ground (arith, e.beq_iff j k, e.beq_iff k j, lookup-insert k j v m, insert-IsUnique k v m u.1)

  pub delete-IsUnique : (k : K) (m : Map K V) → IsUnique m → IsUnique (delete k m)
  unfolding delete
  delete-IsUnique k [] u = tt
  delete-IsUnique k ((j, w) ∷ m) u =
      ground (arith, e.beq_iff j k, e.beq_iff k j, lookup-delete k j m, delete-IsUnique k m u.1)
