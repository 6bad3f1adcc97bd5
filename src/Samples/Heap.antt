-- ===== src/Samples/Heap.antt =====
-- An ordered list is a heap: the laws of container/heap hold of the sample.
use mathlib.Core.List.Perm
use boruta.Common.{
  ◌≡◌, refl, Bool, true, not, List, [], ◌∷◌, arith, Perm, Bool-cases, inl, inr, All, All-implies,
  All-perm, All-mem,
}
use boruta.Std.{HeapLaws, RequestTime, request_time_less}
use boruta.Samples.{sample_std, sorted_push}

abbrev not_after : RequestTime → RequestTime → Bool
not_after x y = not (request_time_less y x)

abbrev IsSorted : List RequestTime → Type 0
IsSorted [] = Unit
IsSorted (x ∷ h) = All (λ y. not_after x y ≡ true) h × IsSorted h

not_after_trans :
    (x y z : RequestTime)
    → request_time_less x y ≡ true
    → not_after y z ≡ true
    → not_after x z ≡ true
unfolding request_time_less
not_after_trans x y z e h = ground arith

less-not_after : (x y : RequestTime) → request_time_less x y ≡ true → not_after x y ≡ true
unfolding request_time_less
less-not_after x y e = ground arith

pub sorted_push-Perm :
    (x : RequestTime) (h : List RequestTime)
    → Perm ((sorted_push x h).0 ∷ (sorted_push x h).1) (x ∷ h)
sorted_push-Perm x [] = Perm.refl (x ∷ [])
sorted_push-Perm x (y ∷ h) = elim (Bool-cases (request_time_less x y)) [
  | inl e ↦ rw e (Perm.refl (x ∷ y ∷ h))
  | inr e ↦ rw e (Perm.trans (Perm.cons y (sorted_push-Perm x h)) (Perm.swap x y h))
]

pub sorted_push-IsSorted :
    (x : RequestTime) (h : List RequestTime)
    → IsSorted h
    → IsSorted ((sorted_push x h).0 ∷ (sorted_push x h).1)
sorted_push-IsSorted x [] v = (tt, tt)
sorted_push-IsSorted x (y ∷ h) v = elim (Bool-cases (request_time_less x y)) [
  | inl e ↦ rw e ((less-not_after x y e, All-implies h (λ z n. not_after_trans x y z e n) v.0), v)
  | inr e ↦
      let rest = sorted_push x h in
      let later : All (λ z. not_after y z ≡ true) (rest.0 ∷ rest.1) =
        All-perm (not_after y) (rest.0 ∷ rest.1) (x ∷ h) (sorted_push-Perm x h)
          (ground (arith, e), v.0) in
      rw e (later, sorted_push-IsSorted x h v.1)
]

abbrev pub sample_heap_laws : HeapLaws sample_std
sample_heap_laws = record {
  IsHeap = IsSorted;
  nil_heap = tt;
  push_heap = sorted_push-IsSorted;
  push_perm = sorted_push-Perm;
  pop_root = λ x h. refl;
  pop_heap = λ x h v. v.1;
  pop_perm = λ x h. Perm.refl h;
  root_least = λ x y h v m.
      let here : not_after x y ≡ true = All-mem (not_after x) h y v.0 m in ground (arith, here);
}
