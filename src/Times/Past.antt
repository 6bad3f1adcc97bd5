-- ===== src/Times/Past.antt =====
-- What `process` takes out of the heap.
use mathlib.Core.List.Perm
use boruta.Common.{
  ℕ, zero, suc, ◌≤◌, ◌≡◌, Bool, true, false, not, List, [], ◌∷◌, map, arith, Perm, ltb, length,
  select, Bool-cases, inl, inr, select-Perm, length-Perm, select-none, select-every, All-implies,
  All-of_mem,
}
use boruta.Types.{ReqId, Time}
use boruta.Std.{Std, HeapLaws, RequestTime, request_time_less}
use boruta.Times.{RequestTimes, take_past_loop, take_past}

abbrev pub is_past : Time → RequestTime → Bool
is_past t x = ltb x.at t

abbrev pub is_left : Time → RequestTime → Bool
is_left t x = not (ltb x.at t)

-- What the loop makes of a heap: the past times, in some order, and a heap of those left.
abbrev Exact :
    (List RequestTime → Type 0) → Time → List RequestTime → List ReqId × List RequestTime → Type 0
Exact IsHeap t h (ids, left) =
    Perm ids (map (λ x. x.req) (select (is_past t) h))
    × Perm left (select (is_left t) h)
    × IsHeap left

-- A time that is not before another.
not_before :
    (x y : RequestTime) (t : Time)
    → ltb x.at t ≡ false
    → request_time_less y x ≡ false
    → is_left t y ≡ true
unfolding request_time_less
not_before x y t h e = ground arith

module _ ⦃std : Std⦄ (laws : HeapLaws std) where
  loop-Exact :
      (k : ℕ) (t : Time) (h : List RequestTime)
      → length h ≤ k
      → laws.IsHeap h
      → Exact laws.IsHeap t h (take_past_loop k t h)
  unfolding take_past_loop select
  loop-Exact zero t [] le v = (Perm.refl [], Perm.refl [], v)
  loop-Exact zero t (x ∷ h) le v = absurd (omega arith)
  loop-Exact (suc k) t [] le v = (Perm.refl [], Perm.refl [], v)
  loop-Exact (suc k) t (x ∷ h) le v = elim (Bool-cases (ltb x.at t)) [
    | inl e ↦
        let p = laws.pop_perm x h in
        let (ids, left, heap) =
          loop-Exact k t (std.heap_pop x h).1 (omega (arith, length-Perm p))
            (laws.pop_heap x h v) in
        rw (e, laws.pop_root x h)
          (
            Perm.cons x.req (Perm.trans ids (Perm.map (λ y. y.req) (select-Perm (is_past t) p))),
            Perm.trans left (select-Perm (is_left t) p),
            heap,
          )
    | inr e ↦
        let later =
          All-of_mem (is_left t) h (λ y m. not_before x y t e (laws.root_least x y h v m)) in
        rw
          (
            e,
            select-none (is_past t) h (All-implies h (λ y n. ground (arith, n)) later),
            select-every (is_left t) h later,
          )
          (Perm.refl [], Perm.refl (x ∷ h), v)
  ]

  -- If Push and Pop of container/heap keep a heap and its elements, with the minimum at the root,
  -- then of times that are a heap process takes, in some order, exactly the requests of those
  -- before the time given, and leaves exactly the others, as a heap.
  pub take_past-Exact :
      (t : Time) (rt : RequestTimes)
      → laws.IsHeap rt.times
      → let (ids, d) = take_past t rt in
        Perm ids (map (λ x. x.req) (select (is_past t) rt.times))
        × Perm d.times (select (is_left t) rt.times)
        × laws.IsHeap d.times
  unfolding take_past
  take_past-Exact t rt v = loop-Exact (length rt.times) t rt.times (omega arith) v
