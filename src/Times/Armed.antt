-- ===== src/Times/Armed.antt =====
-- What the timer of requestTimes is set for, through insertions and calls of `process`.
use mathlib.Core.List.Perm
use boruta.Common.{
  ◌≤◌, ◌≡◌, refl, ◌∙◌, if◌then◌else◌, Bool, true, false, ◌||◌, List, [], ◌∷◌, arith, Perm, leb,
  nat_beq, All, All-perm, subst, All-of_mem, All-implies, Bool-cases, inl, inr,
}
use boruta.Types.{Time, ok}
use boruta.Std.{Std, HeapLaws, RequestTime, request_time_less}
use boruta.Times.{RequestTimes, new_request_times, insert_time, take_past, rearm}
use boruta.Times.Past.{take_past-Exact}

-- The times that insertions and calls of `process` lead to from the start.
pub data Reached ⦃std : Std⦄ : RequestTimes → Type 0 where
  starts : (far_future : Time) → Reached (new_request_times far_future)
  inserts :
      {rt d : RequestTimes} (t : RequestTime) → Reached rt → insert_time t rt ≡ ok d → Reached d
  processes : {rt : RequestTimes} (t : Time) → Reached rt → Reached (rearm (take_past t rt).1)

-- The timer is set for the time at the root, if there is one.
abbrev pub IsSetFor : List RequestTime → Time → Type 0
IsSetFor [] timer = Unit
IsSetFor (x ∷ h) timer = x.at ≡ timer

abbrev not_before : RequestTime → RequestTime → Bool
not_before x y = leb x.at y.at

not_less-not_before : (x y : RequestTime) → request_time_less y x ≡ false → not_before x y ≡ true
unfolding request_time_less
not_less-not_before x y e = ground arith

module _ ⦃std : Std⦄ (laws : HeapLaws std) where
  root-All :
      (x : RequestTime) (h : List RequestTime)
      → laws.IsHeap (x ∷ h)
      → All (λ y. not_before x y ≡ true) (x ∷ h)
  root-All x h v = (
    ground arith,
    All-of_mem (not_before x) h λ y m. not_less-not_before x y (laws.root_least x y h v m),
  )

  -- The root after an insertion has the new time, or the time of the root before it.
  pushed_root :
      (t least x : RequestTime) (rest h : List RequestTime)
      → laws.IsHeap (x ∷ h)
      → laws.IsHeap (least ∷ rest)
      → Perm (least ∷ rest) (t ∷ x ∷ h)
      → nat_beq least.at t.at ≡ false
      → least.at ≡ x.at
  pushed_root t least x rest h v w p e =
      let near : RequestTime → Bool = λ y. nat_beq y.at t.at || not_before x y in
      let old : All (λ y. near y ≡ true) (t ∷ x ∷ h) =
        (ground arith, All-implies (x ∷ h) (λ y n. ground (arith, n)) (root-All x h v)) in
      let from = All-perm near (least ∷ rest) (t ∷ x ∷ h) p old in
      let to =
        All-perm (not_before least) (t ∷ x ∷ h) (least ∷ rest) (Perm.symm p)
          (root-All least rest w) in
      ground (arith, from.0, to.1.0)

  -- The timer that an insertion leaves.
  abbrev timer_after : RequestTime → RequestTime → Time → Time
  timer_after t least timer = if nat_beq least.at t.at then least.at else timer

  timer_after-IsSetFor :
      (t least : RequestTime) (rest h : List RequestTime) (timer : Time)
      → laws.IsHeap h
      → IsSetFor h timer
      → laws.IsHeap (least ∷ rest)
      → Perm (least ∷ rest) (t ∷ h)
      → least.at ≡ timer_after t least timer
  timer_after-IsSetFor t least rest [] timer v set w p =
      let only : RequestTime → Bool = λ y. nat_beq y.at t.at in
      let found = All-perm only (least ∷ rest) (t ∷ []) p (ground arith, tt) in rw found.0 refl
  timer_after-IsSetFor t least rest (x ∷ h) timer v set w p =
      elim (Bool-cases (nat_beq least.at t.at)) [
        | inl e ↦ rw e refl
        | inr e ↦ rw e (pushed_root t least x rest h v w p e ∙ set)
      ]

  -- The times are a heap, the timer is set for the time at the root, and is before no time.
  abbrev pub IsArmed : RequestTimes → Type 0
  IsArmed rt =
      laws.IsHeap rt.times × IsSetFor rt.times rt.timer × All (λ x. rt.timer ≤ x.at) rt.times

  early_times :
      (h : List RequestTime) (timer : Time)
      → laws.IsHeap h
      → IsSetFor h timer
      → All (λ x. timer ≤ x.at) h
  early_times [] timer v set = tt
  early_times (x ∷ h) timer v set =
      All-implies (x ∷ h) (λ y n. ground (arith, n, set)) (root-All x h v)

  rearm-IsArmed :
      (h : List RequestTime) (rt : RequestTimes) → rt.times ≡ h → laws.IsHeap h → IsArmed (rearm rt)
  unfolding rearm
  rearm-IsArmed [] rt e v = rw e (v, tt, tt)
  rearm-IsArmed (x ∷ h) rt e v = rw e (v, refl, early_times (x ∷ h) x.at v refl)

  pushed-IsArmed :
      (t least : RequestTime) (rest : List RequestTime) (rt : RequestTimes)
      → IsArmed rt
      → laws.IsHeap (least ∷ rest)
      → Perm (least ∷ rest) (t ∷ rt.times)
      → IsArmed (record rt { times = least ∷ rest; timer = timer_after t least rt.timer })
  pushed-IsArmed t least rest rt (v, set, early) w p =
      let now = timer_after-IsSetFor t least rest rt.times rt.timer v set w p in
      (w, now, early_times (least ∷ rest) (timer_after t least rt.timer) w now)

  insert_time-IsArmed :
      (t : RequestTime) (rt d : RequestTimes) → IsArmed rt → insert_time t rt ≡ ok d → IsArmed d
  unfolding insert_time
  insert_time-IsArmed t rt d a e =
      let (least, rest) = std.heap_push t rt.times in
      let next : RequestTimes = record rt {
        times = least ∷ rest;
        timer = timer_after t least rt.timer;
        is_locked = false;
      } in
      elim (Bool-cases rt.is_locked) [
        | inl locked ↦ absurd (ground (arith, locked, e))
        | inr free ↦
            let same : next ≡ d = (let got : ok next ≡ ok d = rw (free, insert_time) at e in cc) in
            subst IsArmed same (
              pushed-IsArmed t least rest rt a (laws.push_heap t rt.times a.0)
                (laws.push_perm t rt.times))
      ]

  -- If Push and Pop of container/heap keep a heap and its elements, with the minimum at the root,
  -- then after insertions that return and calls of process, in any order from the start, the times
  -- are a heap, and the timer is set for the time at the root, if there is one, which is not after
  -- any other.
  pub Reached-IsArmed : (rt : RequestTimes) → Reached rt → IsArmed rt
  unfolding new_request_times insert_time
  Reached-IsArmed rt (starts far) = (laws.nil_heap, tt, tt)
  Reached-IsArmed d (inserts {rt = rt} t r e) = insert_time-IsArmed t rt d (Reached-IsArmed rt r) e
  Reached-IsArmed d (processes {rt = rt} t r) =
      let (v, set, early) = Reached-IsArmed rt r in
      rearm-IsArmed _ _ refl (take_past-Exact laws t rt v).2
