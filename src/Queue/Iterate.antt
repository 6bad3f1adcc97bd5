-- ===== src/Queue/Iterate.antt =====
-- What the iterator of the queue gives: initIterator, next.
use boruta.Common.{
  ℕ, zero, suc, ◌+◌, ◌-◌, ◌≤◌, ◌<◌, ◌≡◌, refl, ap, ◌≢◌, ◌%◌, ◌⊎◌, inl, inr, Option, none, some,
  List, [], ◌∷◌, ◌++◌, arith, nat_beq, Bool-cases, length, length-append,
}
use boruta.Types.{ReqId, Priority, hi_prio, lo_prio, Result, ok, blocked, ◌>>=◌}
use boruta.Queue.{
  PrioQueue, Cursor, skip_empty, take_element, take_front, advance, next, init_iterator,
}
use boruta.Queue.Counts.{total}

-- The IDs of `n` lanes, from lane `p` on.
unfoldable pub lanes_from : ℕ → (Priority → List ReqId) → Priority → List ReqId
lanes_from zero lane p = []
lanes_from (suc n) lane p = lane p ++ lanes_from n lane (suc p)

-- What an iterator has yet to give.
abbrev pub left : Option Cursor → (Priority → List ReqId) → List ReqId
left none lane = []
left (some c) lane = c.e ++ lanes_from (lo_prio - c.p) lane (suc c.p)

-- A cursor stands in a lane.
abbrev pub IsLive : Option Cursor → (Priority → List ReqId) → Type 0
IsLive none lane = Unit
IsLive (some c) lane = (hi_prio ≤ c.p) × (c.p ≤ lo_prio) × (length c.e ≤ length (lane c.p))

pub length-lanes_from :
    (n p : ℕ) (lane : Priority → List ReqId)
    → length (lanes_from n lane (suc p)) + total p lane ≡ total (p + n) lane
unfolding lanes_from total
length-lanes_from zero p lane = ground arith
length-lanes_from (suc n) p lane =
    let same : total (p + suc n) lane ≡ total (suc p + n) lane =
      ap (λ m. total m lane) (omega arith) in
    rw same (
      omega (
        arith,
        length-append (lane (suc p)) (lanes_from n lane (suc (suc p))),
        length-lanes_from n (suc p) lane,
      ))

List-cases {ℓ} : {A : Type ℓ} (l : List A) → (l ≡ []) ⊎ ((x : A) × (xs : List A) × (l ≡ x ∷ xs))
List-cases [] = inl refl
List-cases (x ∷ xs) = inr (x, xs, refl)

-- Where the search for the next lane with an element ends.
abbrev Skips : (Priority → List ReqId) → ℕ → Priority → Priority → Type 0
Skips lane n p p' =
    ((p' ≡ suc lo_prio) × (lanes_from n lane p ≡ []))
    ⊎ ((x : ReqId) × (xs : List ReqId) × (hi_prio ≤ p')
        × (p' ≤ lo_prio)
        × (lane p' ≡ x ∷ xs)
        × (lanes_from n lane p ≡ x ∷ (xs ++ lanes_from (lo_prio - p') lane (suc p'))))

skip_empty-Skips :
    (n k : ℕ) (lane : Priority → List ReqId) (p : Priority)
    → p + n ≡ suc lo_prio
    → hi_prio ≤ p
    → n < k
    → (p' : Priority) × (skip_empty k lane p ≡ ok p') × Skips lane n p p'
unfolding skip_empty lanes_from
skip_empty-Skips n zero lane p e h lt = absurd (omega arith)
skip_empty-Skips zero (suc k) lane p e h lt = (p, ground arith, inl (omega arith, refl))
skip_empty-Skips (suc n) (suc k) lane p e h lt = elim (List-cases (lane p)) [
  | inr (x, xs, el) ↦
      let same : lo_prio - p ≡ n = omega arith in
      (p, rw el (ground arith), inr (x, xs, h, omega arith, el, rw (same, el) refl))
  | inl el ↦
      let (p', ep, found) =
        skip_empty-Skips n k lane (suc p) (omega arith) (omega arith) (omega arith) in
      let inc : (p + 1) % 256 ≡ suc p = omega arith in
      (p', rw (el, inc, ep) (ground arith), rw el found)
]

-- One call of next: the first of what is left, or nothing.
abbrev pub Taken : PrioQueue → Option ReqId → Option Cursor → Type 0
Taken q none n = left q.next_fn q.lane ≡ []
Taken q (some id) n = (left q.next_fn q.lane ≡ id ∷ left n q.lane) × IsLive n q.lane × (n ≢ none)

length-zero {ℓ} : {A : Type ℓ} (l : List A) → length l ≡ 0 → l ≡ []
length-zero [] e = refl
length-zero (x ∷ xs) e = absurd (omega (arith, e))

empty-left :
    (e : List ReqId) (p : Priority) (lane : Priority → List ReqId)
    → hi_prio ≤ p
    → p ≤ lo_prio
    → length e ≤ length (lane p)
    → total lo_prio lane ≡ 0
    → e ++ lanes_from (lo_prio - p) lane (suc p) ≡ []
unfolding total
empty-left e zero lane h k le z = absurd (omega arith)
empty-left e (suc p) lane h k le z =
    let whole : suc p + (lo_prio - suc p) ≡ lo_prio = omega arith in
    let all : total (suc p + (lo_prio - suc p)) lane ≡ total lo_prio lane =
      ap (λ m. total m lane) whole in
    let after = lanes_from (lo_prio - suc p) lane (suc (suc p)) in
    let step : total (suc p) lane ≡ total p lane + length (lane (suc p)) = refl in
    length-zero (e ++ after)
      (omega (arith, length-append e after, length-lanes_from (lo_prio - suc p) (suc p) lane))

advance-Taken :
    (q : PrioQueue) (c : Cursor)
    → q.next_fn ≡ some c
    → IsLive (some c) q.lane
    → (id : Option ReqId) × (n : Option Cursor) × (advance c q ≡ ok (id, record q { next_fn = n }))
      × Taken q id n
unfolding advance take_front take_element
advance-Taken q c e v = elim (List-cases c.e) [
  | inr (x, xs, ex) ↦ (
    some x,
    some (record { p = c.p; e = xs }),
    rw (ex, advance) refl,
    (rw (e, ex) refl, (v.0, v.1, ground arith), λ h. cc),
  )
  | inl ex ↦
      let (p', ep, found) =
        skip_empty-Skips (lo_prio - c.p) 17 q.lane (suc c.p) (omega arith) (omega arith)
          (omega arith) in
      let inc : (c.p + 1) % 256 ≡ suc c.p = omega arith in
      elim found [
        | inl (at_end, none_left) ↦ (
          none,
          some (record { p = p'; e = [] }),
          rw (ex, advance, inc, ep, at_end) refl,
          rw (e, ex) none_left,
        )
        | inr (x, xs, lo, hi, el, here) ↦ (
          some x,
          some (record { p = p'; e = xs }),
          ground (arith, inc, ep),
          (rw (e, ex) here, (lo, hi, ground arith), λ h. cc),
        )
      ]
]

next-Taken_at :
    (q : PrioQueue) (o : Option Cursor)
    → q.next_fn ≡ o
    → IsLive o q.lane
    → q.size ≡ total lo_prio q.lane
    → (id : Option ReqId) × (n : Option Cursor) × (next q ≡ ok (id, record q { next_fn = n }))
      × Taken q id n
unfolding next
next-Taken_at q none e v z = (none, q.next_fn, ground arith, rw e refl)
next-Taken_at q (some c) e v z = elim (Bool-cases (nat_beq q.size 0)) [
  | inl h ↦ (
    none,
    some (record { p = hi_prio; e = [] }),
    rw (e, next, h) refl,
    rw e (empty-left c.e c.p q.lane v.0 v.1 v.2 (ground arith)),
  )
  | inr h ↦ let (id, n, en, taken) = advance-Taken q c e v in (id, n, rw (e, next, h) en, taken)
]

pub next-Taken :
    (q : PrioQueue)
    → IsLive q.next_fn q.lane
    → q.size ≡ total lo_prio q.lane
    → (id : Option ReqId) × (n : Option Cursor) × (next q ≡ ok (id, record q { next_fn = n }))
      × Taken q id n
next-Taken q v e = next-Taken_at q q.next_fn refl v e

-- The loop of iterateRequests, if it goes on to the end: what calls of next give, up to the first that
-- gives nothing.
unfoldable pub drain : ℕ → PrioQueue → Result (List ReqId)
drain zero q = blocked
drain (suc k) q =
    next q >>= λ (id, t). elim id [ none ↦ ok [] | some x ↦ drain k t >>= λ l. ok (x ∷ l) ]

drain-Taken :
    (k : ℕ) (q : PrioQueue) (id : Option ReqId) (n : Option Cursor)
    → next q ≡ ok (id, record q { next_fn = n })
    → Taken q id n
    → (IsLive n q.lane
        → length (left n q.lane) < k
        → drain k (record q { next_fn = n }) ≡ ok (left n q.lane))
    → length (left q.next_fn q.lane) < suc k
    → drain (suc k) q ≡ ok (left q.next_fn q.lane)
unfolding drain
drain-Taken k q none n e gone ih h = rw (e, drain, gone) refl
drain-Taken k q (some x) n e (taken, live, _) ih h =
    rw (e, drain, taken, ih live (omega (arith, ap length taken))) refl

drain-left :
    (k : ℕ) (q : PrioQueue)
    → IsLive q.next_fn q.lane
    → q.size ≡ total lo_prio q.lane
    → length (left q.next_fn q.lane) < k
    → drain k q ≡ ok (left q.next_fn q.lane)
drain-left zero q v e h = absurd (omega arith)
drain-left (suc k) q v e h =
    let (id, n, en, taken) = next-Taken q v e in
    drain-Taken k q id n en taken (λ live less. drain-left k (record q { next_fn = n }) live e less)
      h

module _ (q : PrioQueue) (free : q.next_fn ≡ none) (sized : q.size ≡ total lo_prio q.lane) where
  -- If the queue is free and its size is that of its lanes, initIterator returns, and then calls
  -- of next, until there is no element, give within the size of the queue and one more call
  -- exactly the elements of the lanes, from the highest priority to the lowest, and in each lane
  -- in its order.
  pub drain-init_iterator :
      (t : PrioQueue) × (init_iterator q ≡ ok t)
      × (drain (suc q.size) t ≡ ok (lanes_from lo_prio q.lane hi_prio))
  unfolding init_iterator total lanes_from
  drain-init_iterator =
      let t = record q { next_fn = some (record { p = hi_prio; e = q.lane hi_prio }) } in
      let all : lanes_from lo_prio q.lane hi_prio ≡ left t.next_fn q.lane =
        unfold lanes_from in refl in
      (
        t,
        ground (arith, free),
        drain-left (suc q.size) t (omega arith, omega arith, omega arith) sized
            (omega (arith, length-lanes_from lo_prio 0 q.lane)),
      )
