-- ===== src/Queue/Counts.antt =====
-- What the changes of the queue do to its contents: how often each ID stands in each lane.
use boruta.Common.{
  ℕ, zero, suc, ◌+◌, ◌-◌, ◌≤◌, ◌<◌, ◌≡◌, refl, List, [], ◌∷◌, ◌++◌, arith, if◌then◌else◌, nat_beq,
  length, length-append, count, count-append, count-remove_first, count-contains,
  length-remove_first, remove_first, nat_eq,
}
use boruta.Types.{ReqId, Priority, hi_prio, lo_prio, ok}
use boruta.Queue.{PrioQueue, set_lane, remove_id, push_id}

-- The lanes 1..n hold this many elements.
unfoldable pub total : ℕ → (Priority → List ReqId) → ℕ
total zero lane = 0
total (suc n) lane = total n lane + length (lane (suc n))

-- The queue without an ID of a lane, and with one more.
pub removed : ReqId → Priority → PrioQueue → PrioQueue
removed id p pq = record pq {
  lane = set_lane pq.lane p (remove_first id (pq.lane p));
  size = pq.size - 1;
}

unfoldable pub pushed : ReqId → Priority → PrioQueue → PrioQueue
pushed id p pq = record pq { lane = set_lane pq.lane p (pq.lane p ++ id ∷ []); size = pq.size + 1 }

pub remove_id-ok :
    (id : ReqId) (p : Priority) (pq : PrioQueue)
    → hi_prio ≤ p
    → p ≤ lo_prio
    → 0 < count id (pq.lane p)
    → remove_id id p pq ≡ ok (removed id p pq)
unfolding remove_id removed
remove_id-ok id p pq h k c = ground (arith, count-contains id (pq.lane p))

pub push_id-ok :
    (id : ReqId) (p : Priority) (pq : PrioQueue)
    → hi_prio ≤ p
    → p ≤ lo_prio
    → push_id id p pq ≡ ok (pushed id p pq)
unfolding push_id pushed
push_id-ok id p pq h k = ground arith

pub count-removed :
    (id j : ReqId) (p q : Priority) (pq : PrioQueue)
    → count j ((removed id p pq).lane q) ≡ (
        if nat_beq p q
        then (if nat_beq id j then count j (pq.lane q) - 1 else count j (pq.lane q))
        else count j (pq.lane q))
unfolding removed set_lane
count-removed id j p q pq = ground (arith, count-remove_first id j (pq.lane p))

pub count-pushed :
    (id j : ReqId) (p q : Priority) (pq : PrioQueue)
    → count j ((pushed id p pq).lane q) ≡ (
        if nat_beq p q
        then (if nat_beq id j then count j (pq.lane q) + 1 else count j (pq.lane q))
        else count j (pq.lane q))
unfolding pushed set_lane count
count-pushed id j p q pq = ground (arith, count-append j (pq.lane p) (id ∷ []))

total-set_above :
    (n : ℕ) (lane : Priority → List ReqId) (p : Priority) (l : List ReqId)
    → n < p
    → total n (set_lane lane p l) ≡ total n lane
unfolding total set_lane
total-set_above zero lane p l h = refl
total-set_above (suc n) lane p l h = ground (arith, total-set_above n lane p l)

total-set_lane :
    (n : ℕ) (lane : Priority → List ReqId) (p : Priority) (l : List ReqId)
    → 0 < p
    → p ≤ n
    → total n (set_lane lane p l) + length (lane p) ≡ total n lane + length l
unfolding total set_lane
total-set_lane zero lane p l h k = absurd (omega arith)
total-set_lane (suc n) lane p l h k =
    ground (arith, total-set_lane n lane p l, total-set_above n lane p l)

pub total-removed :
    (id : ReqId) (p : Priority) (pq : PrioQueue)
    → hi_prio ≤ p
    → p ≤ lo_prio
    → 0 < count id (pq.lane p)
    → suc (total lo_prio (removed id p pq).lane) ≡ total lo_prio pq.lane
unfolding removed
total-removed id p pq h k c = omega (
  arith,
  total-set_lane lo_prio pq.lane p (remove_first id (pq.lane p)) h k,
  length-remove_first id (pq.lane p) c,
)

pub total-pushed :
    (id : ReqId) (p : Priority) (pq : PrioQueue)
    → hi_prio ≤ p
    → p ≤ lo_prio
    → total lo_prio (pushed id p pq).lane ≡ suc (total lo_prio pq.lane)
unfolding pushed
total-pushed id p pq h k = omega (
  arith,
  total-set_lane lo_prio pq.lane p (pq.lane p ++ id ∷ []) h k,
  length-append (pq.lane p) (id ∷ []),
)

-- `size` keeps counting the elements.
pub size-removed :
    (id : ReqId) (p : Priority) (pq : PrioQueue)
    → hi_prio ≤ p
    → p ≤ lo_prio
    → 0 < count id (pq.lane p)
    → pq.size ≡ total lo_prio pq.lane
    → (removed id p pq).size ≡ total lo_prio (removed id p pq).lane
size-removed id p pq h k c e =
    let gone : (removed id p pq).size ≡ pq.size - 1 = unfold removed in refl in
    omega (arith, gone, total-removed id p pq h k c)

pub size-pushed :
    (id : ReqId) (p : Priority) (pq : PrioQueue)
    → hi_prio ≤ p
    → p ≤ lo_prio
    → pq.size ≡ total lo_prio pq.lane
    → (pushed id p pq).size ≡ total lo_prio (pushed id p pq).lane
size-pushed id p pq h k e =
    let more : (pushed id p pq).size ≡ pq.size + 1 = unfold pushed in refl in
    omega (arith, more, total-pushed id p pq h k)

pub next_fn-removed :
    (id : ReqId) (p : Priority) (pq : PrioQueue) → (removed id p pq).next_fn ≡ pq.next_fn
unfolding removed
next_fn-removed id p pq = refl

pub next_fn-pushed :
    (id : ReqId) (p : Priority) (pq : PrioQueue) → (pushed id p pq).next_fn ≡ pq.next_fn
unfolding pushed
next_fn-pushed id p pq = refl
