-- ===== src/Queue.antt =====
-- requests/queue.go: the priority queue, an array of FIFO lists, and its iterator.
-- `queue[p]` is `lane p`; index 0 is nil and there is none above LoPrio, so an access outside
-- HiPrio..LoPrio panics. An iterator is its priority and the list elements from its current element
-- on (`e == nil` is the empty list); the queue's mutex is held from initIterator to
-- releaseIterator, so the lists do not change under it, and a change waits. A priority counts modulo 2^8.
pub mod Counts
pub mod Iterate
use boruta.Common.{
  ℕ, zero, suc, ◌+◌, ◌-◌, ◌%◌, ◌≤◌, ◌≡◌, Bool, true, false, ◌&&◌, Option, none, some, List, [], ◌∷◌,
  ◌++◌, if◌then◌else◌, ltb, leb, nat_beq, length, count, contains, remove_first, nat_eq,
}
use boruta.Types.{
  ReqId, Priority, hi_prio, lo_prio, ReqInfo, Result, ok, err, panic, blocked, ◌>>=◌,
}

pub record Cursor : Type 0 where
  pub p : Priority
  pub e : List ReqId

pub record PrioQueue : Type 0 where
  pub lane : Priority → List ReqId
  pub size : ℕ
  -- `next`: `none` is _emptyIterator
  pub next_fn : Option Cursor

-- Whether `queue[p]` is a list.
unfoldable pub has_lane : Priority → Bool
has_lane p = leb hi_prio p && leb p lo_prio

unfoldable pub set_lane : (Priority → List ReqId) → Priority → List ReqId → Priority → List ReqId
set_lane f p l q = if nat_beq p q then l else f q

unfoldable pub new_prio_queue : PrioQueue
new_prio_queue = record { lane = λ _. []; size = 0; next_fn = none }

unfoldable pub remove_id : ReqId → Priority → PrioQueue → Result PrioQueue
unfolding has_lane set_lane
remove_id id p pq =
    if has_lane p && contains id (pq.lane p)
    then ok
        (record pq { lane = set_lane pq.lane p (remove_first id (pq.lane p)); size = pq.size - 1 })
    else panic

unfoldable pub push_id : ReqId → Priority → PrioQueue → Result PrioQueue
unfolding has_lane set_lane
push_id id p pq =
    if has_lane p
    then ok (record pq { lane = set_lane pq.lane p (pq.lane p ++ id ∷ []); size = pq.size + 1 })
    else panic

-- The queue's mutex, which is held as long as there is an iterator.
unfoldable pub lock_queue : PrioQueue → Result PrioQueue
lock_queue pq = elim pq.next_fn [ none ↦ ok pq | some c ↦ blocked ]

unfoldable pub remove_request : ReqInfo → PrioQueue → Result PrioQueue
unfolding lock_queue remove_id
remove_request r pq = do locked ← lock_queue pq; remove_id r.id r.priority locked

unfoldable pub push_request : ReqInfo → PrioQueue → Result PrioQueue
unfolding lock_queue push_id
push_request r pq = do locked ← lock_queue pq; push_id r.id r.priority locked

unfoldable pub set_request_priority : ReqInfo → Priority → PrioQueue → Result PrioQueue
unfolding lock_queue remove_id push_id
set_request_priority r new_prio pq = do
  locked ← lock_queue pq
  removed ← remove_id r.id r.priority locked
  push_id r.id new_prio removed

unfoldable pub init_iterator : PrioQueue → Result PrioQueue
unfolding lock_queue
init_iterator pq = do
  locked ← lock_queue pq
  ok (record locked { next_fn = some (record { p = hi_prio; e = locked.lane hi_prio }) })

unfoldable pub release_iterator : PrioQueue → PrioQueue
release_iterator pq = record pq { next_fn = none }

abbrev u8_inc : Priority → Priority
u8_inc p = (p + 1) % 256

-- `for p++; p <= LoPrio && pq.queue[p].Len() == 0; p++ {}`; 17 rounds leave the range 0..LoPrio, and
-- the nil list at index 0 panics.
unfoldable pub skip_empty : ℕ → (Priority → List ReqId) → Priority → Result Priority
skip_empty zero lane p = panic
skip_empty (suc k) lane p =
    let rest = skip_empty k lane (u8_inc p) in
    if leb p lo_prio
    then (if nat_beq p 0 then panic else (if nat_beq (length (lane p)) 0 then rest else ok p))
    else ok p

-- The element to return, from where the iterator stands.
unfoldable pub take_element : Priority → List ReqId → PrioQueue → Option ReqId × PrioQueue
take_element p [] pq = (none, record pq { next_fn = some (record { p = p; e = [] }) })
take_element p (id ∷ rest) pq = (some id, record pq { next_fn = some (record { p = p; e = rest }) })

-- The element found after a search for the next priority.
unfoldable pub take_front : Priority → PrioQueue → Option ReqId × PrioQueue
unfolding take_element
take_front p pq = if leb p lo_prio then take_element p (pq.lane p) pq else take_element p [] pq

unfoldable pub advance : Cursor → PrioQueue → Result (Option ReqId × PrioQueue)
unfolding skip_empty take_element take_front
advance c pq = elim c.e [
  | [] ↦ skip_empty 17 pq.lane (u8_inc c.p) >>= λ p. ok (take_front p pq)
  | id ∷ rest ↦ ok (take_element c.p (id ∷ rest) pq)
]

-- `pq.next()`: `none` is (0, false).
unfoldable pub next : PrioQueue → Result (Option ReqId × PrioQueue)
unfolding advance
next pq = elim pq.next_fn [
  | none ↦ ok (none, pq)
  | some c ↦
      if nat_beq pq.size 0
      then ok (none, record pq { next_fn = some (record { p = hi_prio; e = [] }) })
      else advance c pq
]
